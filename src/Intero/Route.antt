-- ===== src/Intero/Route.antt =====
-- Which registers are read for the temperature.
use nova_exo.Base.{ℕ, ◌%◌, ◌≤◌, ◌<◌, ◌≡◌, refl, true, false, arith}
use nova_exo.Intero.{
  Machine, vendor_intel, vendor_amd, cpu_family, cpu_model, temperatura, temperatura_amd,
  temp_pci_nb_f3, rotta_smn_zen, rotta_pci_f3_a4, rotta_smn_f15h_m60, tctl_da_raw, zen_temp,
  f15h_m60_temp,
}

-- On a processor that is not Intel's, the whole diagnostics, the temperature in it, is the same
-- whatever the MSRs hold.
pub temperatura-msr :
    (m : Machine) (msr : ℕ → ℕ)
    → vendor_intel m ≡ false
    → temperatura (record m { rdmsr = msr }) ≡ temperatura m
unfolding temperatura vendor_intel temperatura_amd temp_pci_nb_f3 vendor_amd cpu_family cpu_model
temperatura-msr m msr h = rw h refl

amd_route :
    (m : Machine) → vendor_intel m ≡ false → vendor_amd m ≡ true → temperatura m ≡ temperatura_amd m
unfolding temperatura
amd_route m i a = rw (i, a) refl

amd_zen :
    (m : Machine)
    → 0x17 ≤ cpu_family m
    → ((temperatura_amd m).rotta ≡ rotta_smn_zen)
      × ((temperatura_amd m).temp ≡ tctl_da_raw (m.smn zen_temp))
unfolding temperatura_amd
amd_zen m h = (ground arith, ground arith)

amd_f15 :
    (m : Machine)
    → cpu_family m ≡ 0x15
    → 0x60 ≤ cpu_model m % 256
    → cpu_model m % 256 < 0x80
    → ((temperatura_amd m).rotta ≡ rotta_smn_f15h_m60)
      × ((temperatura_amd m).temp ≡ tctl_da_raw (m.smn f15h_m60_temp))
unfolding temperatura_amd
amd_f15 m h l u = (ground arith, ground arith)

amd_nb :
    (m : Machine)
    → cpu_family m < 0x17
    → (cpu_family m ≡ 0x15 → cpu_model m % 256 < 0x60)
    → ((temperatura_amd m).rotta ≡ rotta_pci_f3_a4)
      × ((temperatura_amd m).temp ≡ tctl_da_raw (temp_pci_nb_f3 m).0)
unfolding temperatura_amd
amd_nb m h n = (ground arith, ground arith)

-- An AMD processor of a family from 17h on is read through the SMN at the address of Zen; one of
-- family 15h and a model in 60h-7Fh at its own SMN address; any other below 17h through the
-- configuration space of the northbridge. The temperature is the decoded register that was read.
pub temperatura-rotta :
    (m : Machine)
    → vendor_intel m ≡ false
    → vendor_amd m ≡ true
    → (0x17 ≤ cpu_family m
        → ((temperatura m).rotta ≡ rotta_smn_zen)
          × ((temperatura m).temp ≡ tctl_da_raw (m.smn zen_temp)))
      × (cpu_family m ≡ 0x15
          → 0x60 ≤ cpu_model m % 256
          → cpu_model m % 256 < 0x80
          → ((temperatura m).rotta ≡ rotta_smn_f15h_m60)
            × ((temperatura m).temp ≡ tctl_da_raw (m.smn f15h_m60_temp)))
      × (cpu_family m < 0x17
          → (cpu_family m ≡ 0x15 → cpu_model m % 256 < 0x60)
          → ((temperatura m).rotta ≡ rotta_pci_f3_a4)
            × ((temperatura m).temp ≡ tctl_da_raw (temp_pci_nb_f3 m).0))
temperatura-rotta m i a = rw (amd_route m i a) (amd_zen m, amd_f15 m, amd_nb m)
