-- ===== src/Intero.antt =====
-- src/intero.rs: the sense of the body's own temperature. A temperature is an integer of eighths of a
-- degree, which f32 holds exactly here. What CPUID, the MSRs and the configuration space answer are
-- parameters.
pub mod Decode
pub mod Route
use nova_exo.Base.{
  ℕ, ◌+◌, ◌-◌, ◌*◌, ◌/◌, ◌%◌, ◌^◌, Bool, true, false, not, ◌&&◌, ◌||◌, Option, none, some, ltb, leb,
  ◌==◌, if◌then◌else◌, bit, low_bits, or,
}
use nova_exo.Base.Int.{ℤ, sub_ℕ, pos}
use nova_exo.Pci.{Place, pci_config_read, pci_find_device}

unfoldable pub family_from_eax : ℕ → ℕ
family_from_eax eax =
    let base = eax / 2 ^ 8 % 16 in if base == 0xF then base + eax / 2 ^ 20 % 256 else base

-- `(ext << 4) | base`, with base below 16.
unfoldable pub model_from_eax : ℕ → ℕ
model_from_eax eax = eax / 2 ^ 16 % 16 * 16 + eax / 2 ^ 4 % 16

unfoldable pub temperatura_da : ℕ → ℕ → Option ℤ
temperatura_da tjmax status =
    let tj = tjmax / 2 ^ 16 % 256 in
    if status == 0 || status == 2 ^ 64 - 1
    then none
    else if not (bit status 31)
    then none
    else if leb tj 0
    then none
    else some (sub_ℕ (8 * tj) (8 * (status / 2 ^ 16 % 128)))

unfoldable pub tctl_da_raw : ℕ → Option ℤ
tctl_da_raw raw =
    let t = raw / 2 ^ 21 in
    if raw == 0 || raw == 2 ^ 32 - 1
    then none
    else if leb t 0 || ltb (150 * 8) t
    then none
    else some (pos t)

pub record CpuId : Type 0 where
  pub eax : ℕ
  pub ebx : ℕ
  pub ecx : ℕ
  pub edx : ℕ

-- `smn` is what the data register 0xBC answers after an address is written to the index 0xB8.
pub record Machine : Type 0 where
  pub cpuid : ℕ → CpuId
  pub rdmsr : ℕ → ℕ
  pub config : ℕ → ℕ
  pub smn : ℕ → ℕ

unfoldable pub vendor_intel : Machine → Bool
vendor_intel m =
    let c = m.cpuid 0 in c.ebx == 0x756e_6547 && c.edx == 0x4965_6e69 && c.ecx == 0x6c65_746e

unfoldable pub vendor_amd : Machine → Bool
vendor_amd m =
    let c = m.cpuid 0 in c.ebx == 0x6874_7541 && c.edx == 0x6974_6e65 && c.ecx == 0x444d_4163

unfoldable pub cpu_family : Machine → ℕ
cpu_family m = family_from_eax (m.cpuid 1).eax

unfoldable pub cpu_model : Machine → ℕ
cpu_model m = model_from_eax (m.cpuid 1).eax

abbrev pub zen_temp : ℕ
zen_temp = 0x0005_9800

abbrev pub f15h_m60_temp : ℕ
f15h_m60_temp = 0xd820_0ca4

abbrev pub read_at : Machine → ℕ → Option Place → Option (ℕ × ℕ)
read_at m did none = none
read_at m did (some (b, s, f)) = some (pci_config_read m.config b s f 0xA4, did)

abbrev pub or_else : Option (ℕ × ℕ) → ℕ × ℕ
or_else none = (0, 0)
or_else (some r) = r

-- One round of the loop.
abbrev pub try_id : Machine → ℕ → Option (ℕ × ℕ)
try_id m did = read_at m did (pci_find_device m.config 0x1022 did)

-- The loop over the three device ids, with the most specific first.
unfoldable pub temp_pci_nb_f3 : Machine → ℕ × ℕ
temp_pci_nb_f3 m = or_else (or (try_id m 0x1583) (or (try_id m 0x1533) (try_id m 0x141d)))

-- The routes: ROTTA_NESSUNA, ROTTA_PCI_F3_A4, ROTTA_SMN_F15H_M60, ROTTA_SMN_ZEN; the ways: VIA_NESSUNA, VIA_INTEL,
-- VIA_AMD.
pub data Rotta : Type 0 where
  rotta_nessuna rotta_pci_f3_a4 rotta_smn_f15h_m60 rotta_smn_zen : Rotta

pub data Via : Type 0 where
  via_nessuna via_intel via_amd : Via

pub record Diagnostica : Type 0 where
  pub via : Via
  pub rotta : Rotta
  pub raw : ℕ
  pub cand : ℕ
  pub nb : ℕ
  pub temp : Option ℤ

-- `(model & 0xF0) == n`
abbrev pub model_group : ℕ → ℕ → Bool
model_group model n = model / 16 % 16 * 16 == n

unfoldable pub temperatura_amd : Machine → Diagnostica
temperatura_amd m =
    let fam = cpu_family m in
    let model = cpu_model m in
    let f15 = m.smn f15h_m60_temp in
    let zen = m.smn zen_temp in
    let (raw, nb) = temp_pci_nb_f3 m in
    if fam == 0x15 && (model_group model 0x60 || model_group model 0x70)
    then record {
      via = via_amd;
      rotta = rotta_smn_f15h_m60;
      raw = f15;
      cand = 0;
      nb = 0;
      temp = tctl_da_raw f15;
    }
    else if leb 0x17 fam
    then record {
      via = via_amd;
      rotta = rotta_smn_zen;
      raw = zen;
      cand = 0;
      nb = 0;
      temp = tctl_da_raw zen;
    }
    else record {
      via = via_amd;
      rotta = rotta_pci_f3_a4;
      raw = raw;
      cand = zen;
      nb = nb;
      temp = tctl_da_raw raw;
    }

-- The new value of DIAG, whose `temp` is returned.
unfoldable pub temperatura : Machine → Diagnostica
temperatura m =
    if vendor_intel m
    then record {
      via = via_intel;
      rotta = rotta_nessuna;
      raw = 0;
      cand = 0;
      nb = 0;
      temp = temperatura_da (m.rdmsr 0x1A2) (m.rdmsr 0x19C);
    }
    else if vendor_amd m
    then temperatura_amd m
    else record { via = via_nessuna; rotta = rotta_nessuna; raw = 0; cand = 0; nb = 0; temp = none }
