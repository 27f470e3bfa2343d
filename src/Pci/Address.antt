-- ===== src/Pci/Address.antt =====
-- The addresses of registers.
use nova_exo.Base.{ℕ, ◌/◌, ◌^◌, ◌≤◌, ◌<◌, ◌≡◌, arith}
use nova_exo.Pci.{config_address}

-- Within the ranges of the scans, two registers with the same address have the same bus, slot and
-- function, and offsets in the same 32-bit word; and an address is a u32 with its bit 31 set.
pub config_address-injective :
    (b s f o b' s' f' o' : ℕ)
    → b < 256
    → s < 32
    → f < 8
    → o < 256
    → b' < 256
    → s' < 32
    → f' < 8
    → o' < 256
    → config_address b s f o ≡ config_address b' s' f' o'
    → (b ≡ b')
      × (s ≡ s')
      × (f ≡ f')
      × (o / 4 ≡ o' / 4)
      × (2 ^ 31 ≤ config_address b s f o)
      × (config_address b s f o < 2 ^ 32)
unfolding config_address
config_address-injective b s f o b' s' f' o' hb hs hf ho hb' hs' hf' ho' e =
    (omega arith, omega arith, omega arith, omega arith, omega arith, omega arith)
