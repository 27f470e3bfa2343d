-- ===== src/Pci/Bars.antt =====
-- The network device, the search by ids, and the base address of a device.
use nova_exo.Base.{
  ℕ, zero, suc, ◌+◌, ◌-◌, ◌*◌, ◌/◌, ◌%◌, ◌^◌, ◌≤◌, ◌<◌, ◌≡◌, ◌⊎◌, refl, sym, ◌∙◌, ap, ◌&&◌, Option,
  none, some, ◌==◌, if◌then◌else◌, arith, or, Bool-cases,
}
use mathlib.Core.Logic.{inl, inr}
use mathlib.Core.Option.{some-injective}
use nova_exo.Pci.{
  Place, first_of, high16, pci_config_read, with_ids, find_class, find_network_device, test_ids,
  pci_find_device, read_bars,
}

or_first : {A : Type 0} (o r : Option A) (a : A) → or o r ≡ some a → (o ≡ some a) ⊎ (r ≡ some a)
or_first none r a e = inr e
or_first (some b) r a e = inl e

-- A result of the loop is that of one of its rounds.
first_of-round :
    {A : Type 0} (f : ℕ → Option A) (i k : ℕ) (a : A)
    → first_of f i k ≡ some a
    → (j : ℕ) × (i ≤ j) × (j < i + k) × (f j ≡ some a)
unfolding first_of
first_of-round f i zero a e = absurd cc
first_of-round f i (suc k) a e = elim (or_first (f i) (first_of f (i + 1) k) a e) [
  | inl h ↦ (i, omega arith, omega arith, h)
  | inr h ↦ let (j, l, u, g) = first_of-round f (i + 1) k a h in (j, omega arith, omega arith, g)
]

-- The base address that the two registers make.
abbrev base_of : ℕ → ℕ → ℕ
base_of bar0 bar1 =
    if bar0 % 16 / 2 % 4 == 2
    then bar0 - bar0 % 16 + bar1 * 2 ^ 32
    else if bar0 % 16 % 2 == 0
    then bar0 - bar0 % 16
    else bar0 - bar0 % 4

base_facts :
    (bar0 bar1 : ℕ)
    → bar0 < 2 ^ 32
    → bar1 < 2 ^ 32
    → (base_of bar0 bar1 < 2 ^ 64)
      × (base_of bar0 bar1 % 4 ≡ 0)
      × (bar0 % 2 ≡ 0 → base_of bar0 bar1 % 16 ≡ 0)
base_facts bar0 bar1 h k = (ground arith, ground arith, λ z. ground arith)

module _ (data_port : ℕ → ℕ) where
  with_ids-or :
      (o r : Option Place)
      → with_ids data_port (or o r) ≡ or (with_ids data_port o) (with_ids data_port r)
  with_ids-or none r = refl
  with_ids-or (some p) r = refl

  first_of-with_ids :
      (f : ℕ → Option Place) (g : ℕ → Option (Place × ℕ × ℕ)) (i k : ℕ)
      → ((j : ℕ) → g j ≡ with_ids data_port (f j))
      → first_of g i k ≡ with_ids data_port (first_of f i k)
  unfolding first_of
  first_of-with_ids f g i zero h = refl
  first_of-with_ids f g i (suc k) h =
      rw (h i, first_of-with_ids f g (i + 1) k h) (sym (with_ids-or (f i) (first_of f (i + 1) k)))

  -- The network device is the first device of class 2 and subclass 0, with the two ids that its
  -- register 0 holds.
  pub find_network_device-find_class :
      find_network_device data_port ≡ with_ids data_port (find_class data_port 2 0)
  unfolding find_network_device find_class
  find_network_device-find_class =
      first_of-with_ids _ _ 0 8
        (λ bus. first_of-with_ids _ _ 0 32 (λ slot. first_of-with_ids _ _ 0 8 (λ func. refl)))

  ids_read :
      (vendor device bus slot func : ℕ) (p : Place)
      → test_ids data_port vendor device bus slot func ≡ some p
      → (p ≡ (bus, slot, func))
        × (pci_config_read data_port bus slot func 0 % 65536 ≡ vendor)
        × (high16 (pci_config_read data_port bus slot func 0) ≡ device)
  unfolding test_ids
  ids_read vendor device bus slot func p e =
      elim (Bool-cases (
        pci_config_read data_port bus slot func 0 % 65536 == vendor
        && high16 (pci_config_read data_port bus slot func 0) == device)) [
          | inl t ↦ (
            sym (
                some-injective _ _
                  (sym (ap (λ c. if c then some (bus, slot, func) else none) t) ∙ e)),
            ground (arith, t),
            ground (arith, t),
          )
          | inr f ↦ absurd (ground (arith, f, e))
        ]

  -- What `pci_find_device` finds is on the buses 0 to 4, and its register 0 holds the two ids.
  pub pci_find_device-ids :
      (vendor device : ℕ) (p : Place)
      → pci_find_device data_port vendor device ≡ some p
      → (p.0 < 5)
        × (p.1 < 32)
        × (p.2 < 8)
        × (pci_config_read data_port p.0 p.1 p.2 0 % 65536 ≡ vendor)
        × (high16 (pci_config_read data_port p.0 p.1 p.2 0) ≡ device)
  unfolding pci_find_device
  pci_find_device-ids vendor device p e =
      let (bus, _, hb, e1) = first_of-round _ 0 5 p e in
      let (slot, _, hs, e2) = first_of-round _ 0 32 p e1 in
      let (func, _, hf, e3) = first_of-round _ 0 8 p e2 in
      let (same, v, d) = ids_read vendor device bus slot func p e3 in
      rw same (omega arith, omega arith, omega arith, v, d)

  -- For registers that are u32, the base address is a u64 and a multiple of 4, and a multiple of 16
  -- for a memory BAR.
  pub read_bars-base :
      (bus slot func : ℕ)
      → ((a : ℕ) → data_port a < 2 ^ 32)
      → ((read_bars data_port bus slot func).2 < 2 ^ 64)
        × ((read_bars data_port bus slot func).2 % 4 ≡ 0)
        × ((read_bars data_port bus slot func).0 % 2 ≡ 0
            → (read_bars data_port bus slot func).2 % 16 ≡ 0)
  unfolding read_bars pci_config_read
  read_bars-base bus slot func h = base_facts _ _ (h _) (h _)
