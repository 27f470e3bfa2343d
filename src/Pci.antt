-- ===== src/Pci.antt =====
-- src/pci.rs: the configuration space through the ports 0xCF8 and 0xCFC, and the scans over it. What
-- the data port answers after an address is a parameter: a function from the address to a u32.
pub mod Address
pub mod Scan
pub mod Flat
pub mod Bars
use nova_exo.Base.{
  ℕ, zero, suc, ◌+◌, ◌-◌, ◌*◌, ◌/◌, ◌%◌, ◌^◌, Bool, true, false, ◌&&◌, Option, none, some, List, [],
  ◌∷◌, ◌++◌, ltb, ◌==◌, if◌then◌else◌, length, bit, or,
}

abbrev pub pci_config_addr : ℕ
pci_config_addr = 0xCF8

abbrev pub pci_config_data : ℕ
pci_config_data = 0xCFC

-- The operands of `|` have no bit in common for a u8 `bus`, a slot below 32 and a function below 8,
-- which is all that the scans use. `offset & 0xFC` drops the two low bits.
unfoldable pub config_address : ℕ → ℕ → ℕ → ℕ → ℕ
config_address bus slot func offset =
    2 ^ 31 + bus * 65536 + slot * 2048 + func * 256 + (offset - offset % 4)

-- The writes to ports, (port, value), in their order.
unfoldable pub pci_config_write : ℕ → ℕ → ℕ → ℕ → ℕ → List (ℕ × ℕ)
pci_config_write bus slot func offset val =
    (pci_config_addr, config_address bus slot func offset) ∷ (pci_config_data, val) ∷ []

-- A loop that ends at the first round with a result: `k` rounds from `i`.
unfoldable pub first_of {ℓ} : {A : Type ℓ} → (ℕ → Option A) → ℕ → ℕ → Option A
first_of f i zero = none
first_of f i (suc k) = or (f i) (first_of f (i + 1) k)

-- A loop that changes a state.
unfoldable pub loop {ℓ} : {S : Type ℓ} → (ℕ → S → S) → ℕ → ℕ → S → S
loop f i zero s = s
loop f i (suc k) s = loop f (i + 1) k (f i s)

-- `(x >> 16) & 0xFFFF` and the bytes of the class register.
abbrev pub high16 : ℕ → ℕ
high16 x = x / 65536 % 65536

abbrev pub class_byte : ℕ → ℕ
class_byte x = x / 16777216 % 256

abbrev pub subclass_byte : ℕ → ℕ
subclass_byte x = x / 65536 % 256

abbrev pub Place : Type 0
Place = ℕ × ℕ × ℕ

-- What `print_device` shows.
pub record Shown : Type 0 where
  pub slot : ℕ
  pub func : ℕ
  pub vendor : ℕ
  pub device : ℕ
  pub class : ℕ
  pub subclass : ℕ

-- `if n < out.len() { out[n] = …; n += 1 }`, where `found` is what is written of `out`.
abbrev pub add_found : ℕ → Option Place → List Place → List Place
add_found room none found = found
add_found room (some p) found = if ltb (length found) room then found ++ (p ∷ []) else found

module _ (data_port : ℕ → ℕ) where
  unfoldable pub pci_config_read : ℕ → ℕ → ℕ → ℕ → ℕ
  pci_config_read bus slot func offset = data_port (config_address bus slot func offset)

  -- `(vendor & 0xFFFF) == 0xFFFF`
  unfoldable pub absent : ℕ → ℕ → ℕ → Bool
  absent bus slot func = pci_config_read bus slot func 0 % 65536 == 0xFFFF

  unfoldable pub has_class : ℕ → ℕ → ℕ → ℕ → ℕ → Bool
  has_class class subclass bus slot func =
      let cl = pci_config_read bus slot func 8 in
      class_byte cl == class && subclass_byte cl == subclass

  -- One round of the scans of a class.
  unfoldable pub test_class : ℕ → ℕ → ℕ → ℕ → ℕ → Option Place
  test_class class subclass bus slot func =
      if absent bus slot func
      then none
      else if has_class class subclass bus slot func
      then some (bus, slot, func)
      else none

  unfoldable pub find_class : ℕ → ℕ → Option Place
  find_class class subclass =
      first_of
        (λ bus.
          first_of (λ slot. first_of (λ func. test_class class subclass bus slot func) 0 8) 0 32)
        0 8

  abbrev pub with_ids : Option Place → Option (Place × ℕ × ℕ)
  with_ids none = none
  with_ids (some (bus, slot, func)) =
      let vendor = pci_config_read bus slot func 0 in
      some ((bus, slot, func), vendor % 65536, high16 vendor)

  unfoldable pub find_network_device : Option (Place × ℕ × ℕ)
  find_network_device =
      first_of
        (λ bus.
          first_of (λ slot. first_of (λ func. with_ids (test_class 2 0 bus slot func)) 0 8) 0 32)
        0 8

  -- What is written of an `out` of `room` places; its length is returned.
  unfoldable pub find_class_all : ℕ → ℕ → ℕ → List Place
  find_class_all class subclass room =
      loop
        (λ bus.
          loop (λ slot. loop (λ func. add_found room (test_class class subclass bus slot func)) 0 8)
            0 32)
        0 8 []

  unfoldable pub test_ids : ℕ → ℕ → ℕ → ℕ → ℕ → Option Place
  test_ids vendor device bus slot func =
      let vd = pci_config_read bus slot func 0 in
      if vd % 65536 == vendor && high16 vd == device then some (bus, slot, func) else none

  unfoldable pub pci_find_device : ℕ → ℕ → Option Place
  pci_find_device vendor device =
      first_of
        (λ bus. first_of (λ slot. first_of (λ func. test_ids vendor device bus slot func) 0 8) 0 32)
        0 5

  -- `cmd | 0x7`
  unfoldable pub enable_bus_master : ℕ → ℕ → ℕ → List (ℕ × ℕ)
  enable_bus_master bus slot func =
      let cmd = pci_config_read bus slot func 0x04 in
      pci_config_write bus slot func 0x04 (cmd - cmd % 8 + 7)

  unfoldable pub read_bars : ℕ → ℕ → ℕ → ℕ × ℕ × ℕ
  read_bars bus slot func =
      let bar0 = pci_config_read bus slot func 0x10 in
      let bar_type = bar0 % 16 in
      let bar1 = pci_config_read bus slot func 0x14 in
      (
        bar0,
        bar_type,
        if bar_type / 2 % 4 == 2
            then bar0 - bar0 % 16 + bar1 * 2 ^ 32
            else if bar_type % 2 == 0
            then bar0 - bar0 % 16
            else bar0 - bar0 % 4,
      )

  -- The rounds of `enumerate` over the functions 1 to 7 of a slot, and over the slots.
  unfoldable pub show_func : ℕ → ℕ → List Shown → List Shown
  show_func slot func out =
      let fv = pci_config_read 0 slot func 0 in
      if fv % 65536 == 0xFFFF
      then out
      else out
        ++ (record {
          slot = slot;
          func = func;
          vendor = fv % 65536;
          device = high16 fv;
          class = class_byte fv;
          subclass = 0;
        }
            ∷ [])

  unfoldable pub show_slot : ℕ → List Shown → List Shown
  show_slot slot out =
      let vendor = pci_config_read 0 slot 0 0 in
      let class = pci_config_read 0 slot 0 8 in
      let header = pci_config_read 0 slot 0 0x0C in
      let shown =
        out
        ++ (record {
          slot = slot;
          func = 0;
          vendor = vendor % 65536;
          device = high16 vendor;
          class = class_byte class;
          subclass = subclass_byte class;
        }
            ∷ []) in
      if vendor % 65536 == 0xFFFF
      then out
      else if bit (header / 65536 % 256) 7
      then loop (show_func slot) 1 7 shown
      else shown

  unfoldable pub enumerate : List Shown
  enumerate = loop show_slot 0 32 []
