-- ===== src/Kbd.antt =====
-- src/kbd.rs: the keyboard behind the 8042 controller. The controller is a parameter: what the ports
-- answer and how it changes. A byte is a number below 256.
pub mod Buffer
pub mod Scancode
use nova_exo.Base.{
  ℕ, zero, suc, ◌+◌, ◌-◌, ◌*◌, ◌/◌, ◌%◌, Bool, true, false, not, ◌&&◌, ◌||◌, Option, none, some,
  List, [], ◌∷◌, leb, ◌==◌, if◌then◌else◌, bit, codes,
}
use nova_exo.Ps2.{Porta, tastiera, mouse, destinazione}

abbrev pub data_reg : ℕ
data_reg = 0x60

abbrev pub status_reg : ℕ
status_reg = 0x64

pub record I8042 : Type 1 where
  pub S : Type 0
  pub inb : ℕ → S → ℕ × S
  pub outb : ℕ → ℕ → S → S

-- `0xFA`, `0xAA` and `0xE0` are no keys.
abbrev pub no_key : ℕ → Bool
no_key b = b == 0xFA || b == 0xAA || b == 0xE0

unfoldable pub pressione : ℕ → Option ℕ
pressione sc = if not (bit sc 7) then some sc else none

unfoldable pub rilascio : ℕ → Option ℕ
rilascio sc = if bit sc 7 then some (sc % 128) else none

-- `b if b >= lo && b <= hi`
abbrev pub within : ℕ → ℕ → ℕ → Bool
within lo hi b = leb lo b && leb b hi

unfoldable pub nome : ℕ → List ℕ
nome sc =
    if sc == 0x01
    then codes "ESC"
    else if sc == 0x1C
    then codes "INVIO"
    else if sc == 0x39
    then codes "SPAZIO"
    else if sc == 0x0E
    then codes "BACKSPACE"
    else if sc == 0x2A || sc == 0x36
    then codes "MAIUSC"
    else if sc == 0x1D || sc == 0xE0
    then codes "CTRL"
    else if sc == 0x38
    then codes "ALT"
    else if sc == 0x0F
    then codes "TAB"
    else if within 0x02 0x0B sc
    then codes "1..0"
    else if within 0x10 0x19 sc
    then codes "QWERTY"
    else if within 0x1E 0x26 sc
    then codes "ASDF"
    else if within 0x2C 0x32 sc
    then codes "ZXCV"
    else codes "?"

-- `cfg |= 0x40; cfg &= !0x10; cfg &= !0x01`
abbrev pub with_bit : ℕ → ℕ → ℕ
with_bit w x = if x / w % 2 == 1 then x else x + w

abbrev pub without_bit : ℕ → ℕ → ℕ
without_bit w x = if x / w % 2 == 1 then x - w else x

unfoldable pub enabled_config : ℕ → ℕ
enabled_config cfg = without_bit 1 (without_bit 16 (with_bit 64 cfg))

module _ (hw : I8042) where
  open hw use {S, inb, outb}

  -- At most `k` rounds that read a byte while there is one.
  unfoldable pub drain : ℕ → S → S
  drain zero s = s
  drain (suc k) s =
      let (st, s1) = inb status_reg s in
      let rest = drain k (inb data_reg s1).1 in if bit st 0 then rest else s1

  unfoldable pub init : S → S
  init s = drain 32 s

  -- The `while` of `read`, with fuel for its rounds.
  unfoldable pub read_loop : ℕ → S → Option ℕ × S
  read_loop zero s = (none, s)
  read_loop (suc fuel) s =
      let (st, s1) = inb status_reg s in
      let (b, s2) = inb data_reg s1 in
      let rest = read_loop fuel s2 in
      if bit st 0 then if no_key b then rest else (some b, s2) else (none, s1)

  unfoldable pub read_source : S → Option (Bool × ℕ) × S
  read_source s =
      let (st, s1) = inb status_reg s in
      let (b, s2) = inb data_reg s1 in
      elim (destinazione st) [
        | none ↦ (none, s1)
        | some p ↦ (some (elim p [ mouse ↦ true | tastiera ↦ false ], b), s2)
      ]

  -- The loops that wait, with `k` rounds left: until bit 1 of the status is clear, or bit 0 is set.
  unfoldable pub wait_for : (ℕ → Bool) → ℕ → S → S
  wait_for stop zero s = s
  wait_for stop (suc k) s =
      let (st, s1) = inb status_reg s in
      let rest = wait_for stop k s1 in if stop st then s1 else rest

  unfoldable pub wait_in : S → S
  wait_in s = wait_for (λ st. not (bit st 1)) 100000 s

  -- `read_byte`: with no byte within `k` rounds, 0xFF.
  unfoldable pub read_byte : ℕ → S → ℕ × S
  read_byte zero s = (0xFF, s)
  read_byte (suc k) s =
      let (st, s1) = inb status_reg s in
      let rest = read_byte k s1 in if bit st 0 then inb data_reg s1 else rest

  unfoldable pub read_config : S → ℕ × S
  read_config s = read_byte 100000 (outb 0x64 0x20 (wait_in s))

  unfoldable pub enable : S → S
  enable s =
      let asked = outb 0x64 0x20 (wait_in (outb 0x64 0xAE (wait_in s))) in
      let (cfg, s1) = inb data_reg (wait_for (λ st. bit st 0) 100000 asked) in
      let written = outb data_reg (enabled_config cfg) (wait_in (outb 0x64 0x60 (wait_in s1))) in
      init (outb 0x64 0xAE (wait_in written))

  -- The four bytes of `KBD_ID`, with the state after.
  unfoldable pub identify_and_enable : S → List ℕ × S
  identify_and_enable s =
      let asked = outb data_reg 0xF2 (wait_in (drain 64 s)) in
      let (a, s1) = read_byte 500000 asked in
      let (b, s2) = read_byte 500000 s1 in
      let (c, s3) = read_byte 500000 s2 in
      let (d, s4) = read_byte 500000 s3 in (a ∷ b ∷ c ∷ d ∷ [], outb data_reg 0xF4 (wait_in s4))
