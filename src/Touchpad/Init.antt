-- ===== src/Touchpad/Init.antt =====
-- src/touchpad.rs: the touchpad is found, woken and tried, over the 8042 controller.
use nova_exo.Base.{ℕ, zero, suc, Bool, false, not, ◌&&◌, ◌==◌, if◌then◌else◌, bit}
use nova_exo.Kbd.{I8042, data_reg, status_reg, without_bit, wait_for, drain}

-- The static variables PRESENTE, ID and PROBE; the first byte of the last is never written.
pub record Trial : Type 0 where
  pub presente : Bool
  pub id : ℕ
  pub selftest : ℕ
  pub id_reset : ℕ
  pub probe_id : ℕ

abbrev pub untried : Trial
untried = record { presente = false; id = 0xFF; selftest = 0xFF; id_reset = 0xFF; probe_id = 0xFF }

module _ (hw : I8042) where
  open hw use {S, inb, outb}

  unfoldable pub wait_in : S → S
  wait_in s = wait_for hw (λ st. not (bit st 1)) 100000 s

  unfoldable pub read_byte : ℕ → S → ℕ × S
  read_byte zero s = (0xFF, s)
  read_byte (suc k) s =
      let (st, s1) = inb status_reg s in
      let rest = read_byte k s1 in if bit st 0 then inb data_reg s1 else rest

  abbrev pub command : ℕ → S → S
  command b s = outb status_reg b (wait_in s)

  abbrev pub put_byte : ℕ → S → S
  put_byte b s = outb data_reg b (wait_in s)

  unfoldable pub mouse_cmd : ℕ → S → Bool × S
  mouse_cmd b s = let (r, s1) = read_byte 1000000 (put_byte b (command 0xD4 s)) in (r == 0xFA, s1)

  -- The steps before the reset: the port and the clock of the mouse are enabled, and what is left is
  -- read.
  unfoldable pub open_port : S → S
  open_port s =
      let (cfg, s1) = read_byte 500000 (command 0x20 (command 0xA8 s)) in
      drain hw 32 (put_byte (without_bit 32 cfg) (command 0x60 s1))

  unfoldable pub init : S → Trial → Trial × Bool × S
  unfolding open_port mouse_cmd
  init s t =
      let (reset, s1) = mouse_cmd 0xFF (open_port s) in
      let (selftest, s2) = read_byte 1000000 s1 in
      let (id_reset, s3) = read_byte 1000000 s2 in
      let (asked, s4) = mouse_cmd 0xF2 s3 in
      let (answer, s5) = read_byte 1000000 s4 in
      let id = if asked then answer else 0xFF in
      let (ok, s6) = mouse_cmd 0xF4 (if asked then s5 else s4) in
      let presente = selftest == 0xAA in
      if reset
      then (
        record {
          presente = presente;
          id = id;
          selftest = selftest;
          id_reset = id_reset;
          probe_id = id;
        },
        presente && ok,
        s6,
      )
      else (t, false, s1)
