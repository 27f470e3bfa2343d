-- ===== src/Cfc.antt =====
-- src/cfc.rs: what arrives from the senses, and the counter of ticks.
pub mod Withdraw
pub mod Ticks
pub mod Esperienze
pub mod Recent
pub mod Pattern
pub mod Recall
use nova_exo.Base.{
  ℕ, zero, suc, ◌+◌, ◌*◌, ◌/◌, ◌^◌, Bool, true, false, not, Option, none, some, List, [], ◌∷◌, ltb,
  leb, ◌==◌, if◌then◌else◌, u32, u64,
}

-- The cells of the senses. `counter` counts the events since the last withdrawal.
pub record Senses : Type 0 where
  pub pf_addr : ℕ
  pub pf_err : ℕ
  pub gp_err : ℕ
  pub key : ℕ
  pub counter : ℕ
  pub key_held : ℕ
  pub key_count : ℕ
  pub touchpad_attivo : Bool

abbrev pub at_rest : Senses
at_rest = record {
  pf_addr = 0;
  pf_err = 0;
  gp_err = 0;
  key = 0;
  counter = 0;
  key_held = 0;
  key_count = 0;
  touchpad_attivo = false;
}

pub record SenseEvent : Type 0 where
  pub pf_addr : ℕ
  pub pf_err : ℕ
  pub gp_err : ℕ
  pub key : ℕ

unfoldable pub sense_key : ℕ → Senses → Senses
sense_key sc s = record s { key = sc; counter = u64 (s.counter + 1) }

unfoldable pub key_press : ℕ → Senses → Senses
key_press sc s = record s { key_held = sc; key_count = u32 (s.key_count + 1) }

unfoldable pub key_release : Senses → Senses
key_release s = record s { key_held = 0 }

unfoldable pub sense_touchpad : Bool → Senses → Senses
sense_touchpad attivo s = record s { touchpad_attivo = attivo }

unfoldable pub sense_pf : ℕ → ℕ → Senses → Senses
sense_pf addr err s = record s { pf_addr = addr; pf_err = err; counter = u64 (s.counter + 1) }

unfoldable pub sense_gp : ℕ → Senses → Senses
sense_gp err s = record s { gp_err = err; counter = u64 (s.counter + 1) }

unfoldable pub take_sense : Senses → Senses × Option SenseEvent
take_sense s = if s.counter == 0 then (s, none) else (
  record s { counter = 0; key = 0 },
  some (record { pf_addr = s.pf_addr; pf_err = s.pf_err; gp_err = s.gp_err; key = s.key }),
)

-- Has the tick moved since the last look? With the value that is kept for the next look.
unfoldable pub tick_advanced : (tick last_tick : ℕ) → ℕ × Bool
tick_advanced tick last_tick = if not (tick == last_tick) then (tick, true) else (last_tick, false)

unfoldable pub tick_passed : (tick interval next : ℕ) → ℕ × Bool
tick_passed tick interval next =
    if interval == 0
    then (next, false)
    else if leb next tick
    then (u64 ((tick / interval + 1) * interval), true)
    else (next, false)
