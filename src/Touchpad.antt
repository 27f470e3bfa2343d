-- ===== src/Touchpad.antt =====
-- src/touchpad.rs: the bytes of the touchpad, gathered into packets, with the last packet and the
-- count of the moves.
pub mod Init
pub mod Moves
use nova_exo.Base.{
  ℕ, ◌+◌, Bool, true, false, not, ◌||◌, Option, none, some, List, [], ◌∷◌, ◌==◌, if◌then◌else◌, u32,
}
use nova_exo.Base.Int.{ℤ, pos, negsuc}
use nova_exo.Ps2.{Assemblatore, Pacchetto, push_byte, new}

-- The static variables ASS, ULTIMO and MOSSE.
pub record Touchpad : Type 0 where
  pub ass : Assemblatore
  pub ultimo : Pacchetto
  pub mosse : ℕ

unfoldable pub start : Touchpad
start = record {
  ass = new;
  ultimo = record { dx = pos 0; dy = pos 0; bottoni = 0; overflow = false };
  mosse = 0;
}

abbrev pub is_zero : ℤ → Bool
is_zero (pos n) = n == 0
is_zero (negsuc n) = false

-- `p.dx != 0 || p.dy != 0`
abbrev pub moved : Pacchetto → Bool
moved p = not (is_zero p.dx) || not (is_zero p.dy)

unfoldable pub feed : Touchpad → ℕ → Touchpad × Option Pacchetto
feed t b =
    let (ass, r) = push_byte t.ass b in
    elim r [
      | none ↦ (record t { ass = ass }, none)
      | some p ↦ (
        record { ass = ass; ultimo = p; mosse = if moved p then u32 (t.mosse + 1) else t.mosse },
        some p,
      )
    ]

-- A sequence of bytes: the last state, and the packets in order.
unfoldable pub feed_all : Touchpad → List ℕ → Touchpad × List Pacchetto
feed_all t [] = (t, [])
feed_all t (b ∷ bs) =
    let (t', r) = feed t b in
    let (z, ps) = feed_all t' bs in (z, elim r [ none ↦ ps | some p ↦ p ∷ ps ])
