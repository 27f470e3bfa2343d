-- ===== src/Pain.antt =====
-- src/pain.rs: the commanded pain, an address and a number of ticks left.
pub mod Countdown
use nova_exo.Base.{ℕ, zero, suc, ◌-◌, Bool, true, false, ltb, ◌==◌, if◌then◌else◌}

pub record Pain : Type 0 where
  pub addr : ℕ
  pub tick : ℕ

unfoldable pub new : Pain
new = record { addr = 0; tick = 0 }

unfoldable pub arm : ℕ → ℕ → Pain → Pain
arm addr tick p = record { addr = addr; tick = tick }

unfoldable pub attivo : Pain → Bool
attivo p = ltb 0 p.tick

unfoldable pub spegni : Pain → Pain
spegni p = record { addr = 0; tick = 0 }

unfoldable pub scadi : Pain → Pain
scadi p =
    if ltb 0 p.tick
    then record { addr = if p.tick - 1 == 0 then 0 else p.addr; tick = p.tick - 1 }
    else p

-- `n` ticks of the main loop.
unfoldable pub scadi_n : ℕ → Pain → Pain
scadi_n zero p = p
scadi_n (suc n) p = scadi_n n (scadi p)
