-- ===== src/Intero/Decode.antt =====
-- The decoded temperatures are plausible.
use nova_exo.Base.{ℕ, ◌/◌, ◌^◌, ◌<◌, ◌≡◌, ◌&&◌, none, some, ltb, leb, if◌then◌else◌, arith}
use nova_exo.Base.Int.{pos}
use nova_exo.Intero.{tctl_da_raw}

-- The AMD register gives a temperature just if its top 11 bits are between 1 and 1200 eighths of a
-- degree, and it is those bits.
pub tctl_da_raw_lem :
    (raw : ℕ)
    → raw < 2 ^ 32
    → tctl_da_raw raw ≡ (
        if ltb 0 (raw / 2 ^ 21) && leb (raw / 2 ^ 21) 1200 then some (pos (raw / 2 ^ 21)) else none)
unfolding tctl_da_raw
tctl_da_raw_lem raw h = ground arith
