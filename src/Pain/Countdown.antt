-- ===== src/Pain/Countdown.antt =====
-- How long an armed pain lasts.
use nova_exo.Base.{ℕ, zero, suc, ◌-◌, ◌<◌, ◌≡◌, refl, ◌∙◌, ap, ltb, if◌then◌else◌, arith}
use nova_exo.Pain.{Pain, new, arm, attivo, scadi, scadi_n}

scadi_last : (a : ℕ) → scadi (record { addr = a; tick = 1 }) ≡ new
unfolding scadi new
scadi_last a = refl

scadi_more :
    (a t : ℕ) → 0 < t → scadi (record { addr = a; tick = suc t }) ≡ record { addr = a; tick = t }
unfolding scadi
scadi_more a t h = ground (arith)

scadi_n-new : (n : ℕ) → scadi_n n new ≡ new
unfolding scadi_n scadi new
scadi_n-new zero = refl
scadi_n-new (suc n) = scadi_n-new n

-- Armed for t > 0 ticks, the pain keeps its address with one tick fewer for each that passes, as long
-- as fewer than t have passed; from then on it is the state with no pain.
pub scadi_n-arm :
    (n a t : ℕ) (p : Pain)
    → 0 < t
    → scadi_n n (arm a t p) ≡ (if ltb n t then record { addr = a; tick = t - n } else new)
unfolding scadi_n arm
scadi_n-arm n a zero p h = elim h [ ]
scadi_n-arm zero a (suc t) p h = ground arith
scadi_n-arm (suc n) a (suc zero) p h =
    ap (scadi_n n) (scadi_last a) ∙ (scadi_n-new n ∙ ground arith)
scadi_n-arm (suc n) a (suc (suc t)) p h =
    ap (scadi_n n) (scadi_more a (suc t) (omega arith))
    ∙ (scadi_n-arm n a (suc t) p (omega arith) ∙ ground arith)

spent : (n a : ℕ) → scadi_n n (record { addr = a; tick = 0 }) ≡ record { addr = a; tick = 0 }
unfolding scadi_n scadi
spent zero a = refl
spent (suc n) a = spent n a

attivo-if :
    (n a t : ℕ) → attivo (if ltb n t then record { addr = a; tick = t - n } else new) ≡ ltb n t
unfolding attivo new
attivo-if n a t = ground arith

-- Whatever it was before, a pain armed for t ticks is active after n ticks just if n < t: with t = 0
-- it is never active.
pub attivo-arm : (n a t : ℕ) (p : Pain) → attivo (scadi_n n (arm a t p)) ≡ ltb n t
unfolding arm attivo
attivo-arm n a zero p = ap attivo (spent n a) ∙ ground arith
attivo-arm n a (suc t) p =
    ap attivo (scadi_n-arm n a (suc t) p (omega arith)) ∙ attivo-if n a (suc t)
