-- ===== src/Rx/Payload.antt =====
-- src/rx.rs: where the payload of a packet starts, and its bytes.
use nova_exo.Base.{
  from_be, ℕ, zero, suc, ◌+◌, ◌≤◌, ◌<◌, ◌≡◌, refl, Bool, true, false, ◌&&◌, Option, none, some,
  List, [], ◌∷◌, Bool-cases, inl, inr, arith, ltb, ◌==◌, if◌then◌else◌, length, get_or, take,
}
use mathlib.Core.Logic.{◌⊎◌}
use nova_exo.Base.Int.{pos}
use nova_exo.Fp.{Fp}
use nova_exo.Rx.{payload_base}

-- The packet is IPv4 and UDP: 08 00 at byte 12, and 17 at byte 23.
unfoldable pub IsUdp : List ℕ → Type 0
IsUdp src = (get_or src 12 0 ≡ 8) × (get_or src 13 0 ≡ 0) × (get_or src 23 0 ≡ 17)

-- The payload of a packet starts at byte 42 if it is IPv4 and UDP, at byte 14 if not; the byte 13 is
-- below 256.
unfoldable pub Starts : List ℕ → ℕ → Type 0
Starts src off = (IsUdp src × (off ≡ 42)) ⊎ (¬ IsUdp src × (get_or src 13 0 < 256) × (off ≡ 14))

unfoldable pub byte_at : List ℕ → ℕ → Option ℕ
byte_at [] i = none
byte_at (b ∷ bs) zero = some b
byte_at (b ∷ bs) (suc i) = byte_at bs i

pub byte_at-take :
    (n : ℕ) (src : List ℕ) (i : ℕ)
    → n ≤ length src
    → byte_at (take n src) i ≡ (if ltb i n then some (get_or src i 0) else none)
unfolding byte_at
byte_at-take zero src i h = ground arith
byte_at-take (suc n) [] i h = absurd (omega arith)
byte_at-take (suc n) (b ∷ bs) zero h = ground arith
byte_at-take (suc n) (b ∷ bs) (suc i) h = ground (arith, byte_at-take n bs i)

-- A byte over 255, and 0.0 for none.
unfoldable pub normalised : (fp : Fp) → Option ℕ → fp.F
normalised fp none = fp.lit 0 0
normalised fp (some b) = fp.div (fp.of_int (pos b)) (fp.lit 255 0)

unfoldable pub or_zero : Option ℕ → ℕ
or_zero none = 0
or_zero (some b) = b

unfoldable pub four {ℓ} : {A : Type ℓ} → ℕ → (ℕ → A) → List A
four i f = f i ∷ f (i + 1) ∷ f (i + 2) ∷ f (i + 3) ∷ []

pub sig_cases : (c : Bool) (b : ℕ) → (if c then b else 0) ≡ or_zero (if c then some b else none)
unfolding or_zero
sig_cases true b = refl
sig_cases false b = refl

pub value_cases :
    (fp : Fp) (c : Bool) (b : ℕ)
    → (if c then fp.div (fp.of_int (pos b)) (fp.lit 255 0) else fp.lit 0 0)
      ≡ normalised fp (if c then some b else none)
unfolding normalised
value_cases fp true b = refl
value_cases fp false b = refl

udp_test :
    (a b c : ℕ) → (from_be a b == 0x0800 && c == 17) ≡ true → b < 256 → (a ≡ 8) × (b ≡ 0) × (c ≡ 17)
udp_test a b c e h = ground (arith, e, h)

pub Starts-small : (src : List ℕ) (off : ℕ) → Starts src off → off ≤ 42
unfolding Starts
Starts-small src off (inl (_, e)) = omega arith
Starts-small src off (inr (_, _, e)) = omega arith

pub four_cong {ℓ} :
    {A : Type ℓ} (i : ℕ) (f g : ℕ → A) → ((j : ℕ) → j < i + 4 → f j ≡ g j) → four i f ≡ four i g
unfolding four
four_cong i f g h =
    rw
      (h i (omega arith), h (i + 1) (omega arith), h (i + 2) (omega arith), h (i + 3) (omega arith))
      refl

pub other : (src : List ℕ) → ¬ IsUdp src → get_or src 13 0 < 256 → payload_base src ≡ 14
unfolding payload_base IsUdp
other src n h =
    elim (Bool-cases
      (from_be (get_or src 12 0) (get_or src 13 0) == 0x0800 && get_or src 23 0 == 17)) [
        | inl y ↦ absurd (n (udp_test (get_or src 12 0) (get_or src 13 0) (get_or src 23 0) y h))
        | inr z ↦ rw z refl
      ]
