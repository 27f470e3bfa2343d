-- ===== src/Base/Int.antt =====
-- Signed integers over the native numbers: `negsuc n` is -(n + 1).
use Prim.Native.Nat.{ℕ, zero, suc, ◌+◌, ◌-◌, ◌*◌}
use mathlib.Core.Path.{◌≡◌, refl}
use mathlib.Core.Bool.{Bool, true, false}
use native.Mathlib.Omega.{arith}
use nova_exo.Base.Tests.{leb, ltb, if◌then◌else◌}

pub data ℤ : Type 0 where
  pos : ℕ → ℤ
  negsuc : ℕ → ℤ

-- a - b, as an integer.
abbrev pub sub_ℕ : ℕ → ℕ → ℤ
sub_ℕ a b = if leb b a then pos (a - b) else negsuc (b - a - 1)

abbrev pub add_ℤ : ℤ → ℤ → ℤ
add_ℤ (pos a) (pos b) = pos (a + b)
add_ℤ (pos a) (negsuc b) = sub_ℕ a (suc b)
add_ℤ (negsuc a) (pos b) = sub_ℕ b (suc a)
add_ℤ (negsuc a) (negsuc b) = negsuc (suc (a + b))

abbrev pub neg_of : ℕ → ℤ
neg_of zero = pos 0
neg_of (suc n) = negsuc n

abbrev pub mul_ℤ : ℤ → ℤ → ℤ
mul_ℤ (pos a) (pos b) = pos (a * b)
mul_ℤ (pos a) (negsuc b) = neg_of (a * suc b)
mul_ℤ (negsuc a) (pos b) = neg_of (suc a * b)
mul_ℤ (negsuc a) (negsuc b) = pos (suc a * suc b)

-- a < b
abbrev pub lt_ℤ : ℤ → ℤ → Bool
lt_ℤ (pos a) (pos b) = ltb a b
lt_ℤ (pos a) (negsuc b) = false
lt_ℤ (negsuc a) (pos b) = true
lt_ℤ (negsuc a) (negsuc b) = ltb b a

pub lt_ℤ-trans : (a b c : ℤ) → lt_ℤ a b ≡ true → lt_ℤ b c ≡ true → lt_ℤ a c ≡ true
lt_ℤ-trans (pos a) (pos b) (pos c) h k = ground arith
lt_ℤ-trans (pos a) (pos b) (negsuc c) h k = k
lt_ℤ-trans (pos a) (negsuc b) c h k = absurd (cc)
lt_ℤ-trans (negsuc a) (pos b) (pos c) h k = refl
lt_ℤ-trans (negsuc a) (pos b) (negsuc c) h k = absurd (cc)
lt_ℤ-trans (negsuc a) (negsuc b) (pos c) h k = refl
lt_ℤ-trans (negsuc a) (negsuc b) (negsuc c) h k = ground arith

pub lt_ℤ-irrefl : (a : ℤ) → lt_ℤ a a ≡ false
lt_ℤ-irrefl (pos a) = ground arith
lt_ℤ-irrefl (negsuc a) = ground arith
