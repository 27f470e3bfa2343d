-- ===== src/Hexutil/Digits.antt =====
-- Reading back the digits of a number.
use nova_exo.Base.{
  ℕ, zero, suc, ◌+◌, ◌-◌, ◌*◌, ◌/◌, ◌%◌, ◌^◌, ◌≤◌, ◌<◌, ◌≡◌, refl, sym, ◌∙◌, ap, Bool, true, false,
  Option, none, some, List, ◌∷◌, ◌++◌, arith, ◌==◌, get_or, holds_below, holds_below_at, ==_iff,
}
use native.Mathlib.Nat.{div-div-eq-div-mul, div-add-mod', mod-eq-sub-div-mul, pow-suc, mod-lt}
use nova_exo.Hexutil.{cifre, digit, digits, hex_val, checked, parse_digits}

abbrev value_or : Option ℕ → ℕ
value_or none = 999
value_or (some v) = v

hex_val_table :
    (upper : Bool) → holds_below (λ d. value_or (hex_val (get_or (cifre upper) d 0)) == d) 16 ≡ true
unfolding holds_below hex_val
hex_val_table true = refl
hex_val_table false = refl

some_of_value : (o : Option ℕ) (d : ℕ) → d < 16 → value_or o ≡ d → o ≡ some d
some_of_value none d h e = absurd (omega arith)
some_of_value (some v) d h e = ap some e

-- Each digit of either alphabet is read as its value.
pub hex_val-cifre : (upper : Bool) (d : ℕ) → d < 16 → hex_val (get_or (cifre upper) d 0) ≡ some d
hex_val-cifre upper d h =
    some_of_value _ d h ((==_iff _ d).0 (holds_below_at _ 16 d h (hex_val_table upper)))

abbrev pub p16 : ℕ → ℕ
p16 k = 2 ^ (4 * k)

pow_four : (n : ℕ) → 2 ^ suc (suc (suc (suc n))) ≡ 2 ^ n * 16
pow_four n =
    omega (
      arith,
      pow-suc 2 n,
      pow-suc 2 (suc n),
      pow-suc 2 (suc (suc n)),
      pow-suc 2 (suc (suc (suc n))),
    )

pub p16-suc : (k : ℕ) → p16 (suc k) ≡ p16 k * 16
p16-suc k = ap (λ e. 2 ^ e) (omega arith) ∙ pow_four (4 * k)

pub p16_pos : (k : ℕ) → 0 < p16 k
p16_pos zero = omega arith
p16_pos (suc k) = omega (arith, p16-suc k, p16_pos k)

split_digit : (v p q r a b : ℕ) → q * p + r ≡ v → b * 16 + a ≡ q → v - b * (p * 16) ≡ a * p + r
split_digit v p q r a b e f = omega (arith, ap (λ x. x * p) f)

-- The digit at place `k` and the places below it: with v = p * q + r and q = 16 * a + b.
pub mod-digit : (v p : ℕ) → 0 < p → v % (p * 16) ≡ v / p % 16 * p + v % p
mod-digit v p h =
    mod-eq-sub-div-mul v (p * 16)
    ∙ (ap (λ b. v - b * (p * 16)) (sym (div-div-eq-div-mul v p 16))
        ∙ split_digit v p (v / p) (v % p) _ _ (div-add-mod' v p) (div-add-mod' (v / p) 16))

checked-small : (acc d : ℕ) → acc * 16 + d < 2 ^ 64 → checked acc d ≡ some (acc * 16 + d)
unfolding checked
checked-small acc d h = ground arith

parse_cons :
    (acc b d : ℕ) (rest : List ℕ)
    → hex_val b ≡ some d
    → acc * 16 + d < 2 ^ 64
    → parse_digits acc (b ∷ rest) ≡ parse_digits (acc * 16 + d) rest
unfolding parse_digits
parse_cons acc b d rest e h = ground (arith, e, checked-small acc d h)

parse_step :
    (upper : Bool) (v k acc : ℕ) (rest : List ℕ)
    → acc * 16 + v / p16 k % 16 < 2 ^ 64
    → parse_digits acc (digit upper v k ∷ rest) ≡ parse_digits (acc * 16 + v / p16 k % 16) rest
unfolding digit
parse_step upper v k acc rest h =
    parse_cons acc _ _ rest
      (hex_val-cifre upper (v / p16 k % 16) (mod-lt (v / p16 k) (omega arith))) h

-- The accumulator after the digit at place `k`.
sum_step :
    (v k acc : ℕ)
    → (acc * 16 + v / p16 k % 16) * p16 k + v % p16 k ≡ acc * p16 (suc k) + v % p16 (suc k)
sum_step v k acc = rw (p16-suc k) (omega (arith, mod-digit v (p16 k) (p16_pos k)))

le_times : (a p : ℕ) → 0 < p → a ≤ a * p
le_times a zero h = elim h [ ]
le_times a (suc p) h = omega arith

-- Digits are read as the value they write, on top of what was read before.
pub parse_digits-digits :
    (upper : Bool) (v k acc : ℕ) (rest : List ℕ)
    → acc * p16 k + v % p16 k < 2 ^ 64
    → parse_digits acc (digits upper v k ++ rest) ≡ parse_digits (acc * p16 k + v % p16 k) rest
unfolding digits
parse_digits-digits upper v zero acc rest h = ap (λ a. parse_digits a rest) (omega arith)
parse_digits-digits upper v (suc k) acc rest h =
    parse_step upper v k acc (digits upper v k ++ rest)
      (omega (arith, sum_step v k acc, le_times (acc * 16 + v / p16 k % 16) (p16 k) (p16_pos k)))
    ∙ (parse_digits-digits upper v k (acc * 16 + v / p16 k % 16) rest
          (omega (arith, sum_step v k acc))
        ∙ ap (λ a. parse_digits a rest) (sum_step v k acc))
