-- ===== src/Hexutil/Parse.antt =====
-- The round trips of the parser and the printers of u64 values.
use nova_exo.Base.{
  ℕ, zero, suc, ◌+◌, ◌*◌, ◌/◌, ◌%◌, ◌^◌, ◌≤◌, ◌<◌, ◌≡◌, refl, sym, ◌∙◌, ap, Bool, true, false, some,
  List, [], ◌∷◌, append-nil, arith, ◌==◌, ◌||◌, Option-cases, ==_iff, Bool-cases,
}
use mathlib.Core.Logic.{inl, inr}
use native.Mathlib.Nat.{mod-eq_of_lt, mod-le}
use nova_exo.Hexutil.{
  is_space, digit, digits, hex_val, checked, parse_digits, parse_rest, skip_spaces, skip_prefix,
  parse_hex64, write_hex64_to, min_digits, write_hex_min,
}
use nova_exo.Hexutil.Digits.{parse_digits-digits, p16, p16_pos, p16-suc, mod-digit}

-- The sixteen digits of a u64, with no prefix and no space, are read whole.
digits_whole : (upper : Bool) (v : ℕ) → v < 2 ^ 64 → parse_digits 0 (digits upper v 16) ≡ some v
unfolding parse_digits
digits_whole upper v h =
    ap (parse_digits 0) (sym (append-nil (digits upper v 16)))
    ∙ (parse_digits-digits upper v 16 0 [] (omega (arith, mod-eq_of_lt h))
        ∙ ap some (omega (arith, mod-eq_of_lt h)))

-- A byte that is read as a digit is no space, and no letter of the prefix.
digit_plain :
    (b d : ℕ) → hex_val b ≡ some d → (is_space b ≡ false) × ((b == b'x' || b == b'X') ≡ false)
unfolding hex_val
digit_plain b d e = (ground arith, ground arith)

first_digit :
    (acc b v : ℕ) (bs : List ℕ)
    → parse_digits acc (b ∷ bs) ≡ some v
    → (d : ℕ) × (hex_val b ≡ some d)
unfolding parse_digits
first_digit acc b v bs e = elim (Option-cases (hex_val b)) [
  | inl n ↦ absurd (ground (arith, n, e))
  | inr p ↦ p
]

second_digit :
    (acc a b v : ℕ) (bs : List ℕ)
    → parse_digits acc (a ∷ b ∷ bs) ≡ some v
    → (d : ℕ) × (hex_val b ≡ some d)
unfolding parse_digits
second_digit acc a b v bs e = elim (Option-cases (hex_val b)) [
  | inl n ↦ absurd (ground (arith, n, e))
  | inr p ↦ p
]

skip_spaces_digit : (b d : ℕ) (bs : List ℕ) → hex_val b ≡ some d → skip_spaces (b ∷ bs) ≡ b ∷ bs
unfolding skip_spaces
skip_spaces_digit b d bs e = ground (arith, digit_plain b d e)

skip_prefix_digits :
    (b v : ℕ) (bs : List ℕ) → parse_digits 0 (b ∷ bs) ≡ some v → skip_prefix (b ∷ bs) ≡ b ∷ bs
unfolding skip_prefix
skip_prefix_digits b v [] e = refl
skip_prefix_digits b v (c ∷ bs) e =
    let (d, f) = second_digit 0 b c v bs e in ground (arith, digit_plain c d f)

-- A string of digits alone is read as its value.
plain : (b v : ℕ) (bs : List ℕ) → parse_digits 0 (b ∷ bs) ≡ some v → parse_hex64 (b ∷ bs) ≡ some v
unfolding parse_hex64 parse_rest
plain b v bs e =
    let (d, f) = first_digit 0 b v bs e in
    rw (skip_spaces_digit b d bs f, skip_prefix_digits b v bs e) e

-- For v < 2^64, the sixteen digits that `write_hex64_to` writes of v are read by `parse_hex64` as v.
pub parse_hex64-write_hex64_to : (v : ℕ) → v < 2 ^ 64 → parse_hex64 (write_hex64_to v) ≡ some v
unfolding write_hex64_to digits
parse_hex64-write_hex64_to v h = plain _ v _ (digits_whole true v h)

started_digits : (v k : ℕ) → min_digits true v k ≡ digits false v k
unfolding min_digits digits
started_digits v zero = refl
started_digits v (suc k) = ap (λ r. digit false v k ∷ r) (started_digits v k)

digits_value :
    (v k : ℕ) → v < 2 ^ 64 → v % p16 k ≤ v → parse_digits 0 (digits false v k) ≡ some (v % p16 k)
unfolding parse_digits
digits_value v k h le =
    ap (parse_digits 0) (sym (append-nil (digits false v k)))
    ∙ (parse_digits-digits false v k 0 [] (omega arith) ∙ ap some (omega arith))

zero_digit : (v k : ℕ) → v / p16 k % 16 ≡ 0 → v % p16 (suc k) ≡ v % p16 k
zero_digit v k e =
    ap (λ p. v % p) (p16-suc k)
    ∙ (mod-digit v (p16 k) (p16_pos k) ∙ (ap (λ d. d * p16 k + v % p16 k) e ∙ omega arith))

-- The zeros that are left out do not change the value.
min_value : (v k : ℕ) → v < 2 ^ 64 → parse_digits 0 (min_digits false v k) ≡ some (v % p16 k)
unfolding parse_digits min_digits digits
min_value v zero h = ap some (omega arith)
min_value v (suc k) h = elim (Bool-cases (v / p16 k % 16 == 0)) [
  | inl e ↦ simp (e) (min_value v k h ∙ ap some (sym (zero_digit v k ((==_iff _ _).0 e))))
  | inr e ↦ simp (e, started_digits v k) (digits_value v (suc k) h (mod-le v (p16 (suc k))))
]

min_shown :
    (v : ℕ) (ds : List ℕ)
    → parse_digits 0 ds ≡ some v
    → parse_hex64 (elim ds [ [] ↦ b'0' ∷ [] | d ∷ ds ↦ d ∷ ds ]) ≡ some v
unfolding parse_hex64 skip_spaces skip_prefix parse_rest parse_digits hex_val checked
min_shown v [] e = e
min_shown v (d ∷ ds) e = plain d v ds e

-- For v < 2^64, the digits that `write_hex_min` writes of v, without leading zeros, are read by
-- `parse_hex64` as v.
pub parse_hex64-write_hex_min : (v : ℕ) → v < 2 ^ 64 → parse_hex64 (write_hex_min v) ≡ some v
unfolding write_hex_min
parse_hex64-write_hex_min v h =
    min_shown v (min_digits false v 16) (min_value v 16 h ∙ ap some (mod-eq_of_lt h))
