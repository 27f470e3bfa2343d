-- ===== src/Hexutil/Value.antt =====
-- The digits read against their value as a number of any size.
use nova_exo.Base.{
  ℕ, ◌+◌, ◌*◌, ◌^◌, ◌≤◌, ◌<◌, ◌≡◌, Option, none, some, List, [], ◌∷◌, arith, ltb, if◌then◌else◌,
  Option-cases, Bool-cases, ltb→lt, ltb→le,
}
use mathlib.Core.Logic.{inl, inr}
use nova_exo.Hexutil.{hex_val, checked, parse_digits}

-- The value of the digits, with no bound, or none where a byte is no digit.
unfoldable pub hex_value : ℕ → List ℕ → Option ℕ
hex_value acc [] = some acc
hex_value acc (b ∷ bs) = elim (hex_val b) [ none ↦ none | some d ↦ hex_value (acc * 16 + d) bs ]

-- A value that fits in 64 bits.
abbrev pub fits : Option ℕ → Option ℕ
fits none = none
fits (some v) = if ltb v (2 ^ 64) then some v else none

-- A value that is too large does not get smaller.
too_large : (acc : ℕ) (bs : List ℕ) → 2 ^ 64 ≤ acc → fits (hex_value acc bs) ≡ none
unfolding hex_value
too_large acc [] h = ground arith
too_large acc (b ∷ bs) h = elim (Option-cases (hex_val b)) [
  | inl e ↦ ground (arith, e)
  | inr (d, e) ↦ ground (arith, e, too_large (acc * 16 + d) bs (omega arith))
]

checked_large : (acc d : ℕ) → 2 ^ 64 ≤ acc * 16 + d → checked acc d ≡ none
unfolding checked
checked_large acc d h = ground arith

checked_fits : (acc d : ℕ) → acc * 16 + d < 2 ^ 64 → checked acc d ≡ some (acc * 16 + d)
unfolding checked
checked_fits acc d h = ground arith

-- The loop over the digits, from a value that fits in 64 bits, returns their value as a number of
-- any size where every byte is a digit and the value fits in 64 bits, and none otherwise.
pub parse_digits_lem :
    (acc : ℕ) (bs : List ℕ) → acc < 2 ^ 64 → parse_digits acc bs ≡ fits (hex_value acc bs)
unfolding parse_digits hex_value
parse_digits_lem acc [] h = ground arith
parse_digits_lem acc (b ∷ bs) h = elim (Option-cases (hex_val b)) [
  | inl e ↦ ground (arith, e)
  | inr (d, e) ↦ elim (Bool-cases (ltb (acc * 16 + d) (2 ^ 64))) [
    | inl l ↦ ground (
      arith,
      e,
      checked_fits acc d (ltb→lt _ _ l),
      parse_digits_lem (acc * 16 + d) bs (ltb→lt _ _ l),
    )
    | inr g ↦
        ground
          (arith, e, checked_large acc d (ltb→le _ _ g), too_large (acc * 16 + d) bs (ltb→le _ _ g))
  ]
]
