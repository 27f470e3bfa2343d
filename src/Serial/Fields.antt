-- ===== src/Serial/Fields.antt =====
-- src/serial.rs: the four numbers of a line, against the split of the line at its commas.
use nova_exo.Base.{
  take-add, drop-drop, ap₂, ℕ, zero, suc, ◌+◌, ◌-◌, ◌≡◌, ◌≤◌, refl, ◌∙◌, ap, arith, Bool-cases,
  Option-cases, Option, none, some, List, [], ◌∷◌, ◌++◌, leb, ◌==◌, if◌then◌else◌, set, take, drop,
  slice, length, replicate,
}
use mathlib.Core.Logic.{inl, inr}
use nova_exo.Fp.{Fp}
use nova_exo.Serial.Number.{drop_more, number_of, parse_f32_lem}
use nova_exo.Serial.{LineReader, line, fields_from, parse_line}

-- The pieces of a text between its commas; `piece` is what stands before the first byte.
unfoldable pub split_commas : List ℕ → List ℕ → List (List ℕ)
split_commas piece [] = piece ∷ []
split_commas piece (b ∷ bs) =
    if b == b',' then piece ∷ split_commas [] bs else split_commas (piece ++ (b ∷ [])) bs

nothing : (bytes : List ℕ) (i : ℕ) → slice i (i - i) bytes ≡ []
nothing bytes i = let e : i - i ≡ 0 = omega arith in ap (λ k. take k (drop i bytes)) e

-- A piece grows by the byte at its end.
piece_grows :
    (bytes : List ℕ) (start i b : ℕ) (bs piece : List ℕ)
    → start ≤ i
    → drop i bytes ≡ b ∷ bs
    → slice start (i - start) bytes ≡ piece
    → slice start (i + 1 - start) bytes ≡ piece ++ (b ∷ [])
piece_grows bytes start i b bs piece l e p =
    let m : i + 1 - start ≡ i - start + 1 = omega arith in
    let n : start + (i - start) ≡ i = omega arith in
    ap (λ k. take k (drop start bytes)) m
    ∙ take-add (i - start) 1 (drop start bytes)
    ∙ ap₂ ◌++◌ p (ap (take 1) (drop-drop start (i - start) bytes ∙ ap (λ k. drop k bytes) n ∙ e))

module _ (fp : Fp) where
  open fp use {F, lit}

  -- Exactly four numbers, in the places from `idx`.
  unfoldable pub four_from : List (List ℕ) → ℕ → List F → Option (List F)
  four_from [] idx result = if idx == 4 then some result else none
  four_from (p ∷ ps) idx result = if leb 4 idx then none else elim (number_of fp p) [
    | none ↦ none
    | some v ↦ four_from ps (idx + 1) (set result idx v)
  ]

  fields_from_lem :
      (bytes bs : List ℕ) (k i idx start : ℕ) (piece : List ℕ) (result : List F)
      → drop i bytes ≡ bs
      → length bs ≡ k
      → start ≤ i
      → slice start (i - start) bytes ≡ piece
      → fields_from fp bytes k i idx start result ≡ four_from (split_commas piece bs) idx result
  unfolding fields_from four_from split_commas
  fields_from_lem bytes [] zero i idx start piece result d n l p =
      rw (p, parse_f32_lem fp piece) refl
  fields_from_lem bytes (b ∷ bs) zero i idx start piece result d n l p = absurd (omega arith)
  fields_from_lem bytes [] (suc k) i idx start piece result d n l p = absurd (omega arith)
  fields_from_lem bytes (b ∷ bs) (suc k) i idx start piece result d n l p =
      let (e, g) = drop_more bytes i b bs d in
      elim (Bool-cases (b == b',')) [
        | inl y ↦
            rw (g, y, p, parse_f32_lem fp piece)
              (elim (Bool-cases (leb 4 idx)) [
                | inl w ↦ rw w refl
                | inr w ↦ rw w (elim (Option-cases (number_of fp piece)) [
                  | inl o ↦ rw o refl
                  | inr (v, o) ↦ rw o (
                      fields_from_lem bytes bs k (i + 1) (idx + 1) (i + 1) [] (set result idx v) e
                        (omega arith) (omega arith) (nothing bytes (i + 1)))
                ])
              ])
        | inr z ↦
            rw (g, z)
              (fields_from_lem bytes bs k (i + 1) idx start (piece ++ (b ∷ [])) result e
                (omega arith) (omega arith) (piece_grows bytes start i b bs piece l d p))
      ]

  -- The reading of a line is the reading of the pieces between its commas: four of them, in their
  -- order, and nothing where there are fewer or more, or one is empty. A piece stands for a number: a
  -- sign, the digits at its start modulo 2^32, and behind a point the digits modulo 2^32 over a power
  -- of ten modulo 2^32; what stands behind them has no part in it, and a piece with no digits is 0.
  pub parse_line_lem :
      (r : LineReader)
      → parse_line fp r ≡ four_from (split_commas [] (line r)) 0 (replicate 4 (lit 0 0))
  unfolding parse_line
  parse_line_lem r =
      fields_from_lem (line r) (line r) (length (line r)) 0 0 0 [] (replicate 4 (lit 0 0)) refl refl
        (omega arith) refl
