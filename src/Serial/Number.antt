-- ===== src/Serial/Number.antt =====
-- src/serial.rs: the number of a text, against its digits.
use nova_exo.Base.{
  ℕ, zero, suc, ◌+◌, ◌-◌, ◌*◌, ◌^◌, ◌≤◌, ◌≡◌, refl, ◌∙◌, ap, arith, Bool-cases, inl, inr, true,
  false, ◌||◌, ◌&&◌, Option, none, some, List, [], ◌∷◌, ◌==◌, if◌then◌else◌, get_or, drop,
  drop-drop, sym, length, length-drop, u32, ltb,
}
use native.Mathlib.Nat.{mul_assoc}
use native.Mathlib.Omega.{pow_step}
use nova_exo.Base.Int.{pos}
use nova_exo.Fp.{Fp}
use nova_exo.Serial.{is_ascii_digit, digits, parse_f32}

-- The digits at the start of a text.
unfoldable pub lead : List ℕ → List ℕ
lead [] = []
lead (b ∷ bs) = if is_ascii_digit b then b ∷ lead bs else []

-- Their value, after a number that stands before them.
unfoldable pub value : ℕ → List ℕ → ℕ
value n [] = n
value n (b ∷ bs) = value (n * 10 + (b - b'0')) bs

unfoldable pub tens : ℕ → List ℕ → ℕ
tens n [] = n
tens n (b ∷ bs) = tens (n * 10) bs

tens_lem : (n : ℕ) (bs : List ℕ) → tens n bs ≡ n * 10 ^ length bs
unfolding tens
tens_lem n [] = omega arith
tens_lem n (b ∷ bs) =
    tens_lem (n * 10) bs
    ∙ mul_assoc n 10 (10 ^ length bs)
    ∙ ap (λ (p : ℕ). n * p) (sym (pow_step 10 (length bs)))

pub drop_more :
    (bytes : List ℕ) (i : ℕ) (b : ℕ) (bs : List ℕ)
    → drop i bytes ≡ b ∷ bs
    → (drop (i + 1) bytes ≡ bs) × (get_or bytes i 0 ≡ b)
drop_more [] zero b bs e = absurd (omega (arith, ap length e))
drop_more [] (suc i) b bs e = absurd (omega (arith, ap length e))
drop_more (x ∷ xs) zero b bs e = (ap (drop 1) e, ap (λ z. get_or z 0 0) e)
drop_more (x ∷ xs) (suc i) b bs e =
    let (p, q) = drop_more xs i b bs e in
    let s : suc i + 1 ≡ suc (i + 1) = omega arith in (ap (λ k. drop k (x ∷ xs)) s ∙ p, q)

-- The text behind the digits at its start.
unfoldable pub behind : List ℕ → List ℕ
behind [] = []
behind (b ∷ bs) = if is_ascii_digit b then behind bs else b ∷ bs

digits_lem :
    (s t : List ℕ) (k i m p n ten : ℕ)
    → drop i s ≡ t
    → length t ≡ k
    → m ≡ u32 n
    → p ≡ u32 ten
    → digits s k i m p ≡ (u32 (value n (lead t)), u32 (tens ten (lead t)), i + length (lead t))
unfolding digits lead value tens
digits_lem s [] zero i m p n ten d l e f =
    let z : i ≡ i + 0 = omega arith in rw (e, f) (ap (λ (j : ℕ). (u32 n, u32 ten, j)) z)
digits_lem s (b ∷ t) zero i m p n ten d l e f = absurd (omega arith)
digits_lem s [] (suc k) i m p n ten d l e f = absurd (omega arith)
digits_lem s (b ∷ t) (suc k) i m p n ten d l e f =
    let (dd, g) = drop_more s i b t d in
    elim (Bool-cases (is_ascii_digit b)) [
      | inl y ↦
          rw (g, y)
            (digits_lem s t k (i + 1) _ _ (n * 10 + (b - b'0')) (ten * 10) dd (omega arith)
                (omega arith) (omega arith)
              ∙ ap
                  (λ (j : ℕ).
                    (u32 (value (n * 10 + (b - b'0')) (lead t)), u32 (tens (ten * 10) (lead t)), j))
                  (omega arith))
      | inr z ↦
          let q : i ≡ i + 0 = omega arith in rw (g, z, e, f) (ap (λ (j : ℕ). (u32 n, u32 ten, j)) q)
    ]

drop-lead : (t : List ℕ) → drop (length (lead t)) t ≡ behind t
unfolding lead behind
drop-lead [] = refl
drop-lead (b ∷ t) = elim (Bool-cases (is_ascii_digit b)) [
  | inl y ↦ rw y (drop-lead t)
  | inr z ↦ rw z refl
]

module _ (fp : Fp) where
  open fp use {F, neg, add, div, of_int}

  -- A fraction: the digits behind a point, over a power of ten; 0 over 1 where there is no point.
  unfoldable pub fraction : List ℕ → F
  fraction [] = div (of_int (pos 0)) (of_int (pos 1))
  fraction (b ∷ bs) =
      if b == b'.'
      then div (of_int (pos (u32 (value 0 (lead bs))))) (of_int (pos (u32 (10 ^ length (lead bs)))))
      else div (of_int (pos 0)) (of_int (pos 1))

  -- The digits of a text and its fraction; what stands behind them has no part in it.
  unfoldable pub magnitude : List ℕ → F
  magnitude s = add (of_int (pos (u32 (value 0 (lead s))))) (fraction (behind s))

  -- A sign and a magnitude; the empty text is no number.
  unfoldable pub number_of : List ℕ → Option F
  number_of [] = none
  number_of (b ∷ s) =
      if b == b'-'
      then some (neg (magnitude s))
      else if b == b'+'
      then some (magnitude s)
      else some (magnitude (b ∷ s))

  -- The fraction that the code reads at `i`, and the magnitude that it reads at `start`.
  frac_at : List ℕ → ℕ → F
  frac_at s i =
      let dot = ltb i (length s) && get_or s i 0 == b'.' in
      let (frac, frac_div, j) = digits s (length s - (i + 1)) (i + 1) 0 1 in
      div (of_int (pos (if dot then frac else 0))) (of_int (pos (if dot then frac_div else 1)))

  magnitude_at : List ℕ → ℕ → F
  unfolding frac_at
  magnitude_at s start =
      let (int_part, t, i) = digits s (length s - start) start 0 1 in
      add (of_int (pos int_part)) (frac_at s i)

  frac_at_lem : (s t : List ℕ) (i : ℕ) → drop i s ≡ t → frac_at s i ≡ fraction t
  unfolding frac_at fraction
  frac_at_lem s [] i d =
      let e : ltb i (length s) ≡ false = ground (arith, length-drop i s, ap length d) in
      rw (e, frac_at) refl
  frac_at_lem s (b ∷ t) i d =
      let e : ltb i (length s) ≡ true = ground (arith, length-drop i s, ap length d) in
      let (dd, g) = drop_more s i b t d in
      let k : length t ≡ length s - (i + 1) = omega (arith, length-drop (i + 1) s, ap length dd) in
      elim (Bool-cases (b == b'.')) [
        | inl y ↦
            rw
              (e, g, y, frac_at, digits_lem s t (length s - (i + 1)) (i + 1) 0 1 0 1 dd k refl refl)
              (ap (λ (p : ℕ). div (of_int (pos (u32 (value 0 (lead t))))) (of_int (pos (u32 p))))
                (tens_lem 1 (lead t) ∙ omega arith))
        | inr z ↦ rw (e, g, z, frac_at) refl
      ]

  magnitude_at_lem :
      (s t : List ℕ) (start : ℕ)
      → start ≤ length s
      → drop start s ≡ t
      → magnitude_at s start ≡ magnitude t
  unfolding magnitude_at magnitude
  magnitude_at_lem s t start l d =
      let k : length t ≡ length s - start = omega (arith, length-drop start s, ap length d) in
      rw (digits_lem s t (length s - start) start 0 1 0 1 d k refl refl, magnitude_at)
        (ap (add (of_int (pos (u32 (value 0 (lead t)))))) (
          frac_at_lem s (behind t) (start + length (lead t)) (
            sym (drop-drop start (length (lead t)) s)
            ∙ ap (drop (length (lead t))) d
            ∙ drop-lead t)))

  parse_f32_at :
      (b : ℕ) (s : List ℕ)
      → parse_f32 fp (b ∷ s) ≡ (
          let v = magnitude_at (b ∷ s) (if b == b'-' || b == b'+' then 1 else 0) in
          some (if b == b'-' then neg v else v))
  unfolding parse_f32 frac_at magnitude_at
  parse_f32_at b s =
      let e : (length (b ∷ s) == 0) ≡ false = ground arith in
      ap
        (λ c.
          if c
          then none
          else (let v = magnitude_at (b ∷ s) (if b == b'-' || b == b'+' then 1 else 0) in
              some (if b == b'-' then neg v else v)))
        e

  pub parse_f32_lem : (s : List ℕ) → parse_f32 fp s ≡ number_of s
  unfolding number_of
  parse_f32_lem [] = unfold parse_f32 in refl
  parse_f32_lem (b ∷ s) = parse_f32_at b s ∙ elim (Bool-cases (b == b'-')) [
    | inl y ↦ rw (y, magnitude_at_lem (b ∷ s) s 1 (omega arith) refl) refl
    | inr z ↦ elim (Bool-cases (b == b'+')) [
      | inl y ↦ rw (z, y, magnitude_at_lem (b ∷ s) s 1 (omega arith) refl) refl
      | inr n ↦ rw (z, n, magnitude_at_lem (b ∷ s) (b ∷ s) 0 (omega arith) refl) refl
    ]
  ]
