-- ===== src/Kbd/Buffer.antt =====
-- Reading from the controller's output buffer.
use nova_exo.Base.{
  ℕ, zero, suc, ◌<◌, ◌≡◌, ◌⊎◌, refl, ◌∙◌, ap, Bool, true, false, not, Option, none, some, List, [],
  ◌∷◌, if◌then◌else◌, arith, ◌==◌, ◌||◌, length, drop, bit, Bool-cases,
}
use mathlib.Core.Logic.{inl, inr}
use mathlib.Core.Path.{subst}
use nova_exo.Kbd.{I8042, data_reg, status_reg, no_key, read_loop}

abbrev pub is_empty : List ℕ → Bool
is_empty [] = true
is_empty (b ∷ bs) = false

-- The documented behaviour of the output buffer, while no byte arrives: the status has bit 0 just if
-- a byte waits, reading the status takes none, and reading the data register takes the first.
pub record Buffered (hw : I8042) : Type 0 where
  pub waiting : hw.S → List ℕ
  pub status_bit : (s : hw.S) → bit (hw.inb status_reg s).0 0 ≡ not (is_empty (waiting s))
  pub status_keeps : (s : hw.S) → waiting (hw.inb status_reg s).1 ≡ waiting s
  pub data_takes :
      (s : hw.S) (b : ℕ) (bs : List ℕ)
      → waiting s ≡ b ∷ bs
      → ((hw.inb data_reg s).0 ≡ b) × (waiting (hw.inb data_reg s).1 ≡ bs)

-- The bytes from the first that is a key: no acknowledgement, no self-test, no prefix.
unfoldable pub from_key : List ℕ → List ℕ
from_key [] = []
from_key (b ∷ bs) = if b == 0xFA || b == 0xAA || b == 0xE0 then from_key bs else b ∷ bs

abbrev pub first : List ℕ → Option ℕ
first [] = none
first (b ∷ bs) = some b

module _ (hw : I8042) (buf : Buffered hw) where
  open hw use {S, inb}
  open buf use {waiting, status_bit, status_keeps, data_takes}

  list-cases : (xs : List ℕ) → (xs ≡ []) ⊎ ((b : ℕ) × (bs : List ℕ) × (xs ≡ b ∷ bs))
  list-cases [] = inl refl
  list-cases (b ∷ bs) = inr (b, bs, refl)

  -- The first key of `q` is returned, and what is after it is left.
  abbrev Result : List ℕ → Option ℕ × S → Type 0
  Result q r = (r.0 ≡ first (from_key q)) × (waiting r.1 ≡ drop 1 (from_key q))

  read-empty :
      (fuel : ℕ) (s : S)
      → waiting s ≡ []
      → ((read_loop hw (suc fuel) s).0 ≡ none) × (waiting (read_loop hw (suc fuel) s).1 ≡ [])
  unfolding read_loop
  read-empty fuel s e = rw (status_bit s ∙ ap (λ q. not (is_empty q)) e) (refl, status_keeps s ∙ e)

  read-key :
      (fuel : ℕ) (s : S) (b : ℕ) (bs : List ℕ)
      → waiting s ≡ b ∷ bs
      → no_key b ≡ false
      → ((read_loop hw (suc fuel) s).0 ≡ some b) × (waiting (read_loop hw (suc fuel) s).1 ≡ bs)
  unfolding read_loop
  read-key fuel s b bs e n =
      let (d, r) = data_takes (inb status_reg s).1 b bs (status_keeps s ∙ e) in
      rw (status_bit s ∙ ap (λ q. not (is_empty q)) e, d, n) (refl, r)

  read-skip :
      (fuel : ℕ) (s : S) (b : ℕ) (bs : List ℕ)
      → waiting s ≡ b ∷ bs
      → no_key b ≡ true
      → read_loop hw (suc fuel) s ≡ read_loop hw fuel (inb data_reg (inb status_reg s).1).1
  unfolding read_loop
  read-skip fuel s b bs e n =
      let (d, r) = data_takes (inb status_reg s).1 b bs (status_keeps s ∙ e) in
      rw (status_bit s ∙ ap (λ q. not (is_empty q)) e, d, n) refl

  taken :
      (s : S) (b : ℕ) (bs : List ℕ)
      → waiting s ≡ b ∷ bs
      → waiting (inb data_reg (inb status_reg s).1).1 ≡ bs
  taken s b bs e = (data_takes (inb status_reg s).1 b bs (status_keeps s ∙ e)).1

  shorter :
      (s : S) (b : ℕ) (bs : List ℕ) (fuel : ℕ)
      → waiting s ≡ b ∷ bs
      → length (waiting s) < suc fuel
      → length (waiting (inb data_reg (inb status_reg s).1).1) < fuel
  shorter s b bs fuel e h = omega (arith, ap length (taken s b bs e), ap length e)

  read_rest :
      (s : S) (b : ℕ) (bs : List ℕ) (fuel : ℕ)
      → waiting s ≡ b ∷ bs
      → Result
          (waiting (inb data_reg (inb status_reg s).1).1)
          (read_loop hw fuel (inb data_reg (inb status_reg s).1).1)
      → Result bs (read_loop hw fuel (inb data_reg (inb status_reg s).1).1)
  read_rest s b bs fuel e r =
      subst (λ q. Result q (read_loop hw fuel (inb data_reg (inb status_reg s).1).1))
        (taken s b bs e) r

  -- While no byte arrives, `read` with more rounds than bytes waiting returns the first byte that is
  -- a key, none of 0xFA, 0xAA and 0xE0, if there is one, and leaves the bytes after it; the bytes
  -- before it are taken too, and where there is no key nothing is left.
  pub read_loop-first :
      (fuel : ℕ) (s : S)
      → length (waiting s) < fuel
      → ((read_loop hw fuel s).0 ≡ first (from_key (waiting s)))
        × (waiting (read_loop hw fuel s).1 ≡ drop 1 (from_key (waiting s)))
  unfolding from_key
  read_loop-first zero s h = absurd (omega arith)
  read_loop-first (suc fuel) s h = elim (list-cases (waiting s)) [
    | inl e ↦ rw e (read-empty fuel s e)
    | inr (b, bs, e) ↦ elim (Bool-cases (no_key b)) [
      | inl t ↦
          rw (e, t, read-skip fuel s b bs e t)
            (read_rest s b bs fuel e (
              read_loop-first fuel (inb data_reg (inb status_reg s).1).1 (shorter s b bs fuel e h)))
      | inr f ↦ rw (e, f) (read-key fuel s b bs e f)
    ]
  ]
