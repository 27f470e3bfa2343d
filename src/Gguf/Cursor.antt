-- ===== src/Gguf/Cursor.antt =====
-- The cursor never leaves the buffer.
use nova_exo.Base.{
  ℕ, ◌+◌, ◌≤◌, ◌≡◌, refl, Bool, true, false, List, ltb, if◌then◌else◌, arith, length, Bool-cases,
  ltb→le, slice,
}
use mathlib.Core.Logic.{inl, inr}
use nova_exo.Gguf.{
  GgufResult, ok, fail, GgufError, too_deep, truncated, and_then, read_le, read_u64, skip, read_str,
  remaining,
}

-- Not the error of the model.
abbrev pub is_real : GgufError → Bool
is_real too_deep = false
is_real _ = true

-- A result from position `pos`: an error of the code, or a position `n` bytes further or more, in the
-- buffer.
unfoldable pub Moves {ℓ} : {A : Type ℓ} → (A → ℕ) → List ℕ → ℕ → ℕ → GgufResult A → Type 0
Moves at buf pos n (fail e) = is_real e ≡ true
Moves at buf pos n (ok a) = (pos + n ≤ at a) × (at a ≤ length buf)

pub weaken {ℓ} :
    {A : Type ℓ} (g : A → ℕ) (buf : List ℕ) (pos pos' n m : ℕ) (r : GgufResult A)
    → pos + n ≤ pos' + m
    → Moves g buf pos' m r
    → Moves g buf pos n r
unfolding Moves
weaken g buf pos pos' n m (fail e) h r = r
weaken g buf pos pos' n m (ok a) h (le, lt) = (omega arith, lt)

pub and_then-Moves {ℓ κ} :
    {A : Type ℓ} {B : Type κ} (f : A → ℕ) (g : B → ℕ) (buf : List ℕ) (pos n m : ℕ)
    (r : GgufResult A) (h : A → GgufResult B)
    → Moves f buf pos n r
    → ((a : A) → pos + n ≤ f a → f a ≤ length buf → Moves g buf (f a) m (h a))
    → Moves g buf pos (n + m) (and_then r h)
unfolding Moves
and_then-Moves f g buf pos n m (fail e) h r k = r
and_then-Moves f g buf pos n m (ok a) h (le, lt) k =
    weaken g buf pos (f a) (n + m) m (h a) (omega arith) (k a le lt)

pub read_le-Moves :
    (n : ℕ) (buf : List ℕ) (pos : ℕ)
    → pos ≤ length buf
    → Moves (λ r. r.1) buf pos n (read_le n buf pos)
unfolding Moves read_le
read_le-Moves n buf pos h = elim (Bool-cases (ltb (remaining buf pos) n)) [
  | inl t ↦ rw t refl
  | inr f ↦ rw f (omega arith, omega (arith, ltb→le _ _ f))
]

pub skip-Moves :
    (n : ℕ) (buf : List ℕ) (pos : ℕ) → pos ≤ length buf → Moves (λ p. p) buf pos n (skip n buf pos)
unfolding Moves skip
skip-Moves n buf pos h = elim (Bool-cases (ltb (remaining buf pos) n)) [
  | inl t ↦ rw t refl
  | inr f ↦ rw f (omega arith, omega (arith, ltb→le _ _ f))
]

module _ (utf8 : List ℕ → Bool) where
  taken :
      (buf : List ℕ) (p len : ℕ)
      → p ≤ length buf
      → Moves
          (λ (r : List ℕ × ℕ). r.1)
          buf
          p
          0
          (if ltb (remaining buf p) len
            then fail truncated
            else if utf8 (slice p len buf)
            then ok (slice p len buf, p + len)
            else fail truncated)
  unfolding Moves
  taken buf p len h = elim (Bool-cases (ltb (remaining buf p) len)) [
    | inl t ↦ rw t refl
    | inr f ↦ elim (Bool-cases (utf8 (slice p len buf))) [
      | inl u ↦ rw (f, u) (omega arith, omega (arith, ltb→le _ _ f))
      | inr v ↦ rw (f, v) refl
    ]
  ]

  pub read_str-Moves :
      (buf : List ℕ) (pos : ℕ)
      → pos ≤ length buf
      → Moves (λ r. r.1) buf pos 8 (read_str utf8 buf pos)
  unfolding read_str read_u64
  read_str-Moves buf pos h =
      and_then-Moves (λ r. r.1) (λ r. r.1) buf pos 8 0 (read_le 8 buf pos) _
        (read_le-Moves 8 buf pos h) (λ (len, p) le lt. taken buf p len lt)
