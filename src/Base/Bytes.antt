-- ===== src/Base/Bytes.antt =====
-- Arrays of bytes: slices, `copy_from_slice`, and 16-bit numbers in network order.
use Prim.Native.Nat.{ℕ, zero, suc, ◌+◌, ◌*◌, ◌/◌, ◌%◌, ◌≤◌}
use mathlib.Core.Path.{◌≡◌, refl, sym, ap, ◌∙◌}
use mathlib.Core.Bool.{Bool, true, false, ◌&&◌}
use mathlib.Core.List.{List, [], ◌∷◌, ◌++◌, append_assoc}
use native.Mathlib.Omega.{arith}
use nova_exo.Base.Tests.{◌==◌}
use nova_exo.Base.Lists.{length, length-append, length-drop, take, drop}

-- `dst[at..at + src.len()].copy_from_slice(src)`. What is out of `dst` is left out here, and a panic
-- there.
unfoldable pub write_at {ℓ} : {A : Type ℓ} → List A → ℕ → List A → List A
write_at [] n src = []
write_at (d ∷ ds) zero [] = d ∷ ds
write_at (d ∷ ds) zero (x ∷ xs) = x ∷ write_at ds zero xs
write_at (d ∷ ds) (suc n) src = d ∷ write_at ds n src

-- `xs[from..from + n]`
abbrev pub slice {ℓ} : {A : Type ℓ} → ℕ → ℕ → List A → List A
slice from n xs = take n (drop from xs)

-- `u16::from_be_bytes` and `to_be_bytes`
abbrev pub from_be : ℕ → ℕ → ℕ
from_be hi lo = hi * 256 + lo

abbrev pub to_be : ℕ → List ℕ
to_be n = (n / 256 % 256) ∷ (n % 256) ∷ []

-- Equality of two slices.
unfoldable pub equal : List ℕ → List ℕ → Bool
equal [] [] = true
equal (x ∷ xs) (y ∷ ys) = x == y && equal xs ys
equal _ _ = false

pub equal→eq : (xs ys : List ℕ) → equal xs ys ≡ true → xs ≡ ys
unfolding equal
equal→eq [] [] h = refl
equal→eq [] (y ∷ ys) h = cc
equal→eq (x ∷ xs) [] h = cc
equal→eq (x ∷ xs) (y ∷ ys) h = ground (arith, equal→eq xs ys)

pub equal_self : (xs : List ℕ) → equal xs xs ≡ true
unfolding equal
equal_self [] = refl
equal_self (x ∷ xs) = ground (arith, equal_self xs)

module _ {ℓ} {A : Type ℓ} where
  pub length-write_at :
      (dst : List A) (n : ℕ) (src : List A) → length (write_at dst n src) ≡ length dst
  unfolding write_at
  length-write_at [] n src = refl
  length-write_at (d ∷ ds) zero [] = refl
  length-write_at (d ∷ ds) zero (x ∷ xs) = ap suc (length-write_at ds zero xs)
  length-write_at (d ∷ ds) (suc n) src = ap suc (length-write_at ds n src)

  pub write_at-nil : (dst : List A) (n : ℕ) → write_at dst n [] ≡ dst
  unfolding write_at
  write_at-nil [] n = refl
  write_at-nil (d ∷ ds) zero = refl
  write_at-nil (d ∷ ds) (suc n) = ap (◌∷◌ d) (write_at-nil ds n)

  pub write_at-front :
      (dst src : List A)
      → length src ≤ length dst
      → write_at dst 0 src ≡ src ++ drop (length src) dst
  unfolding write_at
  write_at-front [] [] h = refl
  write_at-front [] (x ∷ xs) h = absurd (omega arith)
  write_at-front (d ∷ ds) [] h = refl
  write_at-front (d ∷ ds) (x ∷ xs) h = ap (◌∷◌ x) (write_at-front ds xs (omega arith))

  pub write_at-skip : (p r src : List A) → write_at (p ++ r) (length p) src ≡ p ++ write_at r 0 src
  unfolding write_at
  write_at-skip [] r src = refl
  write_at-skip (x ∷ p) r src = ap (◌∷◌ x) (write_at-skip p r src)

  pub drop-nil : (n : ℕ) → drop {A = A} n [] ≡ []
  drop-nil zero = refl
  drop-nil (suc n) = refl

  pub drop-drop : (m n : ℕ) (xs : List A) → drop n (drop m xs) ≡ drop (m + n) xs
  drop-drop zero n xs = ap (λ k. drop k xs) (omega arith)
  drop-drop (suc m) n [] = drop-nil n ∙ sym (drop-nil (suc m + n))
  drop-drop (suc m) n (x ∷ xs) = drop-drop m n xs ∙ ap (λ k. drop k (x ∷ xs)) (shift m n)
    where
      shift : (m n : ℕ) → suc (m + n) ≡ suc m + n
      shift m n = omega arith

  -- One more write behind the part that is written.
  pub write_at-next :
      (p dst src : List A) (n : ℕ)
      → length p ≡ n
      → n + length src ≤ length dst
      → write_at (p ++ drop n dst) n src ≡ (p ++ src) ++ drop (n + length src) dst
  write_at-next p dst src n e h =
      let fits : length src ≤ length (drop n dst) = omega (arith, length-drop n dst) in
      ap (λ k. write_at (p ++ drop n dst) k src) (sym e)
      ∙ write_at-skip p (drop n dst) src
      ∙ ap (◌++◌ p)
          (write_at-front (drop n dst) src fits ∙ ap (◌++◌ src) (drop-drop n (length src) dst))
      ∙ sym (append_assoc p src (drop (n + length src) dst))

-- `x` is `dst` with its first `n` bytes replaced by `p`.
pub record Written (dst p : List ℕ) (n : ℕ) (x : List ℕ) : Type 0 where
  pub split : x ≡ p ++ drop n dst
  pub len : length p ≡ n

pub Written-start : (dst : List ℕ) → Written dst [] 0 dst
Written-start dst = record { split = refl; len = refl }

pub Written-step :
    {dst p x : List ℕ} {n m : ℕ} (src : List ℕ)
    → Written dst p n x
    → n + length src ≡ m
    → m ≤ length dst
    → Written dst (p ++ src) m (write_at x n src)
Written-step {dst} {p} {x} {n} {m} src w e h = record {
  split =
      ap (λ y. write_at y n src) w.split
      ∙ write_at-next p dst src n w.len (omega arith)
      ∙ ap (λ k. (p ++ src) ++ drop k dst) e;
  len = omega (arith, length-append p src, w.len);
}

module _ {ℓ} {A : Type ℓ} where
  drop-append : (p q : List A) → drop (length p) (p ++ q) ≡ q
  drop-append [] q = refl
  drop-append (x ∷ p) q = drop-append p q

  take-append : (p q : List A) → take (length p) (p ++ q) ≡ p
  take-append [] q = refl
  take-append (x ∷ p) q = ap (◌∷◌ x) (take-append p q)

  -- The slice that a middle part takes.
  pub slice-middle :
      (p q r : List A) (from n : ℕ)
      → length p ≡ from
      → length q ≡ n
      → slice from n (p ++ q ++ r) ≡ q
  slice-middle p q r from n e e' = rw (← e, ← e', append_assoc, drop-append) (take-append q r)

  -- A field of the middle written anew.
  pub write_at-middle :
      (p q r src : List A) (at : ℕ)
      → length p ≡ at
      → length q ≡ length src
      → write_at (p ++ q ++ r) at src ≡ p ++ src ++ r
  write_at-middle p q r src at e e' = rw (← e) (
      ap (λ t. write_at t (length p) src) (append_assoc p q r)
      ∙ write_at-skip p (q ++ r) src
      ∙ ap (◌++◌ p)
          (write_at-front (q ++ r) src (omega (arith, length-append q r)) ∙ rw (← e', drop-append))
      ∙ sym (append_assoc p src r))
