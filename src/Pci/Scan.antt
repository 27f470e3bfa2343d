-- ===== src/Pci/Scan.antt =====
-- The scans against the list of all the places that pass the test.
use nova_exo.Base.{
  ℕ, zero, suc, ◌+◌, ◌-◌, ◌≤◌, ◌<◌, ◌≡◌, refl, sym, ◌∙◌, ap, Option, none, some, List, [], ◌∷◌,
  ◌++◌, append_assoc, append-nil, ltb, ltb→lt, ltb→le, if◌then◌else◌, arith, length, length-append,
  take, or, Bool-cases,
}
use mathlib.Core.Logic.{inl, inr}
use nova_exo.Pci.{Place, first_of, loop, add_found, test_class, find_class, find_class_all}

-- The results of `k` rounds from `i`, one after the other.
unfoldable pub concat_of {ℓ} : {A : Type ℓ} → (ℕ → List A) → ℕ → ℕ → List A
concat_of g i zero = []
concat_of g i (suc k) = g i ++ concat_of g (i + 1) k

abbrev pub to_list {ℓ} : {A : Type ℓ} → Option A → List A
to_list none = []
to_list (some a) = a ∷ []

abbrev pub head {ℓ} : {A : Type ℓ} → List A → Option A
head [] = none
head (x ∷ xs) = some x

head_append {ℓ} : {A : Type ℓ} (xs ys : List A) → head (xs ++ ys) ≡ or (head xs) (head ys)
head_append [] ys = refl
head_append (x ∷ xs) ys = refl

head-to_list {ℓ} : {A : Type ℓ} (o : Option A) → o ≡ head (to_list o)
head-to_list none = refl
head-to_list (some a) = refl

-- A loop that ends at the first result returns the first of all the results.
first_of-head {ℓ} :
    {A : Type ℓ} (f : ℕ → Option A) (g : ℕ → List A) (i k : ℕ)
    → ((j : ℕ) → f j ≡ head (g j))
    → first_of f i k ≡ head (concat_of g i k)
unfolding first_of concat_of
first_of-head f g i zero h = refl
first_of-head f g i (suc k) h =
    rw (h i, first_of-head f g (i + 1) k h) (sym (head_append (g i) (concat_of g (i + 1) k)))

-- What `out` holds after the places `xs`.
abbrev pub add_all : ℕ → List Place → List Place → List Place
add_all room [] found = found
add_all room (p ∷ ps) found = add_all room ps (add_found room (some p) found)

add_all-append :
    (room : ℕ) (xs ys found : List Place)
    → add_all room (xs ++ ys) found ≡ add_all room ys (add_all room xs found)
add_all-append room [] ys found = refl
add_all-append room (x ∷ xs) ys found = add_all-append room xs ys (add_found room (some x) found)

loop-add_all :
    (room : ℕ) (f : ℕ → List Place → List Place) (g : ℕ → List Place) (i k : ℕ) (found : List Place)
    → ((j : ℕ) (s : List Place) → f j s ≡ add_all room (g j) s)
    → loop f i k found ≡ add_all room (concat_of g i k) found
unfolding loop concat_of
loop-add_all room f g i zero found h = refl
loop-add_all room f g i (suc k) found h = rw (h i found) (
    loop-add_all room f g (i + 1) k (add_all room (g i) found) h
    ∙ sym (add_all-append room (g i) (concat_of g (i + 1) k) found))

take-nil {ℓ} : {A : Type ℓ} (n : ℕ) → take {A = A} n [] ≡ []
take-nil zero = refl
take-nil (suc n) = refl

one_more : (room n : ℕ) → n < room → (m : ℕ) × (room - n ≡ suc m)
one_more room n h = (room - n - 1, omega arith)

full : (room n : ℕ) → n ≤ room → room ≤ n → room - n ≡ 0
full room n h l = omega arith

-- Places are added at the end until the room is used up.
add_all-take :
    (room : ℕ) (xs found : List Place)
    → length found ≤ room
    → add_all room xs found ≡ found ++ take (room - length found) xs
add_all-take room [] found h =
    sym (append-nil found) ∙ ap (found ++◌) (sym (take-nil (room - length found)))
add_all-take room (x ∷ xs) found h = elim (Bool-cases (ltb (length found) room)) [
  | inl t ↦
      let (n, e) = one_more room (length found) (ltb→lt _ _ t) in
      ap (λ c. add_all room xs (if c then found ++ (x ∷ []) else found)) t
      ∙ (add_all-take room xs (found ++ (x ∷ []))
            (omega (arith, length-append found (x ∷ []), ltb→lt _ _ t))
          ∙ (append_assoc found (x ∷ []) _
              ∙ (ap (λ m. found ++ (x ∷ take m xs)) (omega (arith, e, length-append found (x ∷ [])))
                  ∙ ap (λ m. found ++ take m (x ∷ xs)) (sym e))))
  | inr f ↦
      let e = full room (length found) h (ltb→le _ _ f) in
      ap (λ c. add_all room xs (if c then found ++ (x ∷ []) else found)) f
      ∙ (add_all-take room xs found h
          ∙ ap (λ m. found ++ m) (ap (λ m. take m xs) e ∙ sym (ap (λ m. take m (x ∷ xs)) e)))
]

module _ (data_port : ℕ → ℕ) where
  -- Every place of the scan with a present device of the class, by bus, slot and function.
  unfoldable pub matches : ℕ → ℕ → List Place
  matches class subclass =
      concat_of
        (λ bus.
          concat_of
            (λ slot.
              concat_of (λ func. to_list (test_class data_port class subclass bus slot func)) 0 8)
            0 32)
        0 8

  -- `find_class` returns the first of the places with a present device of the class.
  pub find_class-head :
      (class subclass : ℕ) → find_class data_port class subclass ≡ head (matches class subclass)
  unfolding find_class matches
  find_class-head class subclass = first_of-head _ _ 0 8 (λ bus. first_of-head _ _ 0 32 (λ slot.
      first_of-head _ _ 0 8
        (λ func. head-to_list (test_class data_port class subclass bus slot func))))

  found-all :
      (room : ℕ) (o : Option Place) (s : List Place)
      → add_found room o s ≡ add_all room (to_list o) s
  found-all room none s = refl
  found-all room (some p) s = refl

  -- `find_class_all` writes the first of those places, in their order, as many as fit.
  pub find_class_all-take :
      (class subclass room : ℕ)
      → find_class_all data_port class subclass room ≡ take room (matches class subclass)
  unfolding find_class_all matches
  find_class_all-take class subclass room =
      loop-add_all room _ _ 0 8 [] (λ bus s. loop-add_all room _ _ 0 32 s (λ slot s.
        loop-add_all room _ _ 0 8 s
          (λ func s. found-all room (test_class data_port class subclass bus slot func) s)))
      ∙ (add_all-take room (matches class subclass) [] (omega arith)
          ∙ ap (λ n. take n (matches class subclass)) (omega arith))
