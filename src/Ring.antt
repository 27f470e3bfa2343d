-- ===== src/Ring.antt =====
-- A ring of slots written in turn, as the buffers of src/cfc.rs and src/predictor.rs are.
use mathlib.Core.Path.{subst}
use nova_exo.Base.{
  map, length-map, ◌⊎◌, ap, ℕ, zero, suc, ◌+◌, ◌/◌, ◌%◌, ◌<◌, ◌≤◌, ◌≡◌, ◌≢◌, refl, ◌∙◌, sym, arith,
  true, false, List, [], ◌∷◌, ◌++◌, length, length-append, set, get_or, get_or-set, length-set,
  ne→==, Bool-cases, ltb, ltb→lt, ltb→le,
}
use mathlib.Core.Logic.{inl, inr}
use native.Mathlib.Nat.{mod-lt, mul-le-mul_right, div-add-mod'}

-- Two numbers less than `cap` apart are not in one slot.
slots_differ : (cap i n : ℕ) → i < n → n < i + cap → i % cap ≢ n % cap
slots_differ cap i n l h e = elim (Bool-cases (ltb (i / cap) (n / cap))) [
  | inl y ↦ omega (
    arith,
    mul-le-mul_right cap (ltb→lt (i / cap) (n / cap) y),
    div-add-mod' i cap,
    div-add-mod' n cap,
    e,
  )
  | inr z ↦ omega (
    arith,
    mul-le-mul_right cap (ltb→le (i / cap) (n / cap) z),
    div-add-mod' i cap,
    div-add-mod' n cap,
    e,
  )
]

module _ {ℓ} {A : Type ℓ} where
  pub get_or-append_front :
      (xs ys : List A) (i : ℕ) (d : A) → i < length xs → get_or (xs ++ ys) i d ≡ get_or xs i d
  get_or-append_front [] ys i d h = absurd (omega arith)
  get_or-append_front (x ∷ xs) ys zero d h = refl
  get_or-append_front (x ∷ xs) ys (suc i) d h = get_or-append_front xs ys i d (omega arith)

  pub get_or-append_last : (xs : List A) (v d : A) → get_or (xs ++ (v ∷ [])) (length xs) d ≡ v
  get_or-append_last [] v d = refl
  get_or-append_last (x ∷ xs) v d = get_or-append_last xs v d

  -- The last `cap` of what was written, `rs`, stand in the ring, each in the slot of its number.
  unfoldable pub Holds : ℕ → A → List A → List A → Type ℓ
  Holds cap d rs ring =
      (length ring ≡ cap)
      × ((i : ℕ) → i < length rs → length rs ≤ i + cap → get_or ring (i % cap) d ≡ get_or rs i d)

  pub write-Holds :
      (cap : ℕ) (d : A) (rs ring : List A) (v : A)
      → 0 < cap
      → Holds cap d rs ring
      → Holds cap d (rs ++ (v ∷ [])) (set ring (length rs % cap) v)
  unfolding Holds
  write-Holds cap d rs ring v p (e, h) =
      (length-set ring _ v ∙ e, λ i l u. at i l u (Bool-cases (ltb i (length rs))))
    where
      n : length (rs ++ (v ∷ [])) ≡ length rs + 1
      n = omega (arith, length-append rs (v ∷ []))

      m : length rs % cap < length ring
      m = rw e (mod-lt (length rs) p)

      at :
          (i : ℕ)
          → i < length (rs ++ (v ∷ []))
          → length (rs ++ (v ∷ [])) ≤ i + cap
          → (ltb i (length rs) ≡ true) ⊎ (ltb i (length rs) ≡ false)
          → get_or (set ring (length rs % cap) v) (i % cap) d ≡ get_or (rs ++ (v ∷ [])) i d
      at i l u (inl y) =
          let a : i < length rs = ltb→lt i (length rs) y in
          get_or-set ring (length rs % cap) (i % cap) v d m
          ∙ rw
              (ne→== (i % cap) (length rs % cap)
                (slots_differ cap i (length rs) a (omega (arith, n))))
              (h i a (omega (arith, n)))
          ∙ sym (get_or-append_front rs (v ∷ []) i d a)
      at i l u (inr z) =
          let a : i ≡ length rs = omega (arith, n, ltb→le i (length rs) z) in
          rw a (
            get_or-set ring (length rs % cap) (length rs % cap) v d m
            ∙ ground (arith, get_or-append_last rs v d))

  pub empty-Holds : (cap : ℕ) (d : A) (ring : List A) → length ring ≡ cap → Holds cap d [] ring
  unfolding Holds
  empty-Holds cap d ring e = (e, λ i l u. absurd (omega arith))

  pub read-Holds :
      (cap : ℕ) (d : A) (rs ring : List A) (i : ℕ)
      → Holds cap d rs ring
      → i < length rs
      → length rs ≤ i + cap
      → get_or ring (i % cap) d ≡ get_or rs i d
  unfolding Holds
  read-Holds cap d rs ring i (e, h) l u = h i l u

module _ {ℓ} {A B : Type ℓ} where
  pub map-append : (f : A → B) (xs ys : List A) → map f (xs ++ ys) ≡ map f xs ++ map f ys
  map-append f [] ys = refl
  map-append f (x ∷ xs) ys = ap (◌∷◌ (f x)) (map-append f xs ys)

  pub get_or-map :
      (f : A → B) (rs : List A) (i : ℕ) (r : A) → get_or (map f rs) i (f r) ≡ f (get_or rs i r)
  get_or-map f [] i r = refl
  get_or-map f (x ∷ rs) zero r = refl
  get_or-map f (x ∷ rs) (suc i) r = get_or-map f rs i r

  -- The same for one of several parallel arrays, which holds a field of each record.
  pub write_map-Holds :
      (cap : ℕ) (f : A → B) (d : B) (rs : List A) (ring : List B) (r : A)
      → 0 < cap
      → Holds cap d (map f rs) ring
      → Holds cap d (map f (rs ++ (r ∷ []))) (set ring (length rs % cap) (f r))
  write_map-Holds cap f d rs ring r p h =
      subst (λ z. Holds cap d z (set ring (length rs % cap) (f r))) (sym (map-append f rs (r ∷ [])))
        (subst (λ n. Holds cap d (map f rs ++ (f r ∷ [])) (set ring (n % cap) (f r)))
          (length-map rs f) (write-Holds cap d (map f rs) ring (f r) p h))

  pub read_map-Holds :
      (cap : ℕ) (f : A → B) (r : A) (rs : List A) (ring : List B) (i : ℕ)
      → Holds cap (f r) (map f rs) ring
      → i < length rs
      → length rs ≤ i + cap
      → get_or ring (i % cap) (f r) ≡ f (get_or rs i r)
  read_map-Holds cap f r rs ring i h l u =
      read-Holds cap (f r) (map f rs) ring i h (omega (arith, length-map rs f))
        (omega (arith, length-map rs f))
      ∙ get_or-map f rs i r
