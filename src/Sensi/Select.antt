-- ===== src/Sensi/Select.antt =====
-- The selection sort of `Registro::ordine`, for any strict weak order.
use nova_exo.Base.{
  ℕ, zero, suc, ◌+◌, ◌≤◌, ◌<◌, ◌≡◌, refl, ◌∙◌, Bool, true, false, List, [], ◌∷◌, arith, ◌==◌,
  if◌then◌else◌, length, length-set, get_or, get_or-set, set,
}
use nova_exo.Sensi.{best_from, swap, sort_from}

-- How often a value stands in a list.
abbrev pub count : ℕ → List ℕ → ℕ
count v [] = 0
count v (x ∷ xs) = (if x == v then 1 else 0) + count v xs

pub count-set :
    (v : ℕ) (xs : List ℕ) (i x : ℕ)
    → i < length xs
    → count v (set xs i x) + (if get_or xs i 0 == v then 1 else 0)
      ≡ count v xs + (if x == v then 1 else 0)
count-set v [] i x h = absurd (omega arith)
count-set v (y ∷ ys) zero x h = omega arith
count-set v (y ∷ ys) (suc i) x h = omega (arith, count-set v ys i x (omega arith))

pub length-swap : (xs : List ℕ) (i j : ℕ) → length (swap xs i j) ≡ length xs
unfolding swap
length-swap xs i j = length-set (set xs i _) j _ ∙ length-set xs i _

pub get_or-swap :
    (xs : List ℕ) (i j k : ℕ)
    → i < length xs
    → j < length xs
    → get_or (swap xs i j) k 0
      ≡ (if k == j then get_or xs i 0 else if k == i then get_or xs j 0 else get_or xs k 0)
unfolding swap
get_or-swap xs i j k hi hj = ground (
  arith,
  length-set xs i (get_or xs j 0),
  get_or-set xs i k (get_or xs j 0) 0,
  get_or-set (set xs i (get_or xs j 0)) j k (get_or xs i 0) 0,
)

pub count-swap :
    (v : ℕ) (xs : List ℕ) (i j : ℕ)
    → i < length xs
    → j < length xs
    → count v (swap xs i j) ≡ count v xs
unfolding swap
count-swap v xs i j hi hj = ground (
  arith,
  length-set xs i (get_or xs j 0),
  get_or-set xs i j (get_or xs j 0) 0 hi,
  count-set v xs i (get_or xs j 0) hi,
  count-set v (set xs i (get_or xs j 0)) j (get_or xs i 0),
)

pub record IsOrder (less : ℕ → ℕ → Bool) : Type 0 where
  pub irrefl : (x : ℕ) → less x x ≡ false
  pub trans : (x y z : ℕ) → less x y ≡ true → less y z ≡ true → less x z ≡ true

module _ {less : ℕ → ℕ → Bool} (order : IsOrder less) where
  -- `z` is at least as urgent as all from `a` on, up to `m`.
  abbrev IsBest : List ℕ → ℕ → ℕ → ℕ → Type 0
  IsBest out a m z = (j : ℕ) → a ≤ j → j < m → less (get_or out j 0) (get_or out z 0) ≡ false

  IsBest-step :
      (out : List ℕ) (a b best : ℕ)
      → IsBest out a b best
      → IsBest out a (b + 1) (if less (get_or out b 0) (get_or out best 0) then b else best)
  IsBest-step out a b best h j hj hb = ground (
    arith,
    h j,
    order.irrefl (get_or out b 0),
    order.trans (get_or out j 0) (get_or out b 0) (get_or out best 0),
  )

  best_from-IsBest :
      (out : List ℕ) (a b k m best : ℕ)
      → b + k ≡ m
      → IsBest out a b best
      → IsBest out a m (best_from less out b k best)
  unfolding best_from
  best_from-IsBest out a b zero m best e h = λ j p q. h j p (omega arith)
  best_from-IsBest out a b (suc k) m best e h =
      best_from-IsBest out a (b + 1) k m _ (omega arith) (IsBest-step out a b best h)

best_from-bounds :
    (less : ℕ → ℕ → Bool) (out : List ℕ) (a b k m best : ℕ)
    → b + k ≡ m
    → a ≤ best
    → a ≤ b
    → best < m
    → (a ≤ best_from less out b k best) × (best_from less out b k best < m)
unfolding best_from
best_from-bounds less out a b zero m best e p r q = (p, q)
best_from-bounds less out a b (suc k) m best e p r q =
    best_from-bounds less out a (b + 1) k m _ (omega arith) (ground arith) (omega arith)
      (ground arith)

-- The sort keeps the values, whatever the test says.
pub count-sort_from :
    (less : ℕ → ℕ → Bool) (v : ℕ) (out : List ℕ) (a k : ℕ)
    → a + k ≡ length out
    → (count v (sort_from less out a k) ≡ count v out)
      × (length (sort_from less out a k) ≡ length out)
unfolding sort_from
count-sort_from less v out a zero e = (refl, refl)
count-sort_from less v out a (suc k) e =
    let b =
      best_from-bounds less out a (a + 1) k (length out) a (omega arith) (omega arith) (omega arith)
        (omega arith) in
    let z = best_from less out (a + 1) k a in
    let ih = count-sort_from less v (swap out a z) (a + 1) k (omega (arith, length-swap out a z)) in
    (ih.0 ∙ count-swap v out a z (omega arith) b.1, ih.1 ∙ length-swap out a z)

module _ {less : ℕ → ℕ → Bool} (order : IsOrder less) where
  IsBest-self : (out : List ℕ) (a : ℕ) → IsBest order out a (a + 1) a
  IsBest-self out a j p q = let e : j ≡ a = omega arith in rw e (order.irrefl (get_or out a 0))

  -- Nothing behind one of the first `a` places is more urgent.
  abbrev pub SortedTo : List ℕ → ℕ → Type 0
  SortedTo out a =
      (i j : ℕ) → i < a → i < j → j < length out → less (get_or out j 0) (get_or out i 0) ≡ false

  SortedTo-swap :
      (out : List ℕ) (a z : ℕ)
      → a ≤ z
      → z < length out
      → IsBest order out a (length out) z
      → SortedTo out a
      → SortedTo (swap out a z) (a + 1)
  SortedTo-swap out a z p q best sorted i j hi hj hl = ground (
    arith,
    length-swap out a z,
    get_or-swap out a z i,
    get_or-swap out a z j,
    best j,
    best a,
    sorted i j,
    sorted i a,
    sorted i z,
  )

  pub sort_from-SortedTo :
      (out : List ℕ) (a k : ℕ)
      → a + k ≡ length out
      → SortedTo out a
      → SortedTo (sort_from less out a k) (length out)
  unfolding sort_from
  sort_from-SortedTo out a zero e h = λ i j hi hj hl. h i j (omega arith) hj hl
  sort_from-SortedTo out a (suc k) e h =
      let m = length out in
      let z = best_from less out (a + 1) k a in
      let b =
        best_from-bounds less out a (a + 1) k m a (omega arith) (omega arith) (omega arith)
          (omega arith) in
      let best = best_from-IsBest order out a (a + 1) k m a (omega arith) (IsBest-self out a) in
      let ih =
        sort_from-SortedTo (swap out a z) (a + 1) k (omega (arith, length-swap out a z))
          (SortedTo-swap out a z b.0 b.1 best h) in
      λ i j hi hj hl. ih i j (omega (arith, length-swap out a z)) hj hl
