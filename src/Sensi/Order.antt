-- ===== src/Sensi/Order.antt =====
-- What `Registro::ordine` answers: every registered channel once, the reflexes first, then by priority.
use nova_exo.Base.{
  ℕ, zero, suc, ◌+◌, ◌≤◌, ◌<◌, ◌≡◌, refl, true, false, Option, none, some, arith, ltb,
  if◌then◌else◌, length, get_or,
}
use nova_exo.Sensi.{
  riflesso, Canale, Registro, slot, before, before?, piu_urgente, present_from, ordine,
}
use nova_exo.Sensi.Register.{IsValid, is_some}
use nova_exo.Sensi.Select.{IsOrder, count, count-sort_from, sort_from-SortedTo}

before?-irrefl : (x : Option Canale) → before? x x ≡ false
unfolding before? before
before?-irrefl none = refl
before?-irrefl (some c) = ground arith

before?-trans :
    (x y z : Option Canale) → before? x y ≡ true → before? y z ≡ true → before? x z ≡ true
unfolding before? before
before?-trans (some c) (some d) (some e) h k = ground arith
before?-trans _ _ _ h k = ground arith

pub piu_urgente-IsOrder : (r : Registro) → IsOrder (piu_urgente r)
unfolding piu_urgente
piu_urgente-IsOrder r = record {
  irrefl = λ x. before?-irrefl (slot r x);
  trans = λ x y z. before?-trans (slot r x) (slot r y) (slot r z);
}

-- The first loop takes every index of a valid register.
present_from-length :
    (r : Registro) (i k : ℕ)
    → ((j : ℕ) → i ≤ j → j < i + k → is_some (slot r j) ≡ true)
    → length (present_from r i k) ≡ k
unfolding present_from
present_from-length r i zero h = refl
present_from-length r i (suc k) h = ground (
  arith,
  h i (omega arith) (omega arith),
  present_from-length r (i + 1) k (λ j a b. h j (omega arith) (omega arith)),
)

present_from-count :
    (r : Registro) (i k v : ℕ)
    → ((j : ℕ) → i ≤ j → j < i + k → is_some (slot r j) ≡ true)
    → count v (present_from r i k) ≡ (if ltb v i then 0 else if ltb v (i + k) then 1 else 0)
unfolding present_from
present_from-count r i zero v h = ground arith
present_from-count r i (suc k) v h = ground (
  arith,
  h i (omega arith) (omega arith),
  present_from-count r (i + 1) k v (λ j a b. h j (omega arith) (omega arith)),
)

module _ {r : Registro} (valid : IsValid r) where
  all_taken : (j : ℕ) → 0 ≤ j → j < 0 + r.n → is_some (slot r j) ≡ true
  all_taken j a b = ground (arith, valid.taken j (omega (arith, valid.fits)))

  -- The order of service has one place for each registered channel, and every index below `n`
  -- stands in it exactly once.
  pub ordine-perm :
      (v : ℕ) → (length (ordine r) ≡ r.n) × (count v (ordine r) ≡ (if ltb v r.n then 1 else 0))
  unfolding ordine
  ordine-perm v = ground (
    arith,
    count-sort_from (piu_urgente r) v (present_from r 0 r.n) 0 (length (present_from r 0 r.n))
        (omega arith),
    present_from-length r 0 r.n all_taken,
    present_from-count r 0 r.n v all_taken,
  )

  ordine-sorted :
      (i j : ℕ)
      → i < j
      → j < length (ordine r)
      → piu_urgente r (get_or (ordine r) j 0) (get_or (ordine r) i 0) ≡ false
  unfolding ordine
  ordine-sorted i j p q =
      let out = present_from r 0 r.n in
      let m = length out in
      let same = count-sort_from (piu_urgente r) 0 out 0 m (omega arith) in
      sort_from-SortedTo (piu_urgente-IsOrder r) out 0 m (omega arith) (λ x y a b c. elim a [ ]) i j
        (omega (arith, same.1)) p q

  -- Of two channels in the order of service, the earlier is a reflex if the later is one, and two
  -- channels of one way stand by priority, 0 first.
  pub ordine-served :
      (i j : ℕ) {x y : Canale}
      → i < j
      → j < length (ordine r)
      → slot r (get_or (ordine r) i 0) ≡ some x
      → slot r (get_or (ordine r) j 0) ≡ some y
      → (y.via ≡ riflesso → x.via ≡ riflesso) × (x.via ≡ y.via → x.priorita ≤ y.priorita)
  unfolding piu_urgente before? before
  ordine-served i j p q hx hy = ground (arith, ordine-sorted i j p q)
