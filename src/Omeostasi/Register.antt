-- ===== src/Omeostasi/Register.antt =====
-- A command to an actuator, and the reading of its state.
use nova_exo.Base.{
  ℕ, zero, suc, ◌+◌, ◌≤◌, ◌<◌, ◌≡◌, ◌≢◌, refl, sym, ◌∙◌, ap, Bool, true, Option, none, some, List,
  leb, ◌==◌, ==_iff, ==_refl, if◌then◌else◌, arith, length, get_or, set, get_or-set, length-set,
  equal, equal→eq, equal_self, Bool-cases, Option-cases,
}
use mathlib.Core.Logic.{inl, inr}
use mathlib.Core.Path.{subst}
use nova_exo.Omeostasi.{
  Attuatore, Attuatori, new, registra, named, imposta_from, imposta, acceso_from, acceso,
}

-- The array's length, which no command changes, is more than every index that is used.
unfoldable pub IsValid : Attuatori → Type 0
IsValid r = (length r.a ≡ 8) × (r.n ≤ 8)

-- The slots before the loop's index are as they were.
imposta_from-before :
    (id : List ℕ) (b : Bool) (a : List (Option Attuatore)) (i k j : ℕ)
    → i + k ≤ length a
    → j < i
    → get_or (imposta_from id b a i k).0 j none ≡ get_or a j none
unfolding imposta_from
imposta_from-before id b a i zero j l h = refl
imposta_from-before id b a i (suc k) j l h = elim (Option-cases (named id (get_or a i none))) [
  | inl e ↦ ground (arith, e, imposta_from-before id b a (i + 1) k j (omega arith) (omega arith))
  | inr (x, e) ↦
      ground (arith, e, get_or-set a i j (some (record x { acceso = b })) none (omega arith))
]

named_some :
    (y x : Attuatore) (id : List ℕ) → equal y.id id ≡ true → y ≡ x → (x.id ≡ id) × (some y ≡ some x)
named_some y x id t s = (subst (λ z. z.id ≡ id) s (equal→eq y.id id t), ap some s)

named-id :
    (id : List ℕ) (o : Option Attuatore) (x : Attuatore)
    → named id o ≡ some x
    → (x.id ≡ id) × (o ≡ some x)
unfolding named
named-id id none x e = absurd cc
named-id id (some y) x e = elim (Bool-cases (equal y.id id)) [
  | inl t ↦ named_some y x id t (ground (arith, t, e))
  | inr f ↦ absurd (ground (arith, f, e))
]

named_self :
    (x : Attuatore) (b : Bool) (id : List ℕ)
    → x.id ≡ id
    → named id (some (record x { acceso = b })) ≡ some (record x { acceso = b })
unfolding named
named_self x b id e = rw e (rw (equal_self id) refl)

named_other : (x : Attuatore) (id : List ℕ) → x.id ≢ id → named id (some x) ≡ none
unfolding named
named_other x id n = elim (Bool-cases (equal x.id id)) [
  | inl t ↦ absurd (n (equal→eq x.id id t))
  | inr f ↦ rw f refl
]

imposta-skip :
    (id : List ℕ) (b : Bool) (a : List (Option Attuatore)) (i k : ℕ)
    → named id (get_or a i none) ≡ none
    → imposta_from id b a i (suc k) ≡ imposta_from id b a (i + 1) k
unfolding imposta_from
imposta-skip id b a i k e = ground (arith, e)

imposta-hit :
    (id : List ℕ) (b : Bool) (a : List (Option Attuatore)) (i k : ℕ) (x : Attuatore)
    → named id (get_or a i none) ≡ some x
    → imposta_from id b a i (suc k) ≡ (set a i (some (record x { acceso = b })), true)
unfolding imposta_from
imposta-hit id b a i k x e = ground (arith, e)

imposta_done :
    (id : List ℕ) (b : Bool) (a : List (Option Attuatore)) (i : ℕ)
    → length (imposta_from id b a i 0).0 ≡ length a
unfolding imposta_from
imposta_done id b a i = refl

acceso-skip :
    (id : List ℕ) (a : List (Option Attuatore)) (i k : ℕ)
    → named id (get_or a i none) ≡ none
    → acceso_from id a i (suc k) ≡ acceso_from id a (i + 1) k
unfolding acceso_from
acceso-skip id a i k e = ground (arith, e)

acceso-hit :
    (id : List ℕ) (a : List (Option Attuatore)) (i k : ℕ) (x : Attuatore)
    → named id (get_or a i none) ≡ some x
    → acceso_from id a i (suc k) ≡ x.acceso
unfolding acceso_from
acceso-hit id a i k x e = ground (arith, e)

get_or-set_self :
    {A : Type 0} (a : List A) (i : ℕ) (v d : A) → i < length a → get_or (set a i v) i d ≡ v
get_or-set_self a i v d l =
    get_or-set a i i v d l ∙ ap (λ t. if t then v else get_or a i d) (==_refl i)

written :
    (a : List (Option Attuatore)) (i j : ℕ) (x : Attuatore) (b : Bool) (id' : List ℕ)
    → get_or a i none ≡ some x
    → x.id ≢ id'
    → i < length a
    → named id' (get_or (set a i (some (record x { acceso = b }))) j none)
      ≡ named id' (get_or a j none)
written a i j x b id' slot n l = elim (Bool-cases (j == i)) [
  | inl t ↦
      let e = (==_iff j i).0 t in
      ap (named id') (
        ap (λ z. get_or (set a i (some (record x { acceso = b }))) z none) e
        ∙ get_or-set_self a i _ none l)
      ∙ (named_other (record x { acceso = b }) id' n
          ∙ (sym (named_other x id' n)
              ∙ ap (named id') (sym slot ∙ ap (λ z. get_or a z none) (sym e))))
  | inr f ↦ ap (named id') (
      get_or-set a i j _ none l
      ∙ ap (λ t. if t then some (record x { acceso = b }) else get_or a j none) f)
]

-- A command reaches the loop of `acceso` that looks for the same name.
imposta_from_self :
    (id : List ℕ) (b : Bool) (a : List (Option Attuatore)) (i k : ℕ)
    → i + k ≤ length a
    → (imposta_from id b a i k).1 ≡ true
    → acceso_from id (imposta_from id b a i k).0 i k ≡ b
unfolding imposta_from
imposta_from_self id b a i zero l h = absurd cc
imposta_from_self id b a i (suc k) l h = elim (Option-cases (named id (get_or a i none))) [
  | inl e ↦ rw (imposta-skip id b a i k e) (
      acceso-skip id _ i k
        (ap (named id) (imposta_from-before id b a (i + 1) k i (omega arith) (omega arith)) ∙ e)
      ∙ imposta_from_self id b a (i + 1) k (omega arith)
          (sym (ap (λ r. r.1) (imposta-skip id b a i k e)) ∙ h))
  | inr (x, e) ↦ rw (imposta-hit id b a i k x e) (
      acceso-hit id _ i k (record x { acceso = b })
        (ap (named id) (get_or-set_self a i (some (record x { acceso = b })) none (omega arith))
          ∙ named_self x b id (named-id id (get_or a i none) x e).0))
]

imposta_from-length :
    (id : List ℕ) (b : Bool) (a : List (Option Attuatore)) (i k : ℕ)
    → length (imposta_from id b a i k).0 ≡ length a
imposta_from-length id b a i zero = imposta_done id b a i
imposta_from-length id b a i (suc k) = elim (Option-cases (named id (get_or a i none))) [
  | inl e ↦ rw (imposta-skip id b a i k e) (imposta_from-length id b a (i + 1) k)
  | inr (x, e) ↦ rw (imposta-hit id b a i k x e) (length-set a i (some (record x { acceso = b })))
]

-- The slots look the same to the search for another name.
imposta_from-other :
    (id id' : List ℕ) (b : Bool) (a : List (Option Attuatore)) (i k j : ℕ)
    → id ≢ id'
    → i + k ≤ length a
    → named id' (get_or (imposta_from id b a i k).0 j none) ≡ named id' (get_or a j none)
unfolding imposta_from
imposta_from-other id id' b a i zero j n l = refl
imposta_from-other id id' b a i (suc k) j n l = elim (Option-cases (named id (get_or a i none))) [
  | inl e ↦
      rw (imposta-skip id b a i k e) (imposta_from-other id id' b a (i + 1) k j n (omega arith))
  | inr (x, e) ↦
      let (same, slot) = named-id id (get_or a i none) x e in
      rw (imposta-hit id b a i k x e)
        (written a i j x b id' slot (λ f. n (sym same ∙ f)) (omega arith))
]

acceso_from-ext :
    (id : List ℕ) (a a' : List (Option Attuatore)) (i k : ℕ)
    → ((j : ℕ) → named id (get_or a' j none) ≡ named id (get_or a j none))
    → acceso_from id a' i k ≡ acceso_from id a i k
unfolding acceso_from
acceso_from-ext id a a' i zero h = refl
acceso_from-ext id a a' i (suc k) h = elim (Option-cases (named id (get_or a i none))) [
  | inl e ↦
      acceso-skip id a' i k (h i ∙ e)
      ∙ (acceso_from-ext id a a' (i + 1) k h ∙ sym (acceso-skip id a i k e))
  | inr (x, e) ↦ acceso-hit id a' i k x (h i ∙ e) ∙ sym (acceso-hit id a i k x e)
]

-- With the array of eight slots, a command that finds the actuator is what `acceso` then answers for
-- its name, and whether it finds it or not, the answers for all other names stay.
pub imposta-acceso :
    (r : Attuatori) (id : List ℕ) (b : Bool)
    → IsValid r
    → ((imposta r id b).1 ≡ true → acceso (imposta r id b).0 id ≡ b)
      × ((id' : List ℕ) → id ≢ id' → acceso (imposta r id b).0 id' ≡ acceso r id')
unfolding imposta acceso IsValid
imposta-acceso r id b (len, le) = (
  λ h. imposta_from_self id b r.a 0 r.n (omega arith) h,
  λ id' n.
      acceso_from-ext id' r.a _ 0 r.n
        (λ j. imposta_from-other id id' b r.a 0 r.n j n (omega arith)),
)

registra_keeps :
    (r : Attuatori) (id : List ℕ) (b : Bool)
    → length r.a ≡ 8
    → r.n ≤ 8
    → IsValid (registra r id b).0
unfolding IsValid registra
registra_keeps r id b len le = elim (Bool-cases (leb 8 r.n)) [
  | inl t ↦ rw t (len, le)
  | inr f ↦
      rw f (length-set r.a r.n (some (record { id = id; acceso = b })) ∙ len, ground (arith, f))
]

-- Every operation of the register keeps the array of eight slots and at most eight in use; the
-- register starts so.
pub registra-IsValid :
    IsValid new
    × ((r : Attuatori) (id : List ℕ) (b : Bool)
        → IsValid r
        → IsValid (registra r id b).0 × IsValid (imposta r id b).0)
unfolding IsValid new registra imposta
registra-IsValid = (
  (refl, omega arith),
  λ r id b (len, le).
      (registra_keeps r id b len le, (imposta_from-length id b r.a 0 r.n ∙ len, le)),
)
