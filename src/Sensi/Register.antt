-- ===== src/Sensi/Register.antt =====
-- The register as a sequence of channels: `registra`, `get` and the counts.
use nova_exo.Base.{
  ℕ, zero, suc, ◌+◌, ◌≤◌, ◌<◌, ◌≡◌, refl, Bool, true, false, ◌&&◌, Option, none, some, arith, ap,
  ltb, lt→ltb, Bool-cases, ◌∙◌, inl, inr, ◌==◌, if◌then◌else◌, length, length-set, get_or-set,
  get_or-replicate,
}
use native.Mathlib.Nat.{zero-add}
use nova_exo.Sensi.{
  riflesso, integrazione, Canale, Registro, max_canali, new, registra, slot, get, count_slots,
  conta_via, conta_guasti, is_guasto, same_via,
}

abbrev pub is_some {ℓ} : {A : Type ℓ} → Option A → Bool
is_some none = false
is_some (some _) = true

-- The slots below `n` are taken, the others free.
pub record IsValid (r : Registro) : Type 0 where
  pub full : length r.canali ≡ max_canali
  pub fits : r.n ≤ max_canali
  pub taken : (i : ℕ) → i < max_canali → is_some (slot r i) ≡ ltb i r.n

pub new-IsValid : IsValid new
unfolding new
new-IsValid = record {
  full = refl;
  fits = omega arith;
  taken = λ i h. rw (get_or-replicate {A = Option Canale} max_canali i none none h) (ground arith);
}

slot-registra :
    {r : Registro} (c : Canale) (i : ℕ)
    → IsValid r
    → slot (registra r c).0 i
      ≡ (if ltb r.n max_canali then (if i == r.n then some c else slot r i) else slot r i)
unfolding registra
slot-registra {r} c i v = ground (arith, get_or-set r.canali r.n i (some c) none)

n-registra :
    (r : Registro) (c : Canale) → (registra r c).0.n ≡ (if ltb r.n max_canali then r.n + 1 else r.n)
unfolding registra
n-registra r c = ground arith

length-registra :
    {r : Registro} (c : Canale) → IsValid r → length (registra r c).0.canali ≡ max_canali
unfolding registra
length-registra {r} c v = ground (arith, length-set r.canali r.n (some c))

-- A registration keeps the invariant.
pub registra-IsValid : {r : Registro} (c : Canale) → IsValid r → IsValid (registra r c).0
registra-IsValid {r} c v = record {
  full = length-registra c v;
  fits = ground (arith, n-registra r c);
  taken = λ i h. ground (arith, slot-registra c i v, n-registra r c, v.taken i h);
}

-- The answer says whether there was a free slot; then the new channel is the last, and the others
-- are as before. In a full register nothing changes.
pub get-registra :
    {r : Registro} (c : Canale) (i : ℕ)
    → IsValid r
    → ((registra r c).1 ≡ ltb r.n max_canali)
      × ((registra r c).0.n ≡ (if ltb r.n max_canali then r.n + 1 else r.n))
      × (get (registra r c).0 i ≡ (if ltb r.n max_canali && i == r.n then some c else get r i))
unfolding get registra
get-registra {r} c i v = ground (arith, get_or-set r.canali r.n i (some c) none)

registra_full : (r : Registro) (c : Canale) → ltb r.n max_canali ≡ false → (registra r c).0 ≡ r
unfolding registra
registra_full r c h = ground arith

abbrev pub counted : (Canale → Bool) → Option Canale → ℕ
counted p none = 0
counted p (some c) = if p c then 1 else 0

count_slots-cons :
    (p : Canale → Bool) (r : Registro) (i k : ℕ)
    → count_slots p r i (suc k) ≡ counted p (slot r i) + count_slots p r (i + 1) k
unfolding count_slots
count_slots-cons p r i k = ground arith

-- One round more at the end of the loop.
count_slots-suc :
    (p : Canale → Bool) (r : Registro) (i k : ℕ)
    → count_slots p r i (suc k) ≡ count_slots p r i k + counted p (slot r (i + k))
count_slots-suc p r i zero = unfold count_slots in ground (arith, count_slots-cons p r i 0)
count_slots-suc p r i (suc k) = ground (
  arith,
  count_slots-cons p r i (suc k),
  count_slots-cons p r i k,
  count_slots-suc p r (i + 1) k,
  ap (λ j. counted p (slot r j)) (regroup i k),
)
  where
    regroup : (i k : ℕ) → i + 1 + k ≡ i + suc k
    regroup i k = omega arith

count_slots-congr :
    (p : Canale → Bool) (r s : Registro) (i k : ℕ)
    → ((j : ℕ) → i ≤ j → j < i + k → slot r j ≡ slot s j)
    → count_slots p r i k ≡ count_slots p s i k
unfolding count_slots
count_slots-congr p r s i zero h = refl
count_slots-congr p r s i (suc k) h = ground (
  arith,
  h i (omega arith) (omega arith),
  count_slots-congr p r s (i + 1) k (λ j a b. h j (omega arith) (omega arith)),
)

-- A registration in a register that is not full adds to the faulty channels just the new one.
pub conta_guasti-registra :
    {r : Registro} (c : Canale)
    → IsValid r
    → conta_guasti (registra r c).0
      ≡ conta_guasti r + (if ltb r.n max_canali && is_guasto c.stato then 1 else 0)
unfolding conta_guasti
conta_guasti-registra {r} c v = elim (Bool-cases (ltb r.n max_canali)) [
  | inl free ↦
      let faulty : Canale → Bool = λ d. is_guasto d.stato in
      let r' = (registra r c).0 in
      let same =
        count_slots-congr faulty r' r 0 r.n (λ j a b. ground (arith, slot-registra c j v)) in
      ground (
        arith,
        n-registra r c,
        slot-registra c r.n v,
        same,
        count_slots-suc faulty r' 0 r.n,
        ap (λ j. counted faulty (slot r' j)) (zero-add r.n),
      )
  | inr full ↦ ground (arith, registra_full r c full)
]

ways :
    (r : Registro) (i k : ℕ)
    → ((j : ℕ) → i ≤ j → j < i + k → is_some (slot r j) ≡ true)
    → count_slots (λ c. same_via c.via riflesso) r i k
        + count_slots (λ c. same_via c.via integrazione) r i k
      ≡ k
unfolding count_slots
ways r i zero h = omega arith
ways r i (suc k) h = ground (
  arith,
  h i (omega arith) (omega arith),
  ways r (i + 1) k (λ j a b. h j (omega arith) (omega arith)),
)

-- Each registered channel has one of the two ways.
pub conta_via-sum :
    {r : Registro} → IsValid r → conta_via r riflesso + conta_via r integrazione ≡ r.n
unfolding conta_via
conta_via-sum {r} v =
    ways r 0 r.n (λ j a b. v.taken j (omega (arith, v.fits)) ∙ lt→ltb j r.n (omega arith))
