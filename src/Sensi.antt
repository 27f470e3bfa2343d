-- ===== src/Sensi.antt =====
-- src/sensi.rs: the register of the sense channels and their order of service.
pub mod Select
pub mod Register
pub mod Order
use nova_exo.Base.{
  ℕ, zero, suc, ◌+◌, ◌≡◌, Bool, true, false, not, ◌&&◌, Option, none, some, List, [], ◌∷◌, ltb, leb,
  if◌then◌else◌, length, get_elem?, get_or, set, replicate,
}

pub data Famiglia : Type 0 where
  estero intero : Famiglia

pub data Via : Type 0 where
  riflesso integrazione : Via

pub data Politica : Type 0 where
  fresca completa : Politica

pub data Stato : Type 0 where
  valido incerto guasto : Stato

abbrev pub max_canali : ℕ
max_canali = 16

-- The name of a channel is its bytes.
pub record Canale : Type 0 where
  pub id : List ℕ
  pub famiglia : Famiglia
  pub via : Via
  pub latenza_max : ℕ
  pub politica : Politica
  pub priorita : ℕ
  pub stato : Stato

-- `canali` is the array of `max_canali` slots.
pub record Registro : Type 0 where
  pub canali : List (Option Canale)
  pub n : ℕ

unfoldable pub new : Registro
new = record { canali = replicate max_canali none; n = 0 }

unfoldable pub registra : Registro → Canale → Registro × Bool
registra r c =
    if leb max_canali r.n
    then (r, false)
    else (record { canali = set r.canali r.n (some c); n = r.n + 1 }, true)

-- `self.canali[i]`, with no channel out of the array, where the code would panic.
abbrev pub slot : Registro → ℕ → Option Canale
slot r i = get_or r.canali i none

unfoldable pub get : Registro → ℕ → Option Canale
get r i = if ltb i r.n then slot r i else none

abbrev pub is_riflesso : Via → Bool
is_riflesso riflesso = true
is_riflesso integrazione = false

abbrev pub same_via : Via → Via → Bool
same_via riflesso v = is_riflesso v
same_via integrazione v = not (is_riflesso v)

abbrev pub is_guasto : Stato → Bool
is_guasto guasto = true
is_guasto _ = false

-- The loops `for i in 0..self.n` of the counting methods: `k` rounds from index `i`.
unfoldable pub count_slots : (Canale → Bool) → Registro → ℕ → ℕ → ℕ
count_slots p r i zero = 0
count_slots p r i (suc k) = elim (slot r i) [
  | none ↦ count_slots p r (i + 1) k
  | some c ↦ (if p c then 1 else 0) + count_slots p r (i + 1) k
]

unfoldable pub conta_via : Registro → Via → ℕ
conta_via r v = count_slots (λ c. same_via c.via v) r 0 r.n

unfoldable pub conta_guasti : Registro → ℕ
conta_guasti r = count_slots (λ c. is_guasto c.stato) r 0 r.n

-- Is `x` served before `y`? The comparison of two present channels, then that of two slots.
unfoldable pub before : Canale → Canale → Bool
before cx cy =
    let rx = is_riflesso cx.via in
    let ry = is_riflesso cy.via in
    if rx && not ry then true else if not rx && ry then false else ltb cx.priorita cy.priorita

unfoldable pub before? : Option Canale → Option Canale → Bool
before? (some cx) (some cy) = before cx cy
before? _ _ = false

unfoldable pub piu_urgente : Registro → ℕ → ℕ → Bool
piu_urgente r x y = before? (slot r x) (slot r y)

-- The first loop of `ordine`: the indices of the present channels, at the front of `out`.
unfoldable pub present_from : Registro → ℕ → ℕ → List ℕ
present_from r i zero = []
present_from r i (suc k) = elim (slot r i) [
  | none ↦ present_from r (i + 1) k
  | some _ ↦ i ∷ present_from r (i + 1) k
]

-- The inner loop of the selection sort: `k` rounds from index `b`, with the index of the best so far.
unfoldable pub best_from : (ℕ → ℕ → Bool) → List ℕ → ℕ → ℕ → ℕ → ℕ
best_from less out b zero best = best
best_from less out b (suc k) best =
    best_from less out (b + 1) k (if less (get_or out b 0) (get_or out best 0) then b else best)

-- `out.swap(i, j)`
unfoldable pub swap : List ℕ → ℕ → ℕ → List ℕ
swap out i j = set (set out i (get_or out j 0)) j (get_or out i 0)

-- The outer loop: `k` rounds from index `a`, of `m` in all.
unfoldable pub sort_from : (ℕ → ℕ → Bool) → List ℕ → ℕ → ℕ → List ℕ
sort_from less out a zero = out
sort_from less out a (suc k) =
    sort_from less (swap out a (best_from less out (a + 1) k a)) (a + 1) k

-- The part of `out` that is written, and whose length is returned.
unfoldable pub ordine : Registro → List ℕ
unfolding present_from sort_from
ordine r = let out = present_from r 0 r.n in sort_from (piu_urgente r) out 0 (length out)
