-- ===== src/Neurogenesis/Limit.antt =====
-- The limit of the neurons of a cell.
use nova_exo.Base.{
  ℕ, zero, suc, ◌+◌, ◌≤◌, ◌<◌, ◌≡◌, refl, ◌∙◌, ap, ap₂, Bool, true, false, Option, none, some, List,
  [], ◌==◌, if◌then◌else◌, length, get_or, set, get_or-set, u64, arith, Bool-cases, ==_refl,
}
use mathlib.Core.Logic.{inl, inr}
use nova_exo.Neurogenesis.{
  Weights, NeuroPool, CloneNeuron, empty, is_some, alive_from, alive, free_from, free_slot,
  clone_neuron, set_slot,
}

module _ (ws : Weights) where
  open ws use {F32, W, lt, birth_error_threshold}

  -- The neurons of a row, `k` slots from `s`.
  unfoldable pub count : List (CloneNeuron ws) → ℕ → ℕ → ℕ
  count row s zero = 0
  count row s (suc k) =
      (if is_some ws (get_or row s (empty ws)).weights then 1 else 0) + count row (s + 1) k

  alive_from-count :
      (row : List (CloneNeuron ws)) (s k n : ℕ) → alive_from ws row s k n ≡ n + count row s k
  unfolding alive_from count
  alive_from-count row s zero n = omega arith
  alive_from-count row s (suc k) n =
      elim (Bool-cases (is_some ws (get_or row s (empty ws)).weights)) [
        | inl t ↦ rw t (alive_from-count row (s + 1) k (n + 1) ∙ omega arith)
        | inr f ↦ rw f (alive_from-count row (s + 1) k n ∙ omega arith)
      ]

  count_le : (row : List (CloneNeuron ws)) (s k : ℕ) → count row s k ≤ k
  unfolding count
  count_le row s zero = omega arith
  count_le row s (suc k) = elim (Bool-cases (is_some ws (get_or row s (empty ws)).weights)) [
    | inl t ↦ rw t (omega (arith, count_le row (s + 1) k))
    | inr f ↦ rw f (omega (arith, count_le row (s + 1) k))
  ]

  slot_set :
      (row : List (CloneNeuron ws)) (i j : ℕ) (c : CloneNeuron ws)
      → i < length row
      → get_or (set row i c) j (empty ws) ≡ (if j == i then c else get_or row j (empty ws))
  slot_set row i j c h = get_or-set row i j c (empty ws) h

  -- A write before the slots that are counted changes nothing.
  count-before :
      (row : List (CloneNeuron ws)) (i s k : ℕ) (c : CloneNeuron ws)
      → i < length row
      → i < s
      → count (set row i c) s k ≡ count row s k
  unfolding count
  count-before row i s zero c h l = refl
  count-before row i s (suc k) c h l =
      ap₂ (λ x n. (if is_some ws x.weights then 1 else 0) + n)
        (slot_set row i s c h ∙ ap (λ b. if b then c else get_or row s (empty ws)) (apart s i l))
        (count-before row i (s + 1) k c h (omega arith))
    where
      apart : (s i : ℕ) → i < s → (s == i) ≡ false
      apart s i l = ground arith

  -- What the search for a free slot finds: no slot is free, or the slot is, and filling it adds one.
  Free : List (CloneNeuron ws) → ℕ → ℕ → Option ℕ → Type 0
  Free row s k none = count row s k ≡ k
  Free row s k (some i) =
      (s ≤ i)
      × (i < s + k)
      × ((c : CloneNeuron ws)
          → is_some ws c.weights ≡ true
          → count (set row i c) s k ≡ count row s k + 1)

  Free-here :
      (row : List (CloneNeuron ws)) (s k : ℕ)
      → s < length row
      → is_some ws (get_or row s (empty ws)).weights ≡ false
      → Free row s (suc k) (some s)
  unfolding Free count
  Free-here row s k h f = (
    omega arith,
    omega arith,
    λ c t.
        rw (slot_set row s s c h, ==_refl s, t, f, count-before row s (s + 1) k c h (omega arith))
          (omega arith),
  )

  Free-later :
      (row : List (CloneNeuron ws)) (s k : ℕ) (r : Option ℕ)
      → s + suc k ≤ length row
      → is_some ws (get_or row s (empty ws)).weights ≡ true
      → Free row (s + 1) k r
      → Free row s (suc k) r
  unfolding Free count
  Free-later row s k none h t f = rw t (omega (arith, f))
  Free-later row s k (some i) h t (le, lt, more) = (
    omega arith,
    omega arith,
    λ c u. rw (slot_set row i s c (omega arith), other s i le, t, more c u) (omega arith),
  )
    where
      other : (s i : ℕ) → s + 1 ≤ i → (s == i) ≡ false
      other s i l = ground arith

  none_left : (row : List (CloneNeuron ws)) (s : ℕ) → Free row s zero none
  unfolding Free count
  none_left row s = refl

  free_from-Free :
      (row : List (CloneNeuron ws)) (s k : ℕ)
      → s + k ≤ length row
      → Free row s k (free_from ws row s k)
  unfolding free_from
  free_from-Free row s zero h = none_left row s
  free_from-Free row s (suc k) h =
      elim (Bool-cases (is_some ws (get_or row s (empty ws)).weights)) [
        | inl t ↦ rw t (
            Free-later row s k (free_from ws row (s + 1) k) h t
              (free_from-Free row (s + 1) k (omega arith)))
        | inr f ↦ rw f (Free-here row s k (omega arith) f)
      ]

  row_set :
      (rows : List (List (CloneNeuron ws))) (cell : ℕ) (row : List (CloneNeuron ws))
      → cell < length rows
      → get_or (set rows cell row) cell [] ≡ row
  row_set rows cell row h =
      get_or-set rows cell cell row [] h
      ∙ ap (λ b. if b then row else get_or rows cell []) (==_refl cell)

  -- What a clone promises for its cell.
  unfoldable pub Cloned : NeuroPool ws → ℕ → NeuroPool ws × Bool → Type 0
  Cloned p cell (q, b) =
      (b ≡ true → (alive ws q cell ≡ alive ws p cell + 1) × (alive ws q cell ≤ 64))
      × (b ≡ false → (q ≡ p) × (alive ws p cell ≡ 64))

  alive-count :
      (p : NeuroPool ws) (cell : ℕ) → alive ws p cell ≡ 16 + count (get_or p.slots cell []) 0 48
  unfolding alive
  alive-count p cell = alive_from-count (get_or p.slots cell []) 0 48 16

  -- The pool after a slot is filled.
  abbrev filled : NeuroPool ws → ℕ → ℕ → CloneNeuron ws → NeuroPool ws
  filled p cell slot c = record p { slots = set_slot ws p cell slot c; births = u64 (p.births + 1) }

  filled-alive :
      (p : NeuroPool ws) (cell slot : ℕ) (c : CloneNeuron ws)
      → cell < length p.slots
      → is_some ws c.weights ≡ true
      → Free (get_or p.slots cell []) 0 48 (some slot)
      → (alive ws (filled p cell slot c) cell ≡ alive ws p cell + 1)
        × (alive ws (filled p cell slot c) cell ≤ 64)
  unfolding Free
  filled-alive p cell slot c h t (_, _, more) =
      let row = get_or p.slots cell [] in
      let after =
        alive-count (filled p cell slot c) cell
        ∙ ap (λ r. 16 + count r 0 48) (row_set p.slots cell (set row slot c) h) in
      (
        omega (arith, after, alive-count p cell, more c t),
        omega (arith, after, count_le (set row slot c) 0 48),
      )

  Cloned-at :
      (p : NeuroPool ws) (cell : ℕ) (c : CloneNeuron ws) (r : Option ℕ)
      → cell < length p.slots
      → is_some ws c.weights ≡ true
      → Free (get_or p.slots cell []) 0 48 r
      → Cloned p cell (elim r [ none ↦ (p, false) | some slot ↦ (filled p cell slot c, true) ])
  unfolding Cloned Free
  Cloned-at p cell c none h t f =
      (λ e. absurd cc, λ e. (refl, omega (arith, alive-count p cell, f)))
  Cloned-at p cell c (some slot) h t f = (λ e. filled-alive p cell slot c h t f, λ e. absurd cc)

  -- For a cell with its 48 slots: a clone is made, and the cell then has one neuron more, at most 64;
  -- or the pool stays as it is, and the cell has 64 already.
  pub clone_neuron-Cloned :
      (p : NeuroPool ws) (cell : ℕ) (parent : W) (gen seed tick : ℕ)
      → cell < length p.slots
      → length (get_or p.slots cell []) ≡ 48
      → Cloned p cell (clone_neuron ws p cell parent gen seed tick)
  unfolding clone_neuron free_slot
  clone_neuron-Cloned p cell parent gen seed tick h l =
      Cloned-at p cell _ (free_from ws (get_or p.slots cell []) 0 48) h refl
        (free_from-Free (get_or p.slots cell []) 0 48 (omega arith))
