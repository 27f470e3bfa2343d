-- ===== src/Neurogenesis.antt =====
-- src/neurogenesis.rs: the pool of cloned neurons. The f32 errors, the weights and the mutation of
-- weights, which draws from the generator of src/cfc.rs, are parameters.
pub mod Pool
pub mod Limit
use nova_exo.Base.{
  ℕ, zero, suc, ◌+◌, ◌-◌, Bool, true, false, not, Option, none, some, List, [], ◌∷◌, ltb, leb, ◌==◌,
  if◌then◌else◌, length, get_or, set, replicate, u32, u64,
}

abbrev pub base_neurons : ℕ
base_neurons = 16

abbrev pub extra_slots : ℕ
extra_slots = 48

abbrev pub birth_persistence : ℕ
birth_persistence = 50

abbrev pub trial_ticks : ℕ
trial_ticks = 500

-- `lt` is `<` on f32, `average` the division by `TRIAL_TICKS`, `mutate` the loop over the weights
-- from the seed, the cell and the parent's index.
pub record Weights : Type 1 where
  pub F32 : Type 0
  pub W : Type 0
  pub lt : F32 → F32 → Bool
  pub add : F32 → F32 → F32
  pub average : F32 → F32
  pub zero_f : F32
  pub birth_error_threshold : F32
  pub mutate : ℕ → ℕ → ℕ → W → W

module _ (ws : Weights) where
  open ws use {F32, W, lt, add, average, zero_f, birth_error_threshold, mutate}

  pub record CloneNeuron : Type 0 where
    pub cell : ℕ
    pub weights : Option W
    pub trial_left : ℕ
    pub trial_error : F32
    pub born_at : ℕ

  unfoldable pub empty : CloneNeuron
  empty = record { cell = 0; weights = none; trial_left = 0; trial_error = zero_f; born_at = 0 }

  pub record NeuroPool : Type 0 where
    pub slots : List (List CloneNeuron)
    pub persist : List ℕ
    pub births : ℕ
    pub prunes : ℕ

  unfoldable pub new : NeuroPool
  new = record {
    slots = replicate 4 (replicate extra_slots empty);
    persist = replicate 4 0;
    births = 0;
    prunes = 0;
  }

  abbrev pub is_some : Option W → Bool
  is_some none = false
  is_some (some w) = true

  -- The loop of `alive`: `k` rounds from slot `s`.
  unfoldable pub alive_from : List CloneNeuron → ℕ → ℕ → ℕ → ℕ
  alive_from row s zero n = n
  alive_from row s (suc k) n =
      alive_from row (s + 1) k (if is_some (get_or row s empty).weights then n + 1 else n)

  unfoldable pub alive : NeuroPool → ℕ → ℕ
  alive p cell = alive_from (get_or p.slots cell []) 0 extra_slots base_neurons

  unfoldable pub free_from : List CloneNeuron → ℕ → ℕ → Option ℕ
  free_from row s zero = none
  free_from row s (suc k) =
      let rest = free_from row (s + 1) k in
      if is_some (get_or row s empty).weights then rest else some s

  unfoldable pub free_slot : NeuroPool → ℕ → Option ℕ
  free_slot p cell = free_from (get_or p.slots cell []) 0 extra_slots

  -- `error > BIRTH_ERROR_THRESHOLD`
  unfoldable pub birth_check : NeuroPool → ℕ → F32 → NeuroPool × Bool
  birth_check p cell error =
      let n = u32 (get_or p.persist cell 0 + 1) in
      if lt birth_error_threshold error
      then if leb birth_persistence n
        then (record p { persist = set p.persist cell 0 }, true)
        else (record p { persist = set p.persist cell n }, false)
      else (record p { persist = set p.persist cell 0 }, false)

  abbrev pub set_slot : NeuroPool → ℕ → ℕ → CloneNeuron → List (List CloneNeuron)
  set_slot p cell slot c = set p.slots cell (set (get_or p.slots cell []) slot c)

  unfoldable pub clone_neuron : NeuroPool → ℕ → W → ℕ → ℕ → ℕ → NeuroPool × Bool
  clone_neuron p cell parent gen seed tick = elim (free_slot p cell) [
    | none ↦ (p, false)
    | some slot ↦ (
      record p {
        slots = set_slot p cell slot (record {
          cell = cell;
          weights = some (mutate seed cell gen parent);
          trial_left = trial_ticks;
          trial_error = zero_f;
          born_at = tick;
        });
        births = u64 (p.births + 1);
      },
      true,
    )
  ]

  unfoldable pub trial_step : NeuroPool → ℕ → ℕ → F32 → NeuroPool × Bool
  trial_step p cell slot error =
      let n = get_or (get_or p.slots cell []) slot empty in
      let left = if ltb 0 n.trial_left then n.trial_left - 1 else n.trial_left in
      let n' = record n { trial_error = add n.trial_error error; trial_left = left } in
      let kept = record p { slots = set_slot p cell slot n' } in
      if is_some n.weights
      then if left == 0
        then if lt (average n'.trial_error) birth_error_threshold then (kept, true) else (
          record p {
            slots = set_slot p cell slot (record n' { weights = none });
            prunes = u64 (p.prunes + 1);
          },
          true,
        )
        else (kept, false)
      else (p, false)

  unfoldable pub prune : NeuroPool → ℕ → ℕ → NeuroPool
  prune p cell slot =
      let n = get_or (get_or p.slots cell []) slot empty in
      if is_some n.weights
      then record p {
        slots = set_slot p cell slot (record n { weights = none });
        prunes = u64 (p.prunes + 1);
      }
      else p
