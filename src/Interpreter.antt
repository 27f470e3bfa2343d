-- ===== src/Interpreter.antt =====
-- src/interpreter.rs: the reading of the state of the network: four values and a concept.
pub mod Concept
use nova_exo.Base.{ℕ, zero, suc, ◌+◌, List, [], ◌∷◌, drop, get_or, set, if◌then◌else◌}
use nova_exo.Base.Int.{ℤ, pos, add_ℤ, mul_ℤ, lt_ℤ}
use nova_exo.Best.{best_from}
use nova_exo.Fp.{Fp}
use nova_exo.Inference.{Chemio}
use nova_exo.Executive.{InterpretReport}

module _ (fp : Fp) where
  open fp use {F, lit, neg, add, sub, mul, div, clamp, of_int, to_i16, to_i32}

  -- The tables of the weights are 65 numbers to an output, the last of them the bias.
  pub record Interpreter : Type 0 where
    pub weights : List (List ℤ)
    pub concept_weights : List (List ℤ)
    pub learning_rate : F
    pub last_error : F

  -- `(state[i] * 1000.0) as i32`
  abbrev pub si : List F → ℕ → ℤ
  si state i = to_i32 (mul (get_or state i (lit 0 0)) (lit 1000 0))

  unfoldable pub score_from : List ℤ → List F → ℕ → ℕ → ℤ → ℤ
  score_from row state zero i sum = sum
  score_from row state (suc k) i sum =
      score_from row state k (i + 1) (add_ℤ sum (mul_ℤ (get_or row i (pos 0)) (si state i)))

  unfoldable pub score : List ℤ → List F → ℤ
  unfolding score_from
  score row state =
      add_ℤ (score_from row state 64 0 (pos 0)) (mul_ℤ (get_or row 64 (pos 0)) (pos 1000))

  abbrev pub millionth : ℤ → F
  millionth s = div (of_int s) (lit 1000000 0)

  abbrev pub chemio_of : Interpreter → List F → ℕ → F
  chemio_of t state o =
      clamp (millionth (score (get_or t.weights o []) state)) (neg (lit 1 0)) (lit 1 0)

  abbrev pub concept_score : Interpreter → List F → ℕ → ℤ
  concept_score t state o = score (get_or t.concept_weights o []) state

  unfoldable pub interpret : Interpreter → List F → InterpretReport fp
  unfolding score
  interpret t state =
      let s = concept_score t state in
      let best = best_from lt_ℤ s 3 1 0 (s 0) in
      let x = chemio_of t state in
      record {
        chemio = record { c = x 0; u = x 1; p = x 2; n = x 3 };
        concept = best.0;
        energy = clamp (millionth best.1) (lit 0 0) (lit 1 0);
      }

  -- A row of weights after an error: the bias, which is after the 64 weights, stays.
  unfoldable pub learn_row : F → F → List ℤ → List F → ℕ → List ℤ
  learn_row rate delta ws state zero = ws
  learn_row rate delta [] state (suc k) = []
  learn_row rate delta (w ∷ ws) state (suc k) =
      let new_w =
        sub (div (of_int w) (lit 1000 0)) (mul (mul rate delta) (get_or state 0 (lit 0 0))) in
      to_i16 (mul new_w (lit 1000 0)) ∷ learn_row rate delta ws (drop 1 state) k

  abbrev pub observed_at : Chemio F → ℕ → F
  observed_at v zero = v.c
  observed_at v (suc zero) = v.u
  observed_at v (suc (suc zero)) = v.p
  observed_at v (suc (suc (suc o))) = v.n

  -- The loop over the four outputs, from `o`, with the sum of the squared errors.
  unfoldable pub learn_from :
      (ℕ → F) → F → List F → Chemio F → ℕ → ℕ → List (List ℤ) → F → List (List ℤ) × F
  unfolding learn_row
  learn_from pred rate state observed zero o weights err_sum = (weights, err_sum)
  learn_from pred rate state observed (suc k) o weights err_sum =
      let delta = sub (pred o) (observed_at observed o) in
      learn_from pred rate state observed k (o + 1)
        (set weights o (learn_row rate delta (get_or weights o []) state 64))
        (add err_sum (mul delta delta))

  unfoldable pub learn : Interpreter → List F → Chemio F → Interpreter × F
  unfolding learn_from score
  learn t state observed =
      let r =
        learn_from (chemio_of t state) t.learning_rate state observed 4 0 t.weights (lit 0 0) in
      let err = div r.1 (lit 4 0) in (record t { weights = r.0; last_error = err }, err)
