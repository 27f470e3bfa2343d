-- ===== src/Interpreter/Concept.antt =====
-- src/interpreter.rs: the concept is one of the best four.
use nova_exo.Base.{ℕ, zero, suc, ◌≡◌, ◌<◌, sym, ap, ◌∙◌, arith, false, List}
use mathlib.Core.Logic.{inl, inr}
use nova_exo.Base.Int.{ℤ, lt_ℤ, lt_ℤ-trans, lt_ℤ-irrefl}
use nova_exo.Best.{best_from, Found, best-Found, best_keeps, best_highest}
use nova_exo.Fp.{Fp}
use nova_exo.Interpreter.{Interpreter, interpret, concept_score}

-- The first value is where the search starts.
in_four : (s : ℕ → ℤ) (r : ℕ × ℤ) → Found lt_ℤ s 3 1 0 (s 0) r → (r.0 < 4) × (r.1 ≡ s r.0)
unfolding Found
in_four s r (inl (e, f)) = (omega arith, f ∙ ap s (sym e))
in_four s r (inr (l, u, f)) = (omega arith, f)

highest : (s : ℕ → ℤ) (j : ℕ) → j < 4 → lt_ℤ (best_from lt_ℤ s 3 1 0 (s 0)).1 (s j) ≡ false
highest s zero h = best_keeps lt_ℤ lt_ℤ-trans lt_ℤ-irrefl s 3 1 0 (s 0) (s 0) (lt_ℤ-irrefl (s 0))
highest s (suc j) h =
    best_highest lt_ℤ lt_ℤ-trans lt_ℤ-irrefl s 3 1 0 (s 0) (suc j) (omega arith) (omega arith)

module _ (fp : Fp) where
  -- The concept that the interpreter reports is below 4, and no concept's score is above its own.
  pub interpret_lem :
      (t : Interpreter fp) (state : List fp.F) (j : ℕ)
      → j < 4
      → ((interpret fp t state).concept < 4)
        × (lt_ℤ
              (concept_score fp t state (interpret fp t state).concept)
              (concept_score fp t state j)
            ≡ false)
  unfolding interpret
  interpret_lem t state j h =
      let s = concept_score fp t state in
      let (l, e) =
        in_four s (best_from lt_ℤ s 3 1 0 (s 0))
          (best-Found lt_ℤ lt_ℤ-trans lt_ℤ-irrefl s 3 1 0 (s 0)) in
      (l, ap (λ z. lt_ℤ z (s j)) (sym e) ∙ highest s j h)
