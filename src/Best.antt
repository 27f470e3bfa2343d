-- ===== src/Best.antt =====
-- The first of the best values of a range, as the recall of src/cfc.rs and the argmax of
-- src/interpreter.rs look for it.
use nova_exo.Base.{
  ℕ, zero, suc, ◌+◌, ◌≡◌, ◌≤◌, ◌<◌, refl, sym, ap, ◌∙◌, arith, Bool, true, false, Bool-cases, ltb,
  ltb→lt, ltb→le, if◌then◌else◌, ◌⊎◌,
}
use mathlib.Core.Logic.{inl, inr}

module _ {A : Type 0} (lt : A → A → Bool) where
  -- `k` rounds from `i`, with the best so far.
  unfoldable pub best_from : (ℕ → A) → ℕ → ℕ → ℕ → A → ℕ × A
  best_from sim zero i best_idx best_sim = (best_idx, best_sim)
  best_from sim (suc k) i best_idx best_sim =
      let better = lt best_sim (sim i) in
      best_from sim k (i + 1) (if better then i else best_idx) (if better then sim i else best_sim)

  -- What the loop leaves: the best before it, or one of the values it saw.
  unfoldable pub Found : (ℕ → A) → ℕ → ℕ → ℕ → A → ℕ × A → Type 0
  Found sim k i best_idx best_sim r =
      ((r.0 ≡ best_idx) × (r.1 ≡ best_sim)) ⊎ ((i ≤ r.0) × (r.0 < i + k) × (r.1 ≡ sim r.0))

module _ {A : Type 0} (lt : A → A → Bool)
    (trans : (a b c : A) → lt a b ≡ true → lt b c ≡ true → lt a c ≡ true)
    (irrefl : (a : A) → lt a a ≡ false) where
  not_above : (b s x : A) → lt b s ≡ true → lt b x ≡ false → lt s x ≡ false
  not_above b s x p q = elim (Bool-cases (lt s x)) [
    | inl y ↦ absurd (let t = trans b s x p y in impossible (sym t ∙ q))
    | inr z ↦ z
  ]
    where
      impossible : true ≡ false → ⊥
      impossible e = cc

  pub best-Found :
      (sim : ℕ → A) (k i best_idx : ℕ) (best_sim : A)
      → Found lt sim k i best_idx best_sim (best_from lt sim k i best_idx best_sim)
  unfolding Found best_from
  best-Found sim zero i bi bs = inl (refl, refl)
  best-Found sim (suc k) i bi bs = elim (Bool-cases (lt bs (sim i))) [
    | inl y ↦
        rw (y, best_from)
          (elim (best-Found sim k (i + 1) i (sim i)) [
            | inl (e, f) ↦ inr (omega (arith, e), omega (arith, e), f ∙ ap sim (sym e))
            | inr (l, u, f) ↦ inr (omega arith, omega arith, f)
          ])
    | inr z ↦
        rw (z, best_from)
          (elim (best-Found sim k (i + 1) bi bs) [
            | inl (e, f) ↦ inl (e, f)
            | inr (l, u, f) ↦ inr (omega arith, omega arith, f)
          ])
  ]

  pub best_keeps :
      (sim : ℕ → A) (k i best_idx : ℕ) (best_sim x : A)
      → lt best_sim x ≡ false
      → lt ((best_from lt sim k i best_idx best_sim).1) x ≡ false
  unfolding best_from
  best_keeps sim zero i bi bs x h = h
  best_keeps sim (suc k) i bi bs x h = elim (Bool-cases (lt bs (sim i))) [
    | inl y ↦ rw (y, best_from) (best_keeps sim k (i + 1) i (sim i) x (not_above bs (sim i) x y h))
    | inr z ↦ rw (z, best_from) (best_keeps sim k (i + 1) bi bs x h)
  ]

  pub best_highest :
      (sim : ℕ → A) (k i best_idx : ℕ) (best_sim : A) (j : ℕ)
      → i ≤ j
      → j < i + k
      → lt ((best_from lt sim k i best_idx best_sim).1) (sim j) ≡ false
  unfolding best_from
  best_highest sim zero i bi bs j l u = absurd (omega arith)
  best_highest sim (suc k) i bi bs j l u = elim (Bool-cases (ltb i j)) [
    | inl y ↦ best_highest sim k (i + 1) _ _ j (omega (arith, ltb→lt i j y)) (omega arith)
    | inr z ↦
        let e : j ≡ i = omega (arith, ltb→le i j z) in
        rw e (elim (Bool-cases (lt bs (sim i))) [
          | inl y ↦ rw (y, best_from) (best_keeps sim k (i + 1) i (sim i) (sim i) (irrefl (sim i)))
          | inr n ↦ rw (n, best_from) (best_keeps sim k (i + 1) bi bs (sim i) n)
        ])
  ]
