-- ===== src/Inference/Reach.antt =====
-- The states that the stub reaches by submissions and ticks, in any order.
use nova_exo.Base.{◌-◌, ◌≡◌, ◌≤◌, refl, arith, false, Bool-cases, sym, some, leb}
use mathlib.Core.Path.{subst}
use mathlib.Core.Logic.{inl, inr}
use nova_exo.Fp.{Fp}
use nova_exo.Inference.{
  BrainState, idle, thinking, output, is_idle, Chemio, StubBrain, new, submit, tick, refine,
  t_think,
}

module _ (fp : Fp) where
  open fp use {F}

  -- A counter is never out of its range, and what an output shows is the refined input.
  abbrev pub StateInv : StubBrain fp → BrainState → Type 0
  StateInv b idle = 0 ≤ 0
  StateInv b (thinking t) = (1 ≤ t) × (t ≤ t_think)
  StateInv b (output t) = (1 ≤ t) × (t ≤ 2) × (b.answer ≡ some (refine fp b.input))

  unfoldable pub Inv : StubBrain fp → Type 0
  Inv b = StateInv b b.state

  pub data Step : StubBrain fp → StubBrain fp → Type 0 where
    submitted : {b b' : StubBrain fp} (x : Chemio F) → (submit fp b x).0 ≡ b' → Step b b'
    ticked : {b b' : StubBrain fp} → (tick fp b).0 ≡ b' → Step b b'

  pub data Reach : StubBrain fp → Type 0 where
    start : Reach (new fp)
    next : {b b' : StubBrain fp} → Reach b → Step b b' → Reach b'

  by_state : (b b' : StubBrain fp) (s : BrainState) → b'.state ≡ s → StateInv b' s → Inv b'
  unfolding Inv
  by_state b b' s e h = subst (StateInv b') (sym e) h

  submit-Inv_at :
      (b : StubBrain fp) (x : Chemio F) (s : BrainState)
      → b.state ≡ s
      → StateInv b s
      → Inv (submit fp b x).0
  unfolding submit
  submit-Inv_at b x idle e h = by_state b _ (thinking t_think) (ground (arith, e)) (omega arith)
  submit-Inv_at b x (thinking t) e h = subst Inv (ground (arith, e)) (by_state b b (thinking t) e h)
  submit-Inv_at b x (output t) e h = subst Inv (ground (arith, e)) (by_state b b (output t) e h)

  pub submit-Inv : (b : StubBrain fp) (x : Chemio F) → Inv b → Inv (submit fp b x).0
  unfolding Inv
  submit-Inv b x h = submit-Inv_at b x b.state refl h

  tick-Inv_at : (b : StubBrain fp) (s : BrainState) → b.state ≡ s → StateInv b s → Inv (tick fp b).0
  unfolding tick
  tick-Inv_at b idle e h = subst Inv (ground (arith, e)) (by_state b b idle e h)
  tick-Inv_at b (thinking t) e (l, u) = elim (Bool-cases (leb t 1)) [
    | inl y ↦
        by_state b _ (output 2) (ground (arith, e, y))
          (omega arith, omega arith, ground (arith, e, y))
    | inr z ↦
        by_state b _ (thinking (t - 1)) (ground (arith, e, z)) (ground (arith, z), omega arith)
  ]
  tick-Inv_at b (output t) e (l, u, a) = elim (Bool-cases (leb t 1)) [
    | inl y ↦ by_state b _ idle (ground (arith, e, y)) (omega arith)
    | inr z ↦
        by_state b _ (output (t - 1)) (ground (arith, e, z))
          (ground (arith, z), omega arith, ground (arith, e, z, a))
  ]

  tick-Inv : (b : StubBrain fp) → Inv b → Inv (tick fp b).0
  unfolding Inv
  tick-Inv b h = tick-Inv_at b b.state refl h

  -- In every state that submissions and ticks reach, in any order, the ticks left are between 1 and
  -- 25 in a thought, and 1 or 2 in an output, where the answer is the refined input.
  pub Reach-Inv : (b : StubBrain fp) → Reach b → Inv b
  unfolding Inv new
  Reach-Inv b start = omega arith
  Reach-Inv b (next {b = a} r (submitted x e)) = subst Inv e (submit-Inv a x (Reach-Inv a r))
  Reach-Inv b (next {b = a} r (ticked e)) = subst Inv e (tick-Inv a (Reach-Inv a r))

  -- While a thought or an output lasts, a submission is refused and changes nothing; the input that
  -- will be answered stays.
  pub busy_lem :
      (b : StubBrain fp) (x : Chemio F) → is_idle b.state ≡ false → submit fp b x ≡ (b, false)
  unfolding submit
  busy_lem b x h = ground (arith, h)
