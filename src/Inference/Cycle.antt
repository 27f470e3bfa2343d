-- ===== src/Inference/Cycle.antt =====
-- A thought of the stub: how many ticks it takes and what it leaves.
use nova_exo.Base.{
  ℕ, zero, suc, ◌+◌, ◌≡◌, refl, ◌∙◌, arith, true, false, some, [], ◌∷◌, ◌++◌, replicate, u64, ap,
}
use nova_exo.Fp.{Fp}
use nova_exo.Inference.{
  idle, thinking, is_idle, Chemio, StubBrain, submit, tick, ticks, refine, t_think,
}

module _ (fp : Fp) where
  open fp use {F}

  -- The state after a thought of `k` more ticks and the two ticks of the output.
  unfoldable pub rested : ℕ → StubBrain fp → StubBrain fp
  rested k b = record b {
    state = idle;
    answer = some (refine fp b.input);
    total_think_ticks = u64 (b.total_think_ticks + k);
  }

  last_ticks :
      (b : StubBrain fp)
      → b.state ≡ thinking 1
      → ticks (tick fp) 3 b ≡ (rested 1 b, true ∷ true ∷ true ∷ [])
  unfolding ticks tick rested
  last_ticks b h = ground (arith, h)

  ticks-suc :
      (k : ℕ) (b : StubBrain fp)
      → ticks (tick fp) (suc k) b
        ≡ ((ticks (tick fp) k (tick fp b).0).0, (tick fp b).1 ∷ (ticks (tick fp) k (tick fp b).0).1)
  unfolding ticks
  ticks-suc k b = refl

  -- One tick of a thought that is not at its end.
  thought : StubBrain fp → ℕ → StubBrain fp
  thought b k = record b { total_think_ticks = u64 (b.total_think_ticks + 1); state = thinking k }

  think_step :
      (b : StubBrain fp) (k : ℕ)
      → b.state ≡ thinking (suc (suc k))
      → tick fp b ≡ (thought b (suc k), false)
  unfolding tick thought
  think_step b k e = ground (arith, e)

  think-rested :
      (b : StubBrain fp) (k : ℕ) → rested (suc k) (thought b (suc k)) ≡ rested (suc (suc k)) b
  unfolding rested thought
  think-rested b k =
      let wrap : u64 (u64 (b.total_think_ticks + 1) + suc k)
          ≡ u64 (b.total_think_ticks + suc (suc k)) =
        omega arith in
      ap
        (λ (t : ℕ). record b {
          state = idle;
          answer = some (refine fp b.input);
          total_think_ticks = t;
        })
        wrap

  think_run :
      (k : ℕ) (b : StubBrain fp)
      → b.state ≡ thinking (suc k)
      → ticks (tick fp) (suc (suc (suc k))) b
        ≡ (rested (suc k) b, replicate k false ++ (true ∷ true ∷ true ∷ []))
  unfolding thought
  think_run zero b h = last_ticks b h
  think_run (suc k) b h =
      ticks-suc (suc (suc (suc k))) b
      ∙ rw (think_step b k h, think_run k (thought b (suc k)) refl, think-rested b k) refl

  asked : StubBrain fp → Chemio F → StubBrain fp
  asked b x = record b { input = x; state = thinking t_think }

  submit_idle :
      (b : StubBrain fp) (x : Chemio F) → is_idle b.state ≡ true → submit fp b x ≡ (asked b x, true)
  unfolding submit asked
  submit_idle b x h = ground (arith, h)

  -- A submission to an idle stub is accepted. The first 24 ticks after it give no output, the next
  -- three report one, and then the stub is idle again, with the refined input as its answer and 25
  -- more ticks of thought counted, in 64 bits.
  pub thought_lem :
      (b : StubBrain fp) (x : Chemio F)
      → is_idle b.state ≡ true
      → (submit fp b x ≡ ((submit fp b x).0, true))
        × (ticks (tick fp) 27 (submit fp b x).0 ≡ (
          record b {
            state = idle;
            input = x;
            answer = some (refine fp x);
            total_think_ticks = u64 (b.total_think_ticks + 25);
          },
          replicate 24 false ++ (true ∷ true ∷ true ∷ []),
        ))
  unfolding rested asked
  thought_lem b x h = rw (submit_idle b x h) (refl, think_run 24 (asked b x) refl)
