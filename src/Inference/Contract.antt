-- ===== src/Inference/Contract.antt =====
-- What the kernel relies on in a brain, and the brains that keep it.
use nova_exo.Base.{ℕ, zero, suc, ◌≡◌, refl, arith, true, false, some, [], ◌∷◌, ◌++◌, replicate}
use nova_exo.Fp.{Fp}
use nova_exo.Inference.{
  is_idle, Chemio, InferenceEngine, StubBrain, submit, tick, ticks, refine, stub, AnyBrain, first,
  second, any_submit, any_tick, any_output, any_state, any_brain,
}
use nova_exo.Inference.Cycle.{thought_lem}

-- An idle brain waits and accepts; a busy one refuses and is not changed; and `waits s` ticks without
-- an output after a submission come three with one, after which the brain is idle and has an answer.
pub record Contract {A : Type 0} (e : InferenceEngine A) (waits : e.S → ℕ) : Type 0 where
  pub idle_tick : (s : e.S) → is_idle (e.state s) ≡ true → e.tick s ≡ (s, false)
  pub accepts : (s : e.S) (x : Chemio A) → is_idle (e.state s) ≡ true → (e.submit s x).1 ≡ true
  pub refuses : (s : e.S) (x : Chemio A) → is_idle (e.state s) ≡ false → e.submit s x ≡ (s, false)
  pub results :
      (s : e.S) (x : Chemio A)
      → is_idle (e.state s) ≡ true
      → (ticks e.tick (suc (suc (suc (waits s)))) (e.submit s x).0).1
        ≡ replicate (waits s) false ++ (true ∷ true ∷ true ∷ [])
  pub rests :
      (s : e.S) (x : Chemio A)
      → is_idle (e.state s) ≡ true
      → is_idle (e.state (ticks e.tick (suc (suc (suc (waits s)))) (e.submit s x).0).0) ≡ true
  pub answers :
      (s : e.S) (x : Chemio A)
      → is_idle (e.state s) ≡ true
      → (y : Chemio A) × (e.output (ticks e.tick (suc (suc (suc (waits s)))) (e.submit s x).0).0
          ≡ some y)

stub_idle_tick : (fp : Fp) (s : StubBrain fp) → is_idle s.state ≡ true → tick fp s ≡ (s, false)
unfolding tick
stub_idle_tick fp s h = ground (arith, h)

stub_accepts :
    (fp : Fp) (s : StubBrain fp) (x : Chemio fp.F)
    → is_idle s.state ≡ true
    → (submit fp s x).1 ≡ true
unfolding submit
stub_accepts fp s x h = ground (arith, h)

stub_refuses :
    (fp : Fp) (s : StubBrain fp) (x : Chemio fp.F)
    → is_idle s.state ≡ false
    → submit fp s x ≡ (s, false)
unfolding submit
stub_refuses fp s x h = ground (arith, h)

-- The stub keeps the contract of a brain, with 24 ticks of waiting.
stub-Contract : (fp : Fp) → Contract (stub fp) (λ s. 24)
unfolding stub
stub-Contract fp = record {
  idle_tick = stub_idle_tick fp;
  accepts = stub_accepts fp;
  refuses = stub_refuses fp;
  results = λ s x h. rw ((thought_lem fp s x h).1) refl;
  rests = λ s x h. rw ((thought_lem fp s x h).1) refl;
  answers = λ s x h. (refine fp x, rw ((thought_lem fp s x h).1) refl);
}

module _ {A : Type 0} (e f : InferenceEngine A) where
  unfoldable pub any_waits : (e.S → ℕ) → (f.S → ℕ) → AnyBrain e.S f.S → ℕ
  any_waits m n (first b) = m b
  any_waits m n (second b) = n b

  any_ticks_first :
      (k : ℕ) (b : e.S)
      → ticks (any_tick e f) k (first b) ≡ (let r = ticks e.tick k b in (first r.0, r.1))
  unfolding ticks any_tick
  any_ticks_first zero b = refl
  any_ticks_first (suc k) b = rw (any_ticks_first k (e.tick b).0) refl

  any_ticks_second :
      (k : ℕ) (b : f.S)
      → ticks (any_tick e f) k (second b) ≡ (let r = ticks f.tick k b in (second r.0, r.1))
  unfolding ticks any_tick
  any_ticks_second zero b = refl
  any_ticks_second (suc k) b = rw (any_ticks_second k (f.tick b).0) refl

  module _ {m : e.S → ℕ} {n : f.S → ℕ} (p : Contract e m) (q : Contract f n) where
    any_idle_tick :
        (s : AnyBrain e.S f.S) → is_idle (any_state e f s) ≡ true → any_tick e f s ≡ (s, false)
    unfolding any_state any_tick
    any_idle_tick (first b) h = rw (p.idle_tick b h) refl
    any_idle_tick (second b) h = rw (q.idle_tick b h) refl

    any_accepts :
        (s : AnyBrain e.S f.S) (x : Chemio A)
        → is_idle (any_state e f s) ≡ true
        → (any_submit e f s x).1 ≡ true
    unfolding any_state any_submit
    any_accepts (first b) x h = p.accepts b x h
    any_accepts (second b) x h = q.accepts b x h

    any_refuses :
        (s : AnyBrain e.S f.S) (x : Chemio A)
        → is_idle (any_state e f s) ≡ false
        → any_submit e f s x ≡ (s, false)
    unfolding any_state any_submit
    any_refuses (first b) x h = rw (p.refuses b x h) refl
    any_refuses (second b) x h = rw (q.refuses b x h) refl

    any_results :
        (s : AnyBrain e.S f.S) (x : Chemio A)
        → is_idle (any_state e f s) ≡ true
        → (ticks (any_tick e f) (suc (suc (suc (any_waits m n s)))) (any_submit e f s x).0).1
          ≡ replicate (any_waits m n s) false ++ (true ∷ true ∷ true ∷ [])
    unfolding any_state any_submit any_waits
    any_results (first b) x h =
        rw (any_ticks_first (suc (suc (suc (m b)))) (e.submit b x).0) (p.results b x h)
    any_results (second b) x h =
        rw (any_ticks_second (suc (suc (suc (n b)))) (f.submit b x).0) (q.results b x h)

    any_rests :
        (s : AnyBrain e.S f.S) (x : Chemio A)
        → is_idle (any_state e f s) ≡ true
        → is_idle (
            any_state e f
              (ticks (any_tick e f) (suc (suc (suc (any_waits m n s)))) (any_submit e f s x).0).0)
          ≡ true
    unfolding any_state any_submit any_waits
    any_rests (first b) x h =
        rw (any_ticks_first (suc (suc (suc (m b)))) (e.submit b x).0) (p.rests b x h)
    any_rests (second b) x h =
        rw (any_ticks_second (suc (suc (suc (n b)))) (f.submit b x).0) (q.rests b x h)

    any_answers :
        (s : AnyBrain e.S f.S) (x : Chemio A)
        → is_idle (any_state e f s) ≡ true
        → (y : Chemio A) × (any_output e f
              (ticks (any_tick e f) (suc (suc (suc (any_waits m n s)))) (any_submit e f s x).0).0
            ≡ some y)
    unfolding any_state any_submit any_output any_waits
    any_answers (first b) x h =
        rw (any_ticks_first (suc (suc (suc (m b)))) (e.submit b x).0) (p.answers b x h)
    any_answers (second b) x h =
        rw (any_ticks_second (suc (suc (suc (n b)))) (f.submit b x).0) (q.answers b x h)

    unfoldable any_brain_waits : (any_brain e f).S → ℕ
    unfolding any_brain
    any_brain_waits = any_waits m n

    -- The dispatcher over two brains that keep the contract keeps it, with the waits of the brain it
    -- holds.
    any_brain-Contract : Contract (any_brain e f) any_brain_waits
    unfolding any_brain any_brain_waits
    any_brain-Contract = record {
      idle_tick = any_idle_tick;
      accepts = any_accepts;
      refuses = any_refuses;
      results = any_results;
      rests = any_rests;
      answers = any_answers;
    }
