-- ===== src/Nucleo/Cycle.antt =====
-- src/nucleo.rs: a cognitive cycle, from the submission to the answer.
use nova_exo.Base.{
  ℕ, zero, suc, ◌+◌, ◌-◌, ◌≡◌, ◌<◌, refl, ◌∙◌, arith, Bool, true, false, some, List, [], ◌∷◌, ◌++◌,
  leb, replicate, u64,
}
use nova_exo.Fp.{Fp}
use nova_exo.Inference.{thinking, output, is_idle, Chemio, ticks}
use nova_exo.Inference.Contract.{Contract}
use nova_exo.Nucleo.{n_layers}
use nova_exo.Nucleo.Brain.{Kernels, NucleoBrain, submit, tick, think, run_layer, finish, nucleo}

module _ (fp : Fp) (ks : Kernels fp.F) where
  open fp use {F}

  abbrev Brain : Type 0
  Brain = NucleoBrain fp ks

  submit_idle :
      (b : Brain) (v : Chemio F)
      → is_idle b.state ≡ true
      → ((submit fp ks b v).1 ≡ true)
        × ((submit fp ks b v).0.current_layer ≡ 0)
        × ((submit fp ks b v).0.state ≡ thinking n_layers)
  unfolding submit
  submit_idle b v h = rw h (refl, refl, refl)

  -- A layer changes no counter of the cycle.
  run_layer_lem :
      (b : Brain)
      → b.current_layer < n_layers
      → (run_layer fp ks b).current_layer ≡ b.current_layer + 1
  unfolding run_layer
  run_layer_lem b h = ground (arith, h)

  tick_think : (b : Brain) (t : ℕ) → b.state ≡ thinking t → tick fp ks b ≡ think fp ks b
  unfolding tick
  tick_think b t e = rw e refl

  mid :
      (b : Brain) (l : ℕ)
      → b.current_layer ≡ l
      → suc l < n_layers
      → ((think fp ks b).1 ≡ false)
        × ((think fp ks b).0.current_layer ≡ suc l)
        × ((t : ℕ) × ((think fp ks b).0.state ≡ thinking t))
  unfolding think
  mid b l e h =
      let r = run_layer fp ks (record b { total_think_ticks = u64 (b.total_think_ticks + 1) }) in
      let q : r.current_layer ≡ suc l =
        run_layer_lem (record b { total_think_ticks = u64 (b.total_think_ticks + 1) })
          (omega (arith, e))
        ∙ omega (arith, e) in
      let z : leb n_layers r.current_layer ≡ false = ground (arith, q, h) in
      rw z (refl, q, (n_layers - r.current_layer, refl))

  last :
      (b : Brain) (l : ℕ)
      → b.current_layer ≡ l
      → suc l ≡ n_layers
      → ((think fp ks b).1 ≡ true)
        × ((think fp ks b).0.state ≡ output 2)
        × ((y : Chemio F) × ((think fp ks b).0.answer ≡ some y))
  unfolding think finish
  last b l e h =
      let r = run_layer fp ks (record b { total_think_ticks = u64 (b.total_think_ticks + 1) }) in
      let q : r.current_layer ≡ suc l =
        run_layer_lem (record b { total_think_ticks = u64 (b.total_think_ticks + 1) })
          (omega (arith, e))
        ∙ omega (arith, e) in
      let z : leb n_layers r.current_layer ≡ true = ground (arith, q, h) in
      rw z (refl, refl, (_, refl))

  -- What a run of ticks promises: its results, and an idle brain with an answer.
  abbrev Ended : List Bool → Brain × List Bool → Type 0
  Ended rs r = (r.1 ≡ rs) × (is_idle r.0.state ≡ true) × ((y : Chemio F) × (r.0.answer ≡ some y))

  out_ticks :
      (b : Brain) (y : Chemio F)
      → b.state ≡ output 2
      → b.answer ≡ some y
      → Ended (true ∷ true ∷ []) (ticks (tick fp ks) 2 b)
  unfolding ticks tick
  out_ticks b y e a = rw e (refl, refl, (y, a))

  Ended-tick :
      (b : Brain) (k : ℕ) (v : Bool) (rs : List Bool)
      → (tick fp ks b).1 ≡ v
      → Ended rs (ticks (tick fp ks) k (tick fp ks b).0)
      → Ended (v ∷ rs) (ticks (tick fp ks) (suc k) b)
  unfolding ticks
  Ended-tick b k v rs e (p, q, r) = (rw (e, p) refl, q, r)

  last_ticks :
      (b : Brain) (l t : ℕ)
      → b.state ≡ thinking t
      → b.current_layer ≡ l
      → suc l ≡ n_layers
      → Ended (true ∷ true ∷ true ∷ []) (ticks (tick fp ks) 3 b)
  last_ticks b l t s e h =
      let (r, o, (y, a)) = last b l e h in
      Ended-tick b 2 true (true ∷ true ∷ []) (rw (tick_think b t s) r)
        (rw (tick_think b t s) (out_ticks (think fp ks b).0 y o a))

  cycle_run :
      (k : ℕ) (b : Brain) (l t : ℕ)
      → b.state ≡ thinking t
      → b.current_layer ≡ l
      → suc (l + k) ≡ n_layers
      → Ended
          (replicate k false ++ (true ∷ true ∷ true ∷ []))
          (ticks (tick fp ks) (suc (suc (suc k))) b)
  cycle_run zero b l t s e h = last_ticks b l t s e (omega (arith, h))
  cycle_run (suc k) b l t s e h =
      let (r, q, (u, o)) = mid b l e (omega (arith, h)) in
      Ended-tick b (suc (suc (suc k))) false (replicate k false ++ (true ∷ true ∷ true ∷ []))
        (rw (tick_think b t s) r)
        (rw (tick_think b t s) (cycle_run k (think fp ks b).0 (suc l) u o q (omega (arith, h))))

  cycle_lem :
      (b : Brain) (v : Chemio F)
      → is_idle b.state ≡ true
      → Ended
          (replicate 11 false ++ (true ∷ true ∷ true ∷ []))
          (ticks (tick fp ks) 14 (submit fp ks b v).0)
  cycle_lem b v h =
      let (_, l, s) = submit_idle b v h in cycle_run 11 (submit fp ks b v).0 0 n_layers s l refl

  idle_tick_lem : (b : Brain) → is_idle b.state ≡ true → tick fp ks b ≡ (b, false)
  unfolding tick
  idle_tick_lem b h = ground (arith, h)

  refuses_lem : (b : Brain) (v : Chemio F) → is_idle b.state ≡ false → submit fp ks b v ≡ (b, false)
  unfolding submit
  refuses_lem b v h = rw h refl

  -- The brain of twelve layers keeps the contract of a brain whatever its kernels do, errors
  -- included: 11 ticks without an output after a submission, then three with one.
  pub nucleo-Contract : Contract (nucleo fp ks) (λ b. 11)
  unfolding nucleo
  nucleo-Contract = record {
    idle_tick = idle_tick_lem;
    accepts = λ b v h. (submit_idle b v h).0;
    refuses = refuses_lem;
    results = λ b v h. (cycle_lem b v h).0;
    rests = λ b v h. (cycle_lem b v h).1;
    answers = λ b v h. (cycle_lem b v h).2;
  }
