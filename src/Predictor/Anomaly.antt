-- ===== src/Predictor/Anomaly.antt =====
-- src/predictor.rs: when the state is to be stored.
use nova_exo.Base.{
  ℕ, zero, suc, ◌+◌, ◌≡◌, ◌≤◌, ◌<◌, refl, ap, ◌∙◌, arith, Bool, true, false, List, [], ◌∷◌, ltb,
  leb, if◌then◌else◌,
}
use nova_exo.Base.Int.{ℤ}
use nova_exo.Fp.{Fp}
use nova_exo.Inference.{Chemio}
use nova_exo.Predictor.{
  PredictiveModule, Trend, stable, rising, falling, anomaly, step, push_error, learn,
}

-- The counter after the trends of a history, the most recent first.
unfoldable pub ticks_of : List Trend → ℕ
ticks_of [] = 0
ticks_of (t ∷ hs) = anomaly t (ticks_of hs)

-- Are the last `k` trends rising?
unfoldable pub all_rising : ℕ → List Trend → Bool
all_rising zero hs = true
all_rising (suc k) [] = false
all_rising (suc k) (rising ∷ hs) = all_rising k hs
all_rising (suc k) (stable ∷ hs) = false
all_rising (suc k) (falling ∷ hs) = false

counts : (k : ℕ) (hs : List Trend) → k ≤ 255 → leb k (ticks_of hs) ≡ all_rising k hs
unfolding ticks_of all_rising anomaly
counts zero hs h = ground arith
counts (suc k) [] h = ground arith
counts (suc k) (stable ∷ hs) h = ground arith
counts (suc k) (falling ∷ hs) h = ground arith
counts (suc k) (rising ∷ hs) h = one_more k (ticks_of hs) (omega arith) ∙ counts k hs (omega arith)
  where
    one_more : (k n : ℕ) → k < 255 → leb (suc k) (if ltb n 255 then n + 1 else n) ≡ leb k n
    one_more k n l = ground arith

module _ (fp : Fp) where
  step_ticks :
      (m : PredictiveModule fp) (state actual : List ℤ) (v : Chemio fp.F)
      → ((step fp m state v actual).1.anomaly_ticks
          ≡ anomaly (step fp m state v actual).1.trend m.anomaly_ticks)
        × ((step fp m state v actual).0.anomaly_ticks ≡ (step fp m state v actual).1.anomaly_ticks)
        × ((step fp m state v actual).1.force_store
            ≡ leb 5 (step fp m state v actual).1.anomaly_ticks)
  unfolding step push_error learn
  step_ticks m state actual v = (refl, refl, refl)

  -- Where the counter of anomalies is that of a history of trends, a step puts its trend before the
  -- history, keeps the counter so, and asks for a store exactly when its trend and the four before it
  -- are all rising.
  pub step-force_store :
      (m : PredictiveModule fp) (hs : List Trend) (state actual : List ℤ) (v : Chemio fp.F)
      → m.anomaly_ticks ≡ ticks_of hs
      → ((step fp m state v actual).0.anomaly_ticks
          ≡ ticks_of ((step fp m state v actual).1.trend ∷ hs))
        × ((step fp m state v actual).1.force_store
            ≡ all_rising 5 ((step fp m state v actual).1.trend ∷ hs))
  unfolding ticks_of
  step-force_store m hs state actual v h =
      let (a, b, c) = step_ticks m state actual v in
      let n = a ∙ ap (anomaly (step fp m state v actual).1.trend) h in
      (b ∙ n, c ∙ ap (leb 5) n ∙ counts 5 ((step fp m state v actual).1.trend ∷ hs) (omega arith))
