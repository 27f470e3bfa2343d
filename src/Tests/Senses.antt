-- ===== src/Tests/Senses.antt =====
-- The senses, the memories and the decisions at concrete inputs.
use nova_exo.Base.{
  ℕ, ◌/◌, ◌<◌, ◌≡◌, ◌≢◌, ◌↔◌, ◌⊎◌, ◌++◌, refl, arith, true, false, none, some, List, [], ◌∷◌, ◌==◌,
  replicate,
}
use nova_exo.Base.Int.{pos}
use nova_exo.Fp.Toy.{naturals}
use nova_exo.Cfc.{at_rest, take_sense, tick_passed}
use nova_exo.Cfc.Withdraw.{Event, key, pf, feel_all, withdrawn, summary, reading, take_sense_lem}
use nova_exo.Cfc.Ticks.{tick_passed_again}
use nova_exo.Cfc.Esperienze.{Cells}
use nova_exo.Cfc.Pattern.{Patterns}
use nova_exo.Executive.{executive_new, step, InterpretReport, valore, preferenza_new}
use nova_exo.Executive.Choice.{step_pain}
use nova_exo.Executive.Preference.{impara_all, total, valore_lem}
use nova_exo.Predictor.{
  Trend, stable, rising, trend, trend_of, module_new, short_win, long_win, PredictiveModule,
}
use nova_exo.Predictor
use nova_exo.Predictor.Window.{push_errors, recent_from, trend_lem}
use nova_exo.Predictor.Anomaly.{step-force_store, all_rising, ticks_of}

abbrev felt : List Event
felt = pf 4096 2 ∷ key 30 ∷ []

take_sense_lem_example :
    ((take_sense (feel_all felt at_rest)).1 ≡ withdrawn felt at_rest)
    × ((take_sense (take_sense (feel_all felt at_rest)).0).1 ≡ none)
    × (reading (take_sense (feel_all felt at_rest)).0 ≡ record (summary felt at_rest) { key = 0 })
take_sense_lem_example = take_sense_lem felt at_rest refl refl (omega arith)

tick_passed_again_example :
    ((tick_passed 1013 10 (tick_passed 1007 10 1000).0).1 ≡ true) ↔ (1007 / 10 < 1013 / 10)
tick_passed_again_example =
    tick_passed_again 1007 1013 10 1000 (omega arith) (omega arith) (omega arith)

abbrev seen : List (ℕ × Cells)
seen = (5, pos 1 ∷ []) ∷ (6, pos 2 ∷ []) ∷ []

abbrev root : ℕ → ℕ
root x = x

abbrev stored : Patterns
stored = record {
  count = 2;
  head = 2;
  ticks = 5 ∷ 6 ∷ [];
  cells = (pos 1 ∷ []) ∷ (pos 2 ∷ []) ∷ [];
}

abbrev hurt : InterpretReport naturals
hurt = record { chemio = record { c = 0; u = 1; p = 0; n = 0 }; concept = 0; energy = 1 }

step_pain_example :
    (((step naturals (executive_new naturals) hurt 0 0).1.id == 2) ≡ (0 == 0))
    × ((◌≢◌ {A = ℕ} 0 0)
        ⊎ (((step naturals (executive_new naturals) hurt 0 0).0.preferenza
              ≡ preferenza_new naturals)
            × ((step naturals (executive_new naturals) hurt 0 0).0.esplora_counter ≡ 0)))
step_pain_example = step_pain naturals (executive_new naturals) hurt 0 0

valore_lem_example :
    valore naturals
      (impara_all naturals (preferenza_new naturals) 1 true 3 (true ∷ true ∷ false ∷ []))
      1
      true
      3
    ≡ some (2 / 3)
unfolding total
valore_lem_example = valore_lem naturals (true ∷ true ∷ false ∷ []) 1 3 true (omega arith)

-- Quiet errors, and then sixteen large ones.
abbrev growing : List ℕ
growing = replicate 4 0 ++ replicate 16 100

trend_lem_example : trend naturals (push_errors naturals growing (module_new naturals)) ≡ rising
unfolding recent_from
trend_lem_example = trend_lem naturals growing

abbrev worried : PredictiveModule naturals
worried = record {
  weights = [];
  biases = [];
  learning_rate = 1;
  last_error = 0;
  error_buf = replicate 128 0;
  error_idx = 0;
  error_count = 0;
  anomaly_ticks = 1;
}

one_rising : worried.anomaly_ticks ≡ ticks_of (rising ∷ [])
unfolding ticks_of Predictor.anomaly
one_rising = refl

step-force_store_example :
    ((Predictor.step naturals worried [] (record { c = 0; u = 0; p = 0; n = 0 }) []).0.anomaly_ticks
      ≡ ticks_of (
          (Predictor.step naturals worried [] (record { c = 0; u = 0; p = 0; n = 0 }) []).1.trend
          ∷ rising
          ∷ []))
    × ((Predictor.step naturals worried [] (record { c = 0; u = 0; p = 0; n = 0 }) []).1.force_store
        ≡ all_rising 5 (
            (Predictor.step naturals worried [] (record { c = 0; u = 0; p = 0; n = 0 }) []).1.trend
            ∷ rising
            ∷ []))
step-force_store_example =
    step-force_store naturals worried (rising ∷ []) [] [] (record { c = 0; u = 0; p = 0; n = 0 })
      one_rising
