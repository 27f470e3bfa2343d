-- ===== src/Predictor.antt =====
-- src/predictor.rs: the predictive module, its ring of errors and the anomaly that it reports.
pub mod Window
pub mod Anomaly
use nova_exo.Base.{
  ℕ, zero, suc, ◌+◌, ◌-◌, ◌*◌, ◌/◌, ◌%◌, Bool, true, false, List, [], ◌∷◌, ◌++◌, map, ltb, leb,
  if◌then◌else◌, drop, get_or, set, length, replicate, min, u8, u32,
}
use nova_exo.Base.Int.{ℤ, pos}
use nova_exo.Fp.{Fp}
use nova_exo.Inference.{Chemio}

abbrev pub pfm_out : ℕ
pfm_out = 64

abbrev pub pfm_in : ℕ
pfm_in = 68

abbrev pub err_buf : ℕ
err_buf = 128

abbrev pub short_win : ℕ
short_win = 16

abbrev pub long_win : ℕ
long_win = 64

pub data Trend : Type 0 where
  stable rising falling : Trend

unfoldable pub next_seed : ℕ → ℕ
next_seed seed = u32 (seed * 1103515245 + 12345)

-- `saturating_add(1)` on eight bits, in a rising trend.
unfoldable pub anomaly : Trend → ℕ → ℕ
anomaly rising n = if ltb n 255 then n + 1 else n
anomaly _ n = 0

module _ (fp : Fp) where
  open fp use {F, lit, neg, add, sub, mul, div, lt, of_int}

  pub record PredictiveModule : Type 0 where
    pub weights : List (List F)
    pub biases : List F
    pub learning_rate : F
    pub last_error : F
    pub error_buf : List F
    pub error_idx : ℕ
    pub error_count : ℕ
    pub anomaly_ticks : ℕ

  -- `((seed >> 16) as f32 / 65536.0 - 0.5) * scale`
  abbrev pub noise : ℕ → F → F
  noise seed scale = mul (sub (div (of_int (pos (seed / 65536))) (lit 65536 0)) (lit 5 1)) scale

  -- A row of weights from a seed, with the seed after it.
  unfoldable pub row_from : ℕ → ℕ → List F × ℕ
  unfolding next_seed
  row_from zero seed = ([], seed)
  row_from (suc k) seed =
      let s = next_seed seed in let r = row_from k s in (noise s (lit 2 2) ∷ r.0, r.1)

  unfoldable pub rows_from : ℕ → ℕ → List (List F) × List F
  unfolding next_seed row_from
  rows_from zero seed = ([], [])
  rows_from (suc k) seed =
      let row = row_from pfm_in seed in
      let s = next_seed row.1 in let r = rows_from k s in (row.0 ∷ r.0, noise s (lit 1 2) ∷ r.1)

  unfoldable pub module_new : PredictiveModule
  unfolding rows_from
  module_new =
      let r = rows_from pfm_out 42 in
      record {
        weights = r.0;
        biases = r.1;
        learning_rate = lit 1 3;
        last_error = lit 0 0;
        error_buf = replicate err_buf (lit 0 0);
        error_idx = 0;
        error_count = 0;
        anomaly_ticks = 0;
      }

  -- `& 127`, on a counter that wraps at 256.
  unfoldable pub push_error : F → PredictiveModule → PredictiveModule
  push_error err m = record m {
    error_buf = set m.error_buf m.error_idx err;
    error_idx = u8 (m.error_idx + 1) % 128;
    error_count = if ltb m.error_count 128 then m.error_count + 1 else m.error_count;
  }

  -- The loop of the trend: `k` rounds from `i`, with the sums over the long and the short window.
  unfoldable pub sums_from : List F → ℕ → ℕ → ℕ → F → F → F × F
  sums_from buf idx zero i long_sum short_sum = (long_sum, short_sum)
  sums_from buf idx (suc k) i long_sum short_sum =
      let v = get_or buf ((idx + (err_buf - 1) - i) % 128) (lit 0 0) in
      sums_from buf idx k (i + 1) (add long_sum v)
        (if ltb i short_win then add short_sum v else short_sum)

  -- The trend of the means of the two windows.
  unfoldable pub trend_of : F → F → ℕ → Trend
  trend_of long_sum short_sum long_n =
      let diff =
        sub (div short_sum (of_int (pos short_win))) (div long_sum (of_int (pos long_n))) in
      if lt (lit 5 4) diff then rising else if lt diff (neg (lit 5 4)) then falling else stable

  unfoldable pub trend : PredictiveModule → Trend
  unfolding sums_from trend_of
  trend m =
      let long_n = min long_win m.error_count in
      let s = sums_from m.error_buf m.error_idx long_n 0 (lit 0 0) (lit 0 0) in
      if ltb m.error_count short_win then stable else trend_of s.0 s.1 long_n

  abbrev pub hundredth : ℤ → F
  hundredth c = div (of_int c) (lit 100 0)

  abbrev pub concat : List F → Chemio F → List F
  concat state v = state ++ (v.c ∷ v.u ∷ v.p ∷ v.n ∷ [])

  unfoldable pub weighted : List F → List F → F → F
  weighted [] xs sum = sum
  weighted (w ∷ ws) xs sum = weighted ws (drop 1 xs) (add sum (mul w (get_or xs 0 (lit 0 0))))

  unfoldable pub outputs : List (List F) → List F → List F → List F
  outputs [] biases xs = []
  outputs (w ∷ ws) biases xs =
      weighted w xs (get_or biases 0 (lit 0 0)) ∷ outputs ws (drop 1 biases) xs

  unfoldable pub predict_f32 : PredictiveModule → List F → Chemio F → List F
  predict_f32 m state v = outputs m.weights m.biases (concat state v)

  unfoldable pub predict : PredictiveModule → List ℤ → Chemio F → List F
  unfolding predict_f32
  predict m state v = predict_f32 m (map hundredth state) v

  -- A chain of predictions, each from the one before; the places past the steps stay zero.
  unfoldable pub chain : PredictiveModule → Chemio F → ℕ → List F → List (List F)
  chain m v zero s = []
  chain m v (suc k) s = let pred = predict_f32 m s v in pred ∷ chain m v k pred

  unfoldable pub dream : PredictiveModule → List ℤ → Chemio F → ℕ → List (List F)
  unfolding chain
  dream m state v steps =
      chain m v (min steps 16) (map hundredth state)
      ++ replicate (16 - min steps 16) (replicate pfm_out (lit 0 0))

  unfoldable pub squares : List F → List F → F → F
  squares [] ys sum = sum
  squares (x ∷ xs) ys sum =
      let diff = sub x (get_or ys 0 (lit 0 0)) in squares xs (drop 1 ys) (add sum (mul diff diff))

  unfoldable pub compute_error : List F → List F → F
  unfolding squares
  compute_error predicted actual = div (squares predicted actual (lit 0 0)) (of_int (pos pfm_out))

  -- A row of weights moves against its error.
  unfoldable pub corrected : List F → List F → F → List F
  corrected [] xs step = []
  corrected (w ∷ ws) xs step =
      sub w (mul step (get_or xs 0 (lit 0 0))) ∷ corrected ws (drop 1 xs) step

  unfoldable pub learn_rows : F → List (List F) → List F → List F → List F → List (List F)
  unfolding corrected
  learn_rows alpha [] predicted actual xs = []
  learn_rows alpha (w ∷ ws) predicted actual xs =
      let delta = sub (get_or predicted 0 (lit 0 0)) (get_or actual 0 (lit 0 0)) in
      corrected w xs (mul alpha delta) ∷ learn_rows alpha ws (drop 1 predicted) (drop 1 actual) xs

  unfoldable pub learn_biases : F → List F → List F → List F → List F
  learn_biases alpha [] predicted actual = []
  learn_biases alpha (b ∷ bs) predicted actual =
      let delta = sub (get_or predicted 0 (lit 0 0)) (get_or actual 0 (lit 0 0)) in
      sub b (mul alpha delta) ∷ learn_biases alpha bs (drop 1 predicted) (drop 1 actual)

  unfoldable pub learn : PredictiveModule → List ℤ → Chemio F → List F → PredictiveModule
  unfolding predict learn_rows learn_biases
  learn m state v actual =
      let predicted = predict m state v in
      record m {
        weights =
            learn_rows m.learning_rate m.weights predicted actual (concat (map hundredth state) v);
        biases = learn_biases m.learning_rate m.biases predicted actual;
      }

  pub record PredictionReport : Type 0 where
    pub error : F
    pub alpha_mod : F
    pub trend : Trend
    pub anomaly_ticks : ℕ
    pub force_store : Bool

  unfoldable pub step :
      PredictiveModule → List ℤ → Chemio F → List ℤ → PredictiveModule × PredictionReport
  unfolding predict compute_error learn push_error trend anomaly
  step m state v actual =
      let actual_f32 = map hundredth actual in
      let error = compute_error (predict m state v) actual_f32 in
      let pushed = push_error error (learn (record m { last_error = error }) state v actual_f32) in
      let t = trend pushed in
      let ticks = anomaly t pushed.anomaly_ticks in
      (
        record pushed { anomaly_ticks = ticks },
        record {
          error = error;
          alpha_mod =
              if lt error (lit 1 3)
              then lit 5 1
              else if lt error (lit 1 2)
              then lit 1 0
              else lit 2 0;
          trend = t;
          anomaly_ticks = ticks;
          force_store = leb 5 ticks;
        },
      )
