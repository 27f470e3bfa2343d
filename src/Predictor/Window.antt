-- ===== src/Predictor/Window.antt =====
-- src/predictor.rs: the trend is that of the last errors.
use nova_exo.Base.{
  ℕ, zero, suc, ◌+◌, ◌-◌, ◌%◌, ◌<◌, ◌≤◌, ◌≡◌, refl, arith, List, [], ◌∷◌, ◌++◌, append_assoc,
  append-nil, length, length-append, length-replicate, if◌then◌else◌, ltb, get_or, min,
}
use mathlib.Core.Path.{subst}
use nova_exo.Base.Int.{pos}
use nova_exo.Fp.{Fp}
use nova_exo.Ring.{Holds, write-Holds, empty-Holds, read-Holds}
use nova_exo.Predictor.{
  PredictiveModule, module_new, push_error, sums_from, trend_of, trend, stable, rising, falling,
  err_buf, short_win, long_win,
}

module _ (fp : Fp) where
  open fp use {F, lit, add, sub, div, of_int, lt, neg}

  unfoldable pub push_errors : List F → PredictiveModule fp → PredictiveModule fp
  push_errors [] m = m
  push_errors (e ∷ es) m = push_errors es (push_error fp e m)

  record Kept (es : List F) (m : PredictiveModule fp) : Type 0 where
    idx : m.error_idx ≡ length es % 128
    count : m.error_count ≡ min (length es) 128
    errors : Holds err_buf (lit 0 0) es m.error_buf

  push-Kept :
      (es : List F) (m : PredictiveModule fp) (e : F)
      → Kept es m
      → Kept (es ++ (e ∷ [])) (push_error fp e m)
  unfolding push_error
  push-Kept es m e k = record {
    idx = omega (arith, k.idx, length-append es (e ∷ []));
    count = ground (arith, k.count, length-append es (e ∷ []));
    errors = rw k.idx (write-Holds err_buf (lit 0 0) es m.error_buf e (omega arith) k.errors);
  }

  all-Kept :
      (es qs : List F) (m : PredictiveModule fp) → Kept es m → Kept (es ++ qs) (push_errors qs m)
  unfolding push_errors
  all-Kept es [] m k = rw (append-nil es) k
  all-Kept es (q ∷ qs) m k =
      subst (λ z. Kept z (push_errors qs (push_error fp q m))) (append_assoc es (q ∷ []) qs)
        (all-Kept (es ++ (q ∷ [])) qs (push_error fp q m) (push-Kept es m q k))

  start-Kept : Kept [] (module_new fp)
  unfolding module_new
  start-Kept = record {
    idx = refl;
    count = refl;
    errors = empty-Holds err_buf (lit 0 0) _ (length-replicate err_buf (lit 0 0));
  }

  -- The error that is `i` before the last.
  abbrev pub latest : List F → ℕ → F
  latest es i = get_or es (length es - suc i) (lit 0 0)

  -- The sums over the last errors, from the most recent.
  unfoldable pub recent_from : List F → ℕ → ℕ → F → F → F × F
  recent_from es zero i long_sum short_sum = (long_sum, short_sum)
  recent_from es (suc k) i long_sum short_sum =
      let v = latest es i in
      recent_from es k (i + 1) (add long_sum v) (if ltb i 16 then add short_sum v else short_sum)

  slot_of : (n i : ℕ) → i < n → i < 128 → (n % 128 + 127 - i) % 128 ≡ (n - suc i) % 128
  slot_of n i h l = omega arith

  read-latest :
      (es : List F) (m : PredictiveModule fp) (i : ℕ)
      → Kept es m
      → i < length es
      → i < 128
      → get_or m.error_buf ((m.error_idx + (err_buf - 1) - i) % 128) (lit 0 0) ≡ latest es i
  read-latest es m i k h l = rw k.idx (
      rw (slot_of (length es) i h l) (
        read-Holds err_buf (lit 0 0) es m.error_buf (length es - suc i) k.errors (omega arith)
          (omega arith)))

  sums-recent :
      (es : List F) (m : PredictiveModule fp) (k i : ℕ) (a b : F)
      → Kept es m
      → i + k ≤ length es
      → i + k ≤ 128
      → sums_from fp m.error_buf m.error_idx k i a b ≡ recent_from es k i a b
  unfolding sums_from recent_from
  sums-recent es m zero i a b h l u = refl
  sums-recent es m (suc k) i a b h l u =
      rw (read-latest es m i h (omega arith) (omega arith))
        (sums-recent es m k (i + 1) _ _ h (omega arith) (omega arith))

  -- After any number of errors, the trend is rising if the mean of the last 16 is by more than 0.0005
  -- above the mean of the last 64, or of as many as there are, falling if it is by more than that
  -- below, and stable otherwise and with fewer than 16 errors; the errors are summed from the most
  -- recent.
  pub trend_lem :
      (es : List F)
      → trend fp (push_errors es (module_new fp)) ≡ (
          let s = recent_from es (min 64 (length es)) 0 (lit 0 0) (lit 0 0) in
          let diff =
            sub (div s.1 (of_int (pos 16))) (div s.0 (of_int (pos (min 64 (length es))))) in
          if ltb (length es) 16
          then stable
          else if lt (lit 5 4) diff
          then rising
          else if lt diff (neg (lit 5 4))
          then falling
          else stable)
  unfolding trend trend_of
  trend_lem es =
      let k = all-Kept [] es (module_new fp) start-Kept in
      let m = push_errors es (module_new fp) in
      let n : min long_win m.error_count ≡ min long_win (length es) = omega (arith, k.count) in
      let t : ltb m.error_count short_win ≡ ltb (length es) short_win = ground (arith, k.count) in
      rw (t, n)
        (rw
          (sums-recent es m (min long_win (length es)) 0 (lit 0 0) (lit 0 0) k (omega arith)
            (omega arith))
          refl)
