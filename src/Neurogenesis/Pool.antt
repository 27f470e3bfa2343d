-- ===== src/Neurogenesis/Pool.antt =====
-- Births: their limit and the wait before them.
use nova_exo.Base.{
  ℕ, ◌+◌, ◌≤◌, ◌<◌, ◌≡◌, refl, ◌∙◌, ap, ap₂, Bool, true, false, List, [], ◌∷◌, leb, if◌then◌else◌,
  length, get_or, set, replicate, get_or-set, length-set, u32, arith, ==_refl,
}
use nova_exo.Neurogenesis.{Weights, NeuroPool, birth_check, birth_persistence}

module _ (ws : Weights) where
  open ws use {F32, W, lt, birth_error_threshold}

  -- The checks of a cell over a sequence of errors: the last state, and the answers in order.
  unfoldable pub checks : List F32 → NeuroPool ws → ℕ → NeuroPool ws × List Bool
  checks [] p cell = (p, [])
  checks (e ∷ es) p cell =
      let (p', b) = birth_check ws p cell e in let (z, bs) = checks es p' cell in (z, b ∷ bs)

  -- Every error is above the threshold.
  unfoldable pub AllHigh : List F32 → Type 0
  AllHigh [] = 0 ≤ 0
  AllHigh (e ∷ es) = (lt birth_error_threshold e ≡ true) × AllHigh es

  read_set : (xs : List ℕ) (i v : ℕ) → i < length xs → get_or (set xs i v) i 0 ≡ v
  read_set xs i v h = get_or-set xs i i v 0 h ∙ ap (λ c. if c then v else get_or xs i 0) (==_refl i)

  high_step :
      (p : NeuroPool ws) (cell : ℕ) (e : F32)
      → cell < length p.persist
      → lt birth_error_threshold e ≡ true
      → get_or p.persist cell 0 + 1 < birth_persistence
      → ((birth_check ws p cell e).1 ≡ false)
        × (get_or (birth_check ws p cell e).0.persist cell 0 ≡ get_or p.persist cell 0 + 1)
        × (length (birth_check ws p cell e).0.persist ≡ length p.persist)
  unfolding birth_check
  high_step p cell e h t l =
      rw (t, below (get_or p.persist cell 0) l)
        (
          refl,
          read_set p.persist cell (u32 (get_or p.persist cell 0 + 1)) h ∙ omega arith,
          length-set p.persist cell (u32 (get_or p.persist cell 0 + 1)),
        )
    where
      below : (n : ℕ) → n + 1 < birth_persistence → leb birth_persistence (u32 (n + 1)) ≡ false
      below n l = ground arith

  last_step :
      (p : NeuroPool ws) (cell : ℕ) (e : F32)
      → cell < length p.persist
      → lt birth_error_threshold e ≡ true
      → get_or p.persist cell 0 + 1 ≡ birth_persistence
      → ((birth_check ws p cell e).1 ≡ true)
        × (get_or (birth_check ws p cell e).0.persist cell 0 ≡ 0)
  unfolding birth_check
  last_step p cell e h t l =
      rw (t, reached (get_or p.persist cell 0) l) (refl, read_set p.persist cell 0 h)
    where
      reached : (n : ℕ) → n + 1 ≡ birth_persistence → leb birth_persistence (u32 (n + 1)) ≡ true
      reached n l = ground arith

  waiting :
      (es : List F32) (p : NeuroPool ws) (cell : ℕ)
      → cell < length p.persist
      → AllHigh es
      → get_or p.persist cell 0 + length es < birth_persistence
      → ((checks es p cell).1 ≡ replicate (length es) false)
        × (get_or (checks es p cell).0.persist cell 0 ≡ get_or p.persist cell 0 + length es)
        × (length (checks es p cell).0.persist ≡ length p.persist)
  unfolding checks AllHigh
  waiting [] p cell h a l = (refl, omega arith, refl)
  waiting (e ∷ es) p cell h (a, hs) l =
      let (quiet, n, len) = high_step p cell e h a (omega arith) in
      let (nos, ns, lens) =
        waiting es (birth_check ws p cell e).0 cell (omega (arith, len)) hs (omega (arith, n)) in
      (ap₂ (λ b bs. b ∷ bs) quiet nos, omega (arith, n, ns), lens ∙ len)

  -- From a cell whose count is 0, forty-nine checks in a row above the threshold are no birth, and
  -- the fiftieth is one and sets the count back to 0.
  pub birth_check-fiftieth :
      (es : List F32) (e : F32) (p : NeuroPool ws) (cell : ℕ)
      → cell < length p.persist
      → get_or p.persist cell 0 ≡ 0
      → length es ≡ 49
      → AllHigh es
      → lt birth_error_threshold e ≡ true
      → ((checks es p cell).1 ≡ replicate 49 false)
        × ((birth_check ws (checks es p cell).0 cell e).1 ≡ true)
        × (get_or (birth_check ws (checks es p cell).0 cell e).0.persist cell 0 ≡ 0)
  birth_check-fiftieth es e p cell h z n a t =
      let (nos, ns, lens) = waiting es p cell h a (omega arith) in
      let (birth, back) =
        last_step (checks es p cell).0 cell e (omega (arith, lens)) t (omega (arith, ns)) in
      (nos ∙ ap (λ k. replicate k false) n, birth, back)
