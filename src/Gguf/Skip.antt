-- ===== src/Gguf/Skip.antt =====
-- Values of every type are skipped inside the buffer, and the nesting of arrays is no deeper than the
-- bytes allow.
use nova_exo.Base.{
  ℕ, zero, suc, ◌+◌, ◌≤◌, ◌<◌, refl, Bool, true, false, List, ◌==◌, if◌then◌else◌, arith, length,
  min,
}
use nova_exo.Gguf.{
  GgufResult, ok, fail, read_le, read_u32, read_u64, skip, read_str, skip_plain, skip_value, rounds,
  bad_type,
}
use nova_exo.Gguf.Cursor.{Moves, weaken, and_then-Moves, read_le-Moves, skip-Moves, read_str-Moves}

pub if-Moves {ℓ} :
    {A : Type ℓ} (f : A → ℕ) (buf : List ℕ) (pos n : ℕ) (b : Bool) (r s : GgufResult A)
    → Moves f buf pos n r
    → Moves f buf pos n s
    → Moves f buf pos n (if b then r else s)
if-Moves f buf pos n true r s h k = h
if-Moves f buf pos n false r s h k = k

bad_type-Moves : (buf : List ℕ) (pos vt : ℕ) → Moves (λ (p : ℕ). p) buf pos 0 (fail (bad_type vt))
unfolding Moves
bad_type-Moves buf pos vt = refl

done-Moves : (buf : List ℕ) (pos : ℕ) → pos ≤ length buf → Moves (λ (p : ℕ). p) buf pos 0 (ok pos)
unfolding Moves
done-Moves buf pos h = (omega arith, h)

module _ (utf8 : List ℕ → Bool) where
  skips :
      (n : ℕ) (buf : List ℕ) (pos : ℕ)
      → pos ≤ length buf
      → Moves (λ p. p) buf pos 0 (skip n buf pos)
  skips n buf pos h =
      weaken (λ p. p) buf pos pos 0 n (skip n buf pos) (omega arith) (skip-Moves n buf pos h)

  skip_plain-Moves :
      (buf : List ℕ) (vt pos : ℕ)
      → pos ≤ length buf
      → Moves (λ p. p) buf pos 0 (skip_plain utf8 buf vt pos)
  unfolding skip_plain
  skip_plain-Moves buf vt pos h =
      if-Moves (λ p. p) buf pos 0 _ _ _ (skips 1 buf pos h)
        (if-Moves (λ p. p) buf pos 0 _ _ _ (skips 2 buf pos h)
          (if-Moves (λ p. p) buf pos 0 _ _ _ (skips 4 buf pos h)
            (if-Moves (λ p. p) buf pos 0 _ _ _
              (weaken (λ p. p) buf pos pos 0 (8 + 0) _ (omega arith)
                (and_then-Moves (λ r. r.1) (λ p. p) buf pos 8 0 (read_str utf8 buf pos) _
                  (read_str-Moves utf8 buf pos h) (λ (s, p) le lt. done-Moves buf p lt)))
              (if-Moves (λ p. p) buf pos 0 _ _ _ (skips 8 buf pos h) (bad_type-Moves buf pos vt)))))

  rounds-Moves :
      (step : ℕ → GgufResult ℕ) (buf : List ℕ) (n pos : ℕ)
      → pos ≤ length buf
      → ((q : ℕ) → pos ≤ q → q ≤ length buf → Moves (λ p. p) buf q 0 (step q))
      → Moves (λ p. p) buf pos 0 (rounds step n pos)
  rounds-Moves step buf zero pos h k = done-Moves buf pos h
  rounds-Moves step buf (suc n) pos h k =
      and_then-Moves (λ p. p) (λ p. p) buf pos 0 0 (step pos) (rounds step n)
        (k pos (omega arith) h)
        (λ p le lt. rounds-Moves step buf n p lt (λ q a b. k q (omega arith) b))

  -- With fuel above the bytes that are left, skipping a value ends: in an error of the code, or at a
  -- position in the buffer that is no earlier. It never runs out of fuel.
  pub skip_value-Moves :
      (fuel : ℕ) (buf : List ℕ) (vt pos : ℕ)
      → pos ≤ length buf
      → length buf < pos + fuel
      → Moves (λ p. p) buf pos 0 (skip_value utf8 fuel buf vt pos)
  unfolding skip_value read_u32 read_u64
  skip_value-Moves zero buf vt pos h l = absurd (omega arith)
  skip_value-Moves (suc fuel) buf vt pos h l =
      if-Moves (λ p. p) buf pos 0 (vt == 9) _ _
        (weaken (λ p. p) buf pos pos 0 (4 + 8) _ (omega arith)
          (and_then-Moves (λ r. r.1) (λ p. p) buf pos 4 8 (read_le 4 buf pos) _
            (read_le-Moves 4 buf pos h)
            (λ (at, p) le lt.
              and_then-Moves (λ r. r.1) (λ p. p) buf p 8 0 (read_le 8 buf p) _
                (read_le-Moves 8 buf p lt)
                (λ (n, q) le' lt'.
                  rounds-Moves (skip_value utf8 fuel buf at) buf (min n 100000) q lt'
                    (λ z a b. skip_value-Moves fuel buf at z b (omega arith))))))
        (skip_plain-Moves buf vt pos h)
