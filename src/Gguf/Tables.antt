-- ===== src/Gguf/Tables.antt =====
-- The loops over the metadata and the tensors stay in the buffer.
use nova_exo.Base.{
  ℕ, zero, suc, ◌+◌, ◌≤◌, refl, Bool, Option, List, ltb, arith, length, set, replicate,
}
use nova_exo.Gguf.{
  ok, fail, read_le, read_u32, read_u64, read_str, skip_value, GgufTensorInfo, Kv, read_kvs,
  read_dims, read_tensor, read_tensors, bad_tensor,
}
use nova_exo.Gguf.Cursor.{Moves, weaken, and_then-Moves, read_le-Moves, read_str-Moves}
use nova_exo.Gguf.Skip.{skip_value-Moves, if-Moves}

at_end {ℓ} :
    {A : Type ℓ} (f : A → ℕ) (a : A) (buf : List ℕ) (pos : ℕ)
    → pos ≤ f a
    → f a ≤ length buf
    → Moves f buf pos 0 (ok a)
unfolding Moves
at_end f a buf pos h l = (omega arith, l)

bad_tensor-Moves {ℓ} :
    {A : Type ℓ} (f : A → ℕ) (buf : List ℕ) (pos : ℕ) → Moves f buf pos 0 (fail bad_tensor)
unfolding Moves
bad_tensor-Moves f buf pos = refl

module _ (utf8 : List ℕ → Bool) where
  pub read_kvs-Moves :
      (buf : List ℕ) (i k pos : ℕ) (kv : Kv utf8)
      → pos ≤ length buf
      → Moves (λ (r : Kv utf8 × ℕ). r.1) buf pos 0 (read_kvs utf8 buf i k pos kv)
  unfolding read_kvs read_u32
  read_kvs-Moves buf i zero pos kv h =
      at_end (λ (r : Kv utf8 × ℕ). r.1) (kv, pos) buf pos (omega arith) h
  read_kvs-Moves buf i (suc k) pos kv h =
      weaken (λ (r : Kv utf8 × ℕ). r.1) buf pos pos 0 (8 + (4 + 0)) _ (omega arith)
        (and_then-Moves (λ r. r.1) (λ (r : Kv utf8 × ℕ). r.1) buf pos 8 (4 + 0)
          (read_str utf8 buf pos) _ (read_str-Moves utf8 buf pos h)
          (λ (key, p) le lt.
            and_then-Moves (λ r. r.1) (λ (r : Kv utf8 × ℕ). r.1) buf p 4 0 (read_le 4 buf p) _
              (read_le-Moves 4 buf p lt)
              (λ (vt, q) le' lt'.
                and_then-Moves (λ q. q) (λ (r : Kv utf8 × ℕ). r.1) buf q 0 0
                  (skip_value utf8 (suc (length buf)) buf vt q) _
                  (skip_value-Moves utf8 (suc (length buf)) buf vt q lt' (omega arith))
                  (λ z a b. read_kvs-Moves buf (i + 1) k z _ b))))

  read_dims-Moves :
      (buf : List ℕ) (d k pos : ℕ) (dims : List ℕ)
      → pos ≤ length buf
      → Moves (λ (r : List ℕ × ℕ). r.1) buf pos 0 (read_dims utf8 buf d k pos dims)
  unfolding read_dims read_u64
  read_dims-Moves buf d zero pos dims h =
      at_end (λ (r : List ℕ × ℕ). r.1) (dims, pos) buf pos (omega arith) h
  read_dims-Moves buf d (suc k) pos dims h =
      weaken (λ (r : List ℕ × ℕ). r.1) buf pos pos 0 (8 + 0) _ (omega arith)
        (and_then-Moves (λ r. r.1) (λ (r : List ℕ × ℕ). r.1) buf pos 8 0 (read_le 8 buf pos) _
          (read_le-Moves 8 buf pos h)
          (λ (v, p) le lt. read_dims-Moves buf (d + 1) k p (set dims d v) lt))

  -- A tensor takes at least 24 bytes.
  read_tensor-Moves :
      (buf : List ℕ) (pos : ℕ)
      → pos ≤ length buf
      → Moves (λ (r : GgufTensorInfo × ℕ). r.1) buf pos 0 (read_tensor utf8 buf pos)
  unfolding read_tensor read_u32 read_u64
  read_tensor-Moves buf pos h =
      weaken (λ (r : GgufTensorInfo × ℕ). r.1) buf pos pos 0 (8 + (4 + 0)) _ (omega arith)
        (and_then-Moves (λ r. r.1) (λ (r : GgufTensorInfo × ℕ). r.1) buf pos 8 (4 + 0)
          (read_str utf8 buf pos) _ (read_str-Moves utf8 buf pos h)
          (λ (name, p) le lt.
            and_then-Moves (λ r. r.1) (λ (r : GgufTensorInfo × ℕ). r.1) buf p 4 0 (read_le 4 buf p)
              _ (read_le-Moves 4 buf p lt)
              (λ (n_dims, q) le' lt'.
                if-Moves (λ (r : GgufTensorInfo × ℕ). r.1) buf q 0 (ltb 8 n_dims) _ _
                  (bad_tensor-Moves (λ (r : GgufTensorInfo × ℕ). r.1) buf q)
                  (weaken (λ (r : GgufTensorInfo × ℕ). r.1) buf q q 0 (0 + (4 + (8 + 0))) _
                    (omega arith)
                    (and_then-Moves (λ r. r.1) (λ (r : GgufTensorInfo × ℕ). r.1) buf q 0
                      (4 + (8 + 0)) (read_dims utf8 buf 0 n_dims q (replicate 8 0)) _
                      (read_dims-Moves buf 0 n_dims q (replicate 8 0) lt')
                      (λ (dims, x) a b.
                        and_then-Moves (λ r. r.1) (λ (r : GgufTensorInfo × ℕ). r.1) buf x 4 (8 + 0)
                          (read_le 4 buf x) _ (read_le-Moves 4 buf x b)
                          (λ (ty, y) c d.
                            and_then-Moves (λ r. r.1) (λ (r : GgufTensorInfo × ℕ). r.1) buf y 8 0
                              (read_le 8 buf y) _ (read_le-Moves 8 buf y d)
                              (λ (off, z) e f.
                                at_end (λ (r : GgufTensorInfo × ℕ). r.1) _ buf z (omega arith)
                                  f))))))))

  pub read_tensors-Moves :
      (buf : List ℕ) (i k pos : ℕ) (first : Option GgufTensorInfo)
      → pos ≤ length buf
      → Moves
          (λ (r : Option GgufTensorInfo × ℕ). r.1)
          buf
          pos
          0
          (read_tensors utf8 buf i k pos first)
  unfolding read_tensors
  read_tensors-Moves buf i zero pos first h =
      at_end (λ (r : Option GgufTensorInfo × ℕ). r.1) (first, pos) buf pos (omega arith) h
  read_tensors-Moves buf i (suc k) pos first h =
      and_then-Moves (λ (r : GgufTensorInfo × ℕ). r.1) (λ (r : Option GgufTensorInfo × ℕ). r.1) buf
        pos 0 0 (read_tensor utf8 buf pos) _ (read_tensor-Moves buf pos h)
        (λ (t, p) le lt. read_tensors-Moves buf (i + 1) k p _ lt)
