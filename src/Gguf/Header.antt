-- ===== src/Gguf/Header.antt =====
-- What a successful parse returns.
use nova_exo.Base.{
  ℕ, ◌+◌, ◌*◌, ◌/◌, ◌%◌, ◌≤◌, ◌<◌, ◌≡◌, refl, Bool, true, Option, none, List, ltb, ◌==◌,
  if◌then◌else◌, arith, length, min, Bool-cases, ==_iff,
}
use mathlib.Core.Logic.{inl, inr}
use nova_exo.Gguf.{
  GgufResult, ok, fail, and_then, read_le, read_u32, read_u64, skip, GgufHeader, GgufTensorInfo,
  GgufSummary, Kv, parse_header, parse_summary, read_kvs, read_tensors, bad_magic,
  unsupported_version,
}
use nova_exo.Gguf.Cursor.{is_real, Moves, read_le-Moves, skip-Moves}
use nova_exo.Gguf.Tables.{read_kvs-Moves, read_tensors-Moves}

-- An error of the code, or a value of which P holds.
abbrev pub Holds {ℓ} : {A : Type ℓ} → (A → Type 0) → GgufResult A → Type 0
Holds P (fail e) = is_real e ≡ true
Holds P (ok a) = P a

and_then-Holds {κ ℓ} :
    {A : Type κ} (P : A → Type 0) {B : Type ℓ} (Q : B → Type 0) (r : GgufResult A)
    (h : A → GgufResult B)
    → Holds P r
    → ((a : A) → P a → Holds Q (h a))
    → Holds Q (and_then r h)
and_then-Holds P Q (fail e) h p k = p
and_then-Holds P Q (ok a) h p k = k a p

Moves-Holds {ℓ} :
    {A : Type ℓ} (f : A → ℕ) (buf : List ℕ) (pos n : ℕ) (r : GgufResult A)
    → Moves f buf pos n r
    → Holds (λ a. (pos + n ≤ f a) × (f a ≤ length buf)) r
unfolding Moves
Moves-Holds f buf pos n (fail e) m = m
Moves-Holds f buf pos n (ok a) m = m

read_le-Holds :
    (n : ℕ) (buf : List ℕ) (pos : ℕ)
    → pos ≤ length buf
    → Holds (λ r. (pos + n ≤ r.1) × (r.1 ≤ length buf)) (read_le n buf pos)
read_le-Holds n buf pos h =
    Moves-Holds (λ r. r.1) buf pos n (read_le n buf pos) (read_le-Moves n buf pos h)

version_three :
    (v : ℕ) (r : GgufResult GgufHeader)
    → (v ≡ 3 → Holds (λ h. h.version ≡ 3) r)
    → Holds (λ h. h.version ≡ 3) (if v == 3 then r else fail (unsupported_version v))
version_three v r h = elim (Bool-cases (v == 3)) [
  | inl t ↦ rw t (h ((==_iff v 3).0 t))
  | inr f ↦ rw f refl
]

magic_ok :
    (m : ℕ) (r : GgufResult GgufHeader)
    → Holds (λ h. h.version ≡ 3) r
    → Holds (λ h. h.version ≡ 3) (if m == 0x4655_4747 then r else fail bad_magic)
magic_ok m r h = elim (Bool-cases (m == 0x4655_4747)) [ inl t ↦ rw t h | inr f ↦ rw f refl ]

-- The header of a parsed buffer has version 3.
parse_header-version : (buf : List ℕ) → Holds (λ h. h.version ≡ 3) (parse_header buf)
unfolding parse_header read_u32 read_u64
parse_header-version buf =
    and_then-Holds _ _ (read_le 4 buf 0) _ (read_le-Holds 4 buf 0 (omega arith))
      (λ (magic, p) (a, b). magic_ok magic _ (
        and_then-Holds _ _ (read_le 4 buf p) _ (read_le-Holds 4 buf p b) (λ (version, q) (c, d).
          version_three version _ (λ three.
            and_then-Holds _ _ (read_le 8 buf q) _ (read_le-Holds 8 buf q d) (λ (tc, x) (e, f).
              and_then-Holds _ _ (read_le 8 buf x) _ (read_le-Holds 8 buf x f)
                (λ (kc, y) _. three))))))

-- What a summary of `buf` promises.
unfoldable pub Sound : List ℕ → GgufSummary → Type 0
Sound buf s =
    (s.header.version ≡ 3)
    × (24 ≤ s.data_offset)
    × (s.data_offset < length buf + 32)
    × (0 < s.header.tensor_count → s.data_offset % 32 ≡ 0)

aligned :
    (t p n : ℕ)
    → 24 ≤ p
    → p ≤ n
    → (24 ≤ (if ltb 0 t then (p + 31) / 32 * 32 else p))
      × ((if ltb 0 t then (p + 31) / 32 * 32 else p) < n + 32)
      × (0 < t → (if ltb 0 t then (p + 31) / 32 * 32 else p) % 32 ≡ 0)
aligned t p n h l = (ground arith, ground arith, λ z. ground arith)

-- Parsing any buffer ends in an error of the code, or in a summary whose header has version 3 and
-- whose data offset is at least 24, less than 32 bytes past the end of the buffer at most, and a
-- multiple of 32 when there is a tensor. The nesting of arrays never exceeds the model's bound.
pub parse_summary-Sound :
    (utf8 : List ℕ → Bool) (buf : List ℕ) → Holds (Sound buf) (parse_summary utf8 buf)
unfolding parse_summary Sound
parse_summary-Sound utf8 buf =
    and_then-Holds _ _ (parse_header buf) _ (parse_header-version buf) (λ h three.
      and_then-Holds _ _ (skip 24 buf 0) _
        (Moves-Holds (λ p. p) buf 0 24 (skip 24 buf 0) (skip-Moves 24 buf 0 (omega arith)))
        (λ p (a, b).
          and_then-Holds _ _ (read_kvs utf8 buf 0 (min h.kv_count 100) p _) _
            (Moves-Holds (λ (r : Kv utf8 × ℕ). r.1) buf p 0 _
              (read_kvs-Moves utf8 buf 0 (min h.kv_count 100) p _ b))
            (λ (kv, q) (c, d).
              and_then-Holds _ _ (read_tensors utf8 buf 0 h.tensor_count q none) _
                (Moves-Holds (λ (r : Option GgufTensorInfo × ℕ). r.1) buf q 0 _
                  (read_tensors-Moves utf8 buf 0 h.tensor_count q none d))
                (λ (t, z) (e, f).
                  let (x, y, w) = aligned h.tensor_count z (length buf) (omega arith) f in
                  (three, x, y, w)))))
