-- ===== src/Gguf.antt =====
-- src/gguf.rs: the parser of GGUF files over a cursor. A byte is a number below 256, a `usize` has 64
-- bits. `core::str::from_utf8` is a parameter: does it accept the bytes? Strings are their bytes.
pub mod Cursor
pub mod Skip
pub mod Tables
pub mod Header
use nova_exo.Base.{
  ℕ, zero, suc, ◌+◌, ◌-◌, ◌*◌, ◌/◌, ◌%◌, Bool, true, false, not, ◌&&◌, Option, none, some, List, [],
  ◌∷◌, ltb, leb, ◌==◌, if◌then◌else◌, min, length, get_or, set, replicate, slice,
}

pub data GgufError : Type 0 where
  bad_magic : GgufError
  unsupported_version : ℕ → GgufError
  buffer_too_small : GgufError
  truncated : GgufError
  bad_type : ℕ → GgufError
  bad_tensor : GgufError
  -- No error of the code: the model ran out of the depth of nested arrays it was given.
  too_deep : GgufError

pub data GgufResult {ℓ} (A : Type ℓ) : Type ℓ where
  ok : A → GgufResult A
  fail : GgufError → GgufResult A

-- `?`: go on with the value and the cursor's position, or return the error.
abbrev pub and_then {ℓ κ} :
    {A : Type ℓ} {B : Type κ} → GgufResult A → (A → GgufResult B) → GgufResult B
and_then (ok a) f = f a
and_then (fail e) f = fail e

-- The cursor is the buffer, which stays, and its position: an operation takes both, and returns the
-- new position with its value.
abbrev pub remaining : List ℕ → ℕ → ℕ
remaining buf pos = length buf - pos

-- A read of `n` bytes, little-endian.
abbrev pub from_le : List ℕ → ℕ
from_le [] = 0
from_le (b ∷ bs) = b + 256 * from_le bs

unfoldable pub read_le : ℕ → List ℕ → ℕ → GgufResult (ℕ × ℕ)
read_le n buf pos =
    if ltb (remaining buf pos) n then fail truncated else ok (from_le (slice pos n buf), pos + n)

unfoldable pub read_u8 : List ℕ → ℕ → GgufResult (ℕ × ℕ)
read_u8 buf pos =
    if ltb (remaining buf pos) 1 then fail truncated else ok (get_or buf pos 0, pos + 1)

unfoldable pub read_u32 : List ℕ → ℕ → GgufResult (ℕ × ℕ)
read_u32 buf pos = read_le 4 buf pos

unfoldable pub read_u64 : List ℕ → ℕ → GgufResult (ℕ × ℕ)
read_u64 buf pos = read_le 8 buf pos

unfoldable pub skip : ℕ → List ℕ → ℕ → GgufResult ℕ
skip n buf pos = if ltb (remaining buf pos) n then fail truncated else ok (pos + n)

pub record GgufHeader : Type 0 where
  pub version : ℕ
  pub tensor_count : ℕ
  pub kv_count : ℕ

-- `name_present` is whether the name is "tensor", not empty.
pub record GgufTensorInfo : Type 0 where
  pub name_present : Bool
  pub n_dims : ℕ
  pub dims : List ℕ
  pub tensor_type : ℕ
  pub offset : ℕ

-- `first_kv_key` is whether there is the text "(key present)".
pub record GgufSummary : Type 0 where
  pub header : GgufHeader
  pub first_kv_key : Bool
  pub first_kv_type : ℕ
  pub first_tensor : Option GgufTensorInfo
  pub data_offset : ℕ

unfoldable pub parse_header : List ℕ → GgufResult GgufHeader
parse_header buf = and_then (read_u32 buf 0) (λ (magic, p).
    if magic == 0x4655_4747
    then and_then (read_u32 buf p) (λ (version, p).
      if version == 3
      then and_then (read_u64 buf p) (λ (tensor_count, p).
        and_then (read_u64 buf p) (λ (kv_count, p).
          ok (record { version = version; tensor_count = tensor_count; kv_count = kv_count })))
      else fail (unsupported_version version))
    else fail bad_magic)

-- A loop of `n` rounds that moves the cursor.
abbrev pub rounds : (ℕ → GgufResult ℕ) → ℕ → ℕ → GgufResult ℕ
rounds step zero pos = ok pos
rounds step (suc n) pos = and_then (step pos) (rounds step n)

module _ (utf8 : List ℕ → Bool) where
  unfoldable pub read_str : List ℕ → ℕ → GgufResult (List ℕ × ℕ)
  read_str buf pos = and_then (read_u64 buf pos) (λ (len, p).
      if ltb (remaining buf p) len
      then fail truncated
      else if utf8 (slice p len buf)
      then ok (slice p len buf, p + len)
      else fail truncated)

  -- What a value of a type that is no array takes.
  unfoldable pub skip_plain : List ℕ → ℕ → ℕ → GgufResult ℕ
  skip_plain buf vt pos =
      if ltb vt 2
      then skip 1 buf pos
      else if ltb vt 4
      then skip 2 buf pos
      else if ltb vt 8
      then skip 4 buf pos
      else if vt == 8
      then and_then (read_str buf pos) (λ (s, p). ok p)
      else if leb 10 vt && leb vt 12
      then skip 8 buf pos
      else fail (bad_type vt)

  -- The recursion on nested arrays is bounded by `fuel`.
  unfoldable pub skip_value : ℕ → List ℕ → ℕ → ℕ → GgufResult ℕ
  skip_value zero buf vt pos = fail too_deep
  skip_value (suc fuel) buf vt pos =
      if vt == 9
      then and_then (read_u32 buf pos) (λ (at, p).
        and_then (read_u64 buf p) (λ (n, p). rounds (skip_value fuel buf at) (min n 100000) p))
      else skip_plain buf vt pos

  -- The values of the first KV that are kept.
  pub record Kv : Type 0 where
    pub first_kv_key : Bool
    pub first_kv_type : ℕ

  abbrev pub is_empty : List ℕ → Bool
  is_empty [] = true
  is_empty (b ∷ bs) = false

  -- The loop over the metadata: `k` rounds from round `i`. The depth of arrays is at most the bytes
  -- of the buffer.
  unfoldable pub read_kvs : List ℕ → ℕ → ℕ → ℕ → Kv → GgufResult (Kv × ℕ)
  read_kvs buf i zero pos kv = ok (kv, pos)
  read_kvs buf i (suc k) pos kv = and_then (read_str buf pos) (λ (key, p).
      and_then (read_u32 buf p) (λ (vt, p). and_then (skip_value (suc (length buf)) buf vt p) (λ p.
        read_kvs buf (i + 1) k p (
          if i == 0
          then record { first_kv_key = not (is_empty key); first_kv_type = vt }
          else kv))))

  -- The loop over the dimensions: `k` rounds from index `d`.
  unfoldable pub read_dims : List ℕ → ℕ → ℕ → ℕ → List ℕ → GgufResult (List ℕ × ℕ)
  read_dims buf d zero pos dims = ok (dims, pos)
  read_dims buf d (suc k) pos dims =
      and_then (read_u64 buf pos) (λ (v, p). read_dims buf (d + 1) k p (set dims d v))

  unfoldable pub read_tensor : List ℕ → ℕ → GgufResult (GgufTensorInfo × ℕ)
  unfolding read_dims
  read_tensor buf pos = and_then (read_str buf pos) (λ (name, p).
      and_then (read_u32 buf p) (λ (n_dims, p).
        if ltb 8 n_dims
        then fail bad_tensor
        else and_then (read_dims buf 0 n_dims p (replicate 8 0)) (λ (dims, p).
          and_then (read_u32 buf p) (λ (tensor_type, p). and_then (read_u64 buf p) (λ (offset, p).
            ok (
              record {
                name_present = not (is_empty name);
                n_dims = n_dims;
                dims = dims;
                tensor_type = tensor_type;
                offset = offset;
              },
              p,
            ))))))

  -- The loop over the tensors: `k` rounds from round `i`.
  unfoldable pub read_tensors :
      List ℕ → ℕ → ℕ → ℕ → Option GgufTensorInfo → GgufResult (Option GgufTensorInfo × ℕ)
  read_tensors buf i zero pos first = ok (first, pos)
  read_tensors buf i (suc k) pos first =
      and_then (read_tensor buf pos)
        (λ (t, p). read_tensors buf (i + 1) k p (if i == 0 then some t else first))

  unfoldable pub parse_summary : List ℕ → GgufResult GgufSummary
  unfolding read_kvs read_tensors
  parse_summary buf = and_then (parse_header buf) (λ header. and_then (skip 24 buf 0) (λ p.
      and_then
        (read_kvs buf 0 (min header.kv_count 100) p
          (record { first_kv_key = false; first_kv_type = 0 }))
        (λ (kv, p). and_then (read_tensors buf 0 header.tensor_count p none) (λ (first_tensor, p).
          ok (record {
            header = header;
            first_kv_key = kv.first_kv_key;
            first_kv_type = kv.first_kv_type;
            first_tensor = first_tensor;
            data_offset = if ltb 0 header.tensor_count then (p + 31) / 32 * 32 else p;
          })))))
