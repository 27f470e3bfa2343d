-- ===== src/Net/Writer.antt =====
-- src/net.rs: the writers into a buffer of bytes. None writes past the end: what does not fit is
-- dropped.
pub mod Decimal
pub mod Prefix
use nova_exo.Base.{
  ℕ, zero, suc, ◌+◌, ◌/◌, ◌%◌, ◌*◌, ◌≤◌, ◌<◌, ◌≡◌, Bool, true, false, List, [], ◌∷◌, ltb, ◌==◌,
  if◌then◌else◌, length, set, codes,
}

-- `buf` and `pos` of the writers.
pub record Out : Type 0 where
  pub buf : List ℕ
  pub pos : ℕ

unfoldable pub push : ℕ → Out → Out
push b o =
    if ltb o.pos (length o.buf) then record { buf = set o.buf o.pos b; pos = o.pos + 1 } else o

-- A loop that pushes each byte; `push_str` is this over the bytes of the text.
unfoldable pub push_all : List ℕ → Out → Out
push_all [] o = o
push_all (b ∷ bs) o = push_all bs (push b o)

-- `while v > 0` of the decimal writers: the digits go to the front of what is written of `tmp`, which
-- has room for `fuel` digits.
unfoldable pub digits_from : ℕ → ℕ → List ℕ → List ℕ
digits_from zero v acc = acc
digits_from (suc fuel) v acc =
    let rest = digits_from fuel (v / 10) ((v % 10 + b'0') ∷ acc) in if v == 0 then acc else rest

unfoldable pub write_u32_buf : ℕ → Out → Out
write_u32_buf n o = if n == 0 then push b'0' o else push_all (digits_from 12 n []) o

unfoldable pub write_u64_buf : ℕ → Out → Out
write_u64_buf n o = if n == 0 then push b'0' o else push_all (digits_from 20 n []) o

-- The f32 operations that the writer uses: a parameter, since floats are not modelled.
pub record Float : Type 1 where
  pub F32 : Type 0
  pub lt : F32 → F32 → Bool
  pub abs : F32 → F32
  pub mul : F32 → F32 → F32
  pub add : F32 → F32 → F32
  pub to_u32 : F32 → ℕ
  pub zero_f : F32
  pub ten_thousand : F32
  pub half : F32
  -- `as u32` saturates.
  pub to_u32_lt : (x : F32) → to_u32 x < 4294967296

module _ (fl : Float) where
  open fl use {F32, lt, abs, mul, add, to_u32, zero_f, ten_thousand, half}

  -- `(val.abs() * 10000.0 + 0.5) as u32`
  abbrev pub scaled : F32 → ℕ
  scaled val = to_u32 (add (mul (abs val) ten_thousand) half)

  -- The zeros before the decimals: the loops of three and of two rounds, and the single push.
  unfoldable pub pad_zeros : ℕ → Out → Out
  pad_zeros frac_part o =
      if ltb frac_part 10
      then push_all (b'0' ∷ b'0' ∷ b'0' ∷ []) o
      else if ltb frac_part 100
      then push_all (b'0' ∷ b'0' ∷ []) o
      else if ltb frac_part 1000
      then push b'0' o
      else o

  unfoldable pub write_f32_buf : F32 → Out → Out
  write_f32_buf val o =
      let v = scaled val in
      let signed = if lt val zero_f then push b'-' o else o in
      write_u32_buf (v % 10000)
        (pad_zeros (v % 10000) (push b'.' (write_u32_buf (v / 10000) signed)))
