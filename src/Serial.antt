-- ===== src/Serial.antt =====
-- src/serial.rs: the reader of the lines of the serial port, and the numbers in them.
pub mod Lines
pub mod Number
pub mod Fields
use nova_exo.Base.{
  ℕ, zero, suc, ◌+◌, ◌-◌, ◌*◌, Bool, true, false, not, ◌&&◌, ◌||◌, Option, none, some, List, [],
  ◌∷◌, ltb, leb, ◌==◌, if◌then◌else◌, get_or, set, take, slice, length, replicate, u32,
}
use nova_exo.Base.Int.{pos}
use nova_exo.Fp.{Fp}

abbrev pub line_cap : ℕ
line_cap = 64

pub record LineReader : Type 0 where
  pub buf : List ℕ
  pub len : ℕ
  pub has_line : Bool

abbrev pub reader_new : LineReader
reader_new = record { buf = replicate line_cap 0; len = 0; has_line = false }

-- '\n' and '\r'
abbrev pub is_end : ℕ → Bool
is_end b = b == 10 || b == 13

unfoldable pub push_byte : ℕ → LineReader → LineReader
push_byte b r =
    if r.has_line || leb line_cap r.len
    then r
    else if is_end b
    then record r { has_line = true }
    else record r { buf = set r.buf r.len b; len = r.len + 1 }

unfoldable pub consume : LineReader → LineReader
consume r = record r { len = 0; has_line = false }

unfoldable pub line : LineReader → List ℕ
line r = take r.len r.buf

unfoldable pub push_bytes : List ℕ → LineReader → LineReader
push_bytes [] r = r
push_bytes (b ∷ bs) r = push_bytes bs (push_byte b r)

abbrev pub is_ascii_digit : ℕ → Bool
is_ascii_digit b = leb b'0' b && leb b b'9'

-- `while i < s.len() && s[i].is_ascii_digit()`: the digits at `i`, with `k` bytes left, the number
-- and the power of ten, both in 32 bits, and where they end.
unfoldable pub digits : List ℕ → ℕ → ℕ → ℕ → ℕ → ℕ × ℕ × ℕ
digits s zero i n ten = (n, ten, i)
digits s (suc k) i n ten =
    let b = get_or s i 0 in
    let rest = digits s k (i + 1) (u32 (n * 10 + (b - b'0'))) (u32 (ten * 10)) in
    if is_ascii_digit b then rest else (n, ten, i)

module _ (fp : Fp) where
  open fp use {F, lit, neg, add, div, of_int}

  unfoldable pub parse_f32 : List ℕ → Option F
  parse_f32 s =
      let first = get_or s 0 0 in
      let minus = first == b'-' in
      let start = if minus || first == b'+' then 1 else 0 in
      let (int_part, t, i) = digits s (length s - start) start 0 1 in
      let dot = ltb i (length s) && get_or s i 0 == b'.' in
      let (frac, frac_div, j) = digits s (length s - (i + 1)) (i + 1) 0 1 in
      let frac_part = if dot then frac else 0 in
      let div_part = if dot then frac_div else 1 in
      let val =
        add (of_int (pos int_part)) (div (of_int (pos frac_part)) (of_int (pos div_part))) in
      if length s == 0 then none else some (if minus then neg val else val)

  -- The loop over the bytes of the line, `k` rounds and the one past the end.
  unfoldable pub fields_from : List ℕ → ℕ → ℕ → ℕ → ℕ → List F → Option (List F)
  unfolding parse_f32
  fields_from bytes zero i idx start result =
      if leb 4 idx then none else elim (parse_f32 (slice start (i - start) bytes)) [
        | none ↦ none
        | some v ↦ if idx + 1 == 4 then some (set result idx v) else none
      ]
  fields_from bytes (suc k) i idx start result =
      let same = fields_from bytes k (i + 1) idx start result in
      if get_or bytes i 0 == b','
      then if leb 4 idx then none else elim (parse_f32 (slice start (i - start) bytes)) [
        | none ↦ none
        | some v ↦ fields_from bytes k (i + 1) (idx + 1) (i + 1) (set result idx v)
      ]
      else same

  unfoldable pub parse_line : LineReader → Option (List F)
  unfolding line fields_from
  parse_line r =
      let bytes = line r in fields_from bytes (length bytes) 0 0 0 (replicate 4 (lit 0 0))
