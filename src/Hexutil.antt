-- ===== src/Hexutil.antt =====
-- src/hexutil.rs: the hexadecimal arguments of the serial commands, read and written. A byte is a
-- number below 256, a u64 a number below 2 ^ 64.
pub mod Digits
pub mod Parse
pub mod Value
use nova_exo.Base.{
  ℕ, zero, suc, ◌+◌, ◌-◌, ◌*◌, ◌/◌, ◌%◌, ◌^◌, Bool, true, false, ◌&&◌, ◌||◌, Option, none, some,
  List, [], ◌∷◌, ◌++◌, ltb, leb, ◌==◌, if◌then◌else◌, min, length, get_or, take, drop, codes,
}

abbrev pub within : ℕ → ℕ → ℕ → Bool
within lo hi b = leb lo b && leb b hi

unfoldable pub hex_val : ℕ → Option ℕ
hex_val b =
    if within b'0' b'9' b
    then some (b - b'0')
    else if within b'a' b'f' b
    then some (b - b'a' + 10)
    else if within b'A' b'F' b
    then some (b - b'A' + 10)
    else none

-- `u8::is_ascii_whitespace`: space, tab, line feed, form feed, carriage return.
abbrev pub is_space : ℕ → Bool
is_space b = b == 32 || b == 9 || b == 10 || b == 12 || b == 13

-- The first loop: what is left of `args` from index `i`.
unfoldable pub skip_spaces : List ℕ → List ℕ
skip_spaces [] = []
skip_spaces (b ∷ bs) = if is_space b then skip_spaces bs else b ∷ bs

abbrev pub is_prefix : ℕ → ℕ → Bool
is_prefix a b = a == b'0' && (b == b'x' || b == b'X')

unfoldable pub skip_prefix : List ℕ → List ℕ
skip_prefix (a ∷ b ∷ r) = if is_prefix a b then r else a ∷ b ∷ r
skip_prefix r = r

-- `acc.checked_mul(16).and_then(|v| v.checked_add(d))`
unfoldable pub checked : ℕ → ℕ → Option ℕ
checked acc d =
    if ltb (acc * 16) (2 ^ 64) && ltb (acc * 16 + d) (2 ^ 64) then some (acc * 16 + d) else none

-- The loop over the digits.
unfoldable pub parse_digits : ℕ → List ℕ → Option ℕ
parse_digits acc [] = some acc
parse_digits acc (b ∷ bs) = elim (hex_val b) [
  | none ↦ none
  | some d ↦ elim (checked acc d) [ none ↦ none | some v ↦ parse_digits v bs ]
]

-- `i == inizio` at the end: no digit was there.
unfoldable pub parse_rest : List ℕ → Option ℕ
unfolding parse_digits
parse_rest [] = none
parse_rest (b ∷ bs) = parse_digits 0 (b ∷ bs)

unfoldable pub parse_hex64 : List ℕ → Option ℕ
unfolding skip_spaces skip_prefix parse_rest
parse_hex64 args = parse_rest (skip_prefix (skip_spaces args))

-- `CIFRE`, in capitals or not.
abbrev pub cifre : Bool → List ℕ
cifre upper = if upper then codes "0123456789ABCDEF" else codes "0123456789abcdef"

-- `CIFRE[((v >> 4 k) & 0xF) as usize]`
unfoldable pub digit : Bool → ℕ → ℕ → ℕ
digit upper v k = get_or (cifre upper) (v / 2 ^ (4 * k) % 16) 0

-- The digits at the places `k - 1` down to 0.
unfoldable pub digits : Bool → ℕ → ℕ → List ℕ
digits upper v zero = []
digits upper v (suc k) = digit upper v k ∷ digits upper v k

-- The 16 bytes of `out`.
unfoldable pub write_hex64_to : ℕ → List ℕ
write_hex64_to v = digits true v 16

-- The buffer after the loop, and the number of digits: the first `n` of the `digits` places.
unfoldable pub write_hex_digits : ℕ → ℕ → List ℕ → List ℕ × ℕ
write_hex_digits v places out =
    let m = min places 16 in
    let n = min m (length out) in (take n (digits false v m) ++ drop n out, n)

-- The loop of `write_hex_min`: `k` rounds left, with the flag `iniziato`.
unfoldable pub min_digits : Bool → ℕ → ℕ → List ℕ
min_digits started v zero = []
min_digits started v (suc k) =
    let started' = started || (if v / 2 ^ (4 * k) % 16 == 0 then false else true) in
    let rest = min_digits started' v k in if started' then digit false v k ∷ rest else rest

-- The bytes of `out` that are written.
unfoldable pub write_hex_min : ℕ → List ℕ
write_hex_min v = elim (min_digits false v 16) [ [] ↦ b'0' ∷ [] | d ∷ ds ↦ d ∷ ds ]

-- The one to three bytes that the byte is written as.
unfoldable pub write_dec_byte : ℕ → List ℕ
write_dec_byte b =
    (if leb 100 b then (b'0' + b / 100) ∷ [] else [])
    ++ ((if leb 10 b then (b'0' + b / 10 % 10) ∷ [] else []) ++ ((b'0' + b % 10) ∷ []))

unfoldable pub write_probe_digits : List ℕ → List ℕ
write_probe_digits [] = []
write_probe_digits (b ∷ bs) = write_dec_byte b ++ write_probe_digits bs
