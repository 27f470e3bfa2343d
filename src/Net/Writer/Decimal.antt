-- ===== src/Net/Writer/Decimal.antt =====
-- The text of a number: its digits read back as the number, and the writer's array is long enough.
use nova_exo.Base.{
  ℕ, zero, suc, ◌+◌, ◌-◌, ◌*◌, ◌/◌, ◌%◌, ◌^◌, ◌≤◌, ◌<◌, ◌≡◌, ◌∙◌, ap, ◌&&◌, Option, none, some,
  List, [], ◌∷◌, arith, leb, ◌==◌, if◌then◌else◌, Bool-cases, inl, inr, length,
}
use nova_exo.Net.Writer.{Out, push_all, digits_from, write_u32_buf, write_u64_buf}
use native.Mathlib.Nat.{pow-suc}

-- A reader of decimal numbers.
abbrev pub read_from : ℕ → List ℕ → Option ℕ
read_from acc [] = some acc
read_from acc (c ∷ cs) =
    let rest = read_from (acc * 10 + (c - b'0')) cs in
    if leb b'0' c && leb c b'9' then rest else none

-- The text that the writers push.
unfoldable pub decimal : ℕ → ℕ → List ℕ
decimal fuel n = if n == 0 then b'0' ∷ [] else digits_from fuel n []

pub write_u32_buf-decimal : (n : ℕ) (o : Out) → write_u32_buf n o ≡ push_all (decimal 12 n) o
unfolding write_u32_buf push_all decimal
write_u32_buf-decimal n o = ground arith

pub write_u64_buf-decimal : (n : ℕ) (o : Out) → write_u64_buf n o ≡ push_all (decimal 20 n) o
unfolding write_u64_buf push_all decimal
write_u64_buf-decimal n o = ground arith

read_digit : (v : ℕ) (acc : List ℕ) → read_from (v / 10) ((v % 10 + b'0') ∷ acc) ≡ read_from v acc
read_digit v acc = let same : v / 10 * 10 + (v % 10 + b'0' - b'0') ≡ v = omega arith in ground arith

read_from-digits_from :
    (fuel v : ℕ) (acc : List ℕ)
    → v < 10 ^ fuel
    → read_from 0 (digits_from fuel v acc) ≡ read_from v acc
unfolding digits_from
read_from-digits_from zero v acc h = ap (λ k. read_from k acc) (omega arith)
read_from-digits_from (suc fuel) v acc h = elim (Bool-cases (v == 0)) [
  | inl done ↦ ground arith
  | inr more ↦ rw more (
      read_from-digits_from fuel (v / 10) ((v % 10 + b'0') ∷ acc) (omega (arith, pow-suc 10 fuel))
      ∙ read_digit v acc)
]

length-digits_from :
    (fuel k v : ℕ) (acc : List ℕ) → v < 10 ^ k → length (digits_from fuel v acc) ≤ k + length acc
unfolding digits_from
length-digits_from zero k v acc h = omega arith
length-digits_from (suc fuel) zero v acc h = ground arith
length-digits_from (suc fuel) (suc k) v acc h = ground (
  arith,
  pow-suc 10 k,
  length-digits_from fuel k (v / 10) ((v % 10 + b'0') ∷ acc) (omega (arith, pow-suc 10 k)),
)

-- The text of a number that has at most as many digits as the array has places reads back as the
-- number.
pub read_from-decimal : (fuel n : ℕ) → n < 10 ^ fuel → read_from 0 (decimal fuel n) ≡ some n
unfolding decimal
read_from-decimal fuel n h = ground (arith, read_from-digits_from fuel n [] h)

-- The arrays of 12 and of 20 places are never too small: a u32 has at most 10 digits, a u64 at most
-- 20.
pub length-decimal :
    (n : ℕ)
    → (n < 4294967296 → length (decimal 12 n) ≤ 10)
      × (n < 18446744073709551616 → length (decimal 20 n) ≤ 20)
unfolding decimal
length-decimal n = (
  λ h. ground (arith, length-digits_from 12 10 n [] (omega arith)),
  λ h. ground (arith, length-digits_from 20 20 n [] (omega arith)),
)
