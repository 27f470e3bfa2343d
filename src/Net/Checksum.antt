-- ===== src/Net/Checksum.antt =====
-- src/net.rs, `ipv4_checksum`: the one's complement sum of RFC 1071.
use mathlib.Core.Logic.{◌⊎◌}
use nova_exo.Base.{
  ℕ, zero, suc, ◌+◌, ◌-◌, ◌*◌, ◌/◌, ◌%◌, ◌≤◌, ◌<◌, ◌≡◌, refl, sym, ◌∙◌, ap, Bool, true, false, List,
  [], ◌∷◌, ◌++◌, append_assoc, arith, ◌==◌, if◌then◌else◌, Bool-cases, inl, inr, length, from_be,
  to_be,
}

-- The loop over the pairs of bytes, with the odd byte at the end.
unfoldable pub sum_words : List ℕ → ℕ
sum_words [] = 0
sum_words (a ∷ []) = a * 256
sum_words (a ∷ b ∷ r) = from_be a b + sum_words r

-- `while sum >> 16 != 0`, with fuel.
unfoldable pub fold_carries : ℕ → ℕ → ℕ
fold_carries zero s = s
fold_carries (suc f) s =
    let rest = fold_carries f (s % 65536 + s / 65536) in if s / 65536 == 0 then s else rest

-- `!(sum as u16)`; four rounds are enough for a 32-bit sum.
unfoldable pub ipv4_checksum : List ℕ → ℕ
ipv4_checksum hdr = 65535 - fold_carries 4 (sum_words hdr) % 65536

-- What the loop has done when it stops.
record Folded (s r : ℕ) : Type 0 where
  small : r < 65536
  carries : ℕ
  congruent : s ≡ r + 65535 * carries
  positive : 0 < s → 0 < r

-- A round of the loop.
fold_once : {s r : ℕ} → Folded (s % 65536 + s / 65536) r → Folded s r
fold_once {s} {r} h = record {
  small = h.small;
  carries = h.carries + s / 65536;
  congruent = omega (arith, h.congruent);
  positive = λ p. h.positive (omega arith);
}

fold_done : (s : ℕ) → s < 65536 → Folded s s
fold_done s h = record { small = h; carries = 0; congruent = omega arith; positive = λ p. p }

-- A 16-bit sum stops the loop; a sum below 131071 takes one round more, a 32-bit sum two.
fold_carries_16 : (f s : ℕ) → s < 65536 → Folded s (fold_carries f s)
unfolding fold_carries
fold_carries_16 zero s h = fold_done s h
fold_carries_16 (suc f) s h = ground (arith, fold_done s h)

fold_carries_17 : (f s : ℕ) → s < 131071 → Folded s (fold_carries (suc f) s)
unfolding fold_carries
fold_carries_17 f s h = elim (Bool-cases (s / 65536 == 0)) [
  | inl done ↦ rw done (fold_done s (ground arith))
  | inr more ↦ rw more (fold_once (fold_carries_16 f (s % 65536 + s / 65536) (ground arith)))
]

fold_carries_32 : (f s : ℕ) → s < 4294967296 → Folded s (fold_carries (suc (suc f)) s)
unfolding fold_carries
fold_carries_32 f s h = elim (Bool-cases (s / 65536 == 0)) [
  | inl done ↦ rw done (fold_done s (ground arith))
  | inr more ↦ rw more (fold_once (fold_carries_17 f (s % 65536 + s / 65536) (omega arith)))
]

-- Bytes below 256; the header of an IPv4 packet has 20.
abbrev pub AllBytes : List ℕ → Type 0
AllBytes [] = Unit {0}
AllBytes (b ∷ bs) = (b < 256) × AllBytes bs

sum_words-le : (xs : List ℕ) → AllBytes xs → sum_words xs ≤ 65535 * length xs
unfolding sum_words
sum_words-le [] h = omega arith
sum_words-le (a ∷ []) h = omega arith
sum_words-le (a ∷ b ∷ r) h = omega (arith, sum_words-le r h.1.1)

abbrev pub IsEven : List ℕ → Type 0
IsEven [] = Unit {0}
IsEven (a ∷ []) = ⊥
IsEven (a ∷ b ∷ r) = IsEven r

sum_words-append : (xs ys : List ℕ) → IsEven xs → sum_words (xs ++ ys) ≡ sum_words xs + sum_words ys
unfolding sum_words
sum_words-append [] ys h = omega arith
sum_words-append (a ∷ []) ys h = absurd h
sum_words-append (a ∷ b ∷ r) ys h = omega (arith, sum_words-append r ys h)

sum_words-fields :
    (xs ys : List ℕ) (c : ℕ)
    → IsEven xs
    → c < 65536
    → sum_words (xs ++ to_be c ++ ys) ≡ sum_words (xs ++ 0 ∷ 0 ∷ ys) + c
unfolding sum_words
sum_words-fields xs ys c even h =
    rw append_assoc (
      omega
        (arith, sum_words-append xs (to_be c ++ ys) even, sum_words-append xs (0 ∷ 0 ∷ ys) even))

-- Two folded sums, the second of the first sum and the complement of its fold.
complement :
    {s t f g : ℕ} → Folded s f → t ≡ s + (65535 - f % 65536) → Folded t g → 65535 - g % 65536 ≡ 0
complement a e b = omega (
  arith,
  a.small,
  a.congruent,
  b.small,
  b.congruent,
  b.positive (omega (arith, a.small, a.congruent)),
)

-- Put in the place of the zero field, the checksum makes the receiver's sum come out right: computed
-- again over the whole header it is 0.
pub ipv4_checksum_verifies :
    (xs ys : List ℕ)
    → IsEven xs
    → AllBytes (xs ++ 0 ∷ 0 ∷ ys)
    → length (xs ++ 0 ∷ 0 ∷ ys) ≤ 65534
    → ipv4_checksum (xs ++ to_be (ipv4_checksum (xs ++ 0 ∷ 0 ∷ ys)) ++ ys) ≡ 0
unfolding ipv4_checksum
ipv4_checksum_verifies xs ys even bytes l =
    let s = sum_words (xs ++ 0 ∷ 0 ∷ ys) in
    let c = 65535 - fold_carries 4 s % 65536 in
    let t = sum_words (xs ++ to_be c ++ ys) in
    let e : t ≡ s + c = sum_words-fields xs ys c even (omega arith) in
    let small : s ≤ 65535 * 65534 = omega (arith, sum_words-le (xs ++ 0 ∷ 0 ∷ ys) bytes) in
    complement (fold_carries_32 2 s (omega arith)) e (fold_carries_32 2 t (omega arith))

-- The 16-bit words of a header, added up without a bound: a byte at an even place counts 256 times.
unfoldable pub total : Bool → List ℕ → ℕ
total high [] = 0
total true (b ∷ bs) = b * 256 + total false bs
total false (b ∷ bs) = b + total true bs

sum_words-total : (xs : List ℕ) → sum_words xs ≡ total true xs
unfolding sum_words total
sum_words-total [] = refl
sum_words-total (a ∷ []) = omega arith
sum_words-total (a ∷ b ∷ r) = omega (arith, sum_words-total r)

Folded-check :
    {s f t : ℕ}
    → Folded s f
    → t ≡ s + (65535 - f % 65536)
    → (t % 65535 ≡ 0) × (65535 - f % 65536 < 65536) × ((65535 - f % 65536 < 65535) ⊎ (s ≡ 0))
Folded-check {s = s} h e = (
  omega (arith, h.small, h.congruent),
  omega arith,
  elim (Bool-cases (s == 0)) [
    | inl y ↦ inr (ground (arith, y))
    | inr n ↦ inl (omega (arith, h.small, h.positive (ground (arith, n))))
  ],
)

-- For a header of at most 65534 bytes, the checksum of the header with a zero field, at an even
-- place, is a 16-bit number that makes the sum of the header's words a multiple of 65535 when it is
-- put in the place of the field; and it is not 0xFFFF unless every word was zero.
pub ipv4_checksum_lem :
    (xs ys : List ℕ)
    → IsEven xs
    → AllBytes (xs ++ 0 ∷ 0 ∷ ys)
    → length (xs ++ 0 ∷ 0 ∷ ys) ≤ 65534
    → (total true (xs ++ to_be (ipv4_checksum (xs ++ 0 ∷ 0 ∷ ys)) ++ ys) % 65535 ≡ 0)
      × (ipv4_checksum (xs ++ 0 ∷ 0 ∷ ys) < 65536)
      × ((ipv4_checksum (xs ++ 0 ∷ 0 ∷ ys) < 65535) ⊎ (total true (xs ++ 0 ∷ 0 ∷ ys) ≡ 0))
unfolding ipv4_checksum
ipv4_checksum_lem xs ys even bytes l =
    let s = sum_words (xs ++ 0 ∷ 0 ∷ ys) in
    let c = 65535 - fold_carries 4 s % 65536 in
    let small : s ≤ 65535 * 65534 = omega (arith, sum_words-le (xs ++ 0 ∷ 0 ∷ ys) bytes) in
    let (m, b, z) =
      Folded-check (fold_carries_32 2 s (omega arith))
        (sum_words-fields xs ys c even (omega arith)) in
    (
      ap (λ t. t % 65535) (sym (sum_words-total (xs ++ to_be c ++ ys))) ∙ m,
      b,
      elim z [ inl y ↦ inl y | inr n ↦ inr (sym (sum_words-total (xs ++ 0 ∷ 0 ∷ ys)) ∙ n) ],
    )
