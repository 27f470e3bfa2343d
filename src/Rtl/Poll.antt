-- ===== src/Rtl/Poll.antt =====
-- A poll of the receive ring.
use nova_exo.Base.{
  ℕ, zero, suc, ◌+◌, ◌≤◌, ◌<◌, ◌≡◌, ◌≢◌, refl, sym, ◌∙◌, ap, ap₂, true, false, List, [], ltb, ◌==◌,
  if◌then◌else◌, bit, low_bits, u32, min, length, get_or, set, take, get_or-set, length-set, arith,
  Bool-cases, ==_iff, ==_refl, ne→==,
}
use mathlib.Core.Logic.{inl, inr}
use mathlib.Core.Path.{subst}
use nova_exo.Rx.{Rx, desc_opts1, feed, err, cap}
use nova_exo.Rx.Port.{desc_opts1-fields}
use nova_exo.Rtl.{Nic, rx_desc, rx_buf_len, poll_desc, poll_from, poll_rx}

keep :
    (bufs : List (List ℕ)) (i : ℕ) (ring : List ℕ) (port : Rx)
    → bit (get_or ring i 0) 31 ≡ true
    → poll_desc bufs i (ring, port) ≡ (ring, port)
unfolding poll_desc
keep bufs i ring port t = rw t refl

-- What the port becomes when the word of a descriptor is taken.
abbrev pub taken : List ℕ → ℕ → Rx → Rx
taken buf opts1 port =
    if ltb 0 (low_bits opts1 16)
    then feed (low_bits opts1 16) (take (min (min (low_bits opts1 16) cap) rx_buf_len) buf) port
    else err port

rearm :
    (bufs : List (List ℕ)) (i : ℕ) (ring : List ℕ) (port : Rx)
    → bit (get_or ring i 0) 31 ≡ false
    → poll_desc bufs i (ring, port)
      ≡ (set ring i (desc_opts1 i rx_desc), taken (get_or bufs i []) (get_or ring i 0) port)
unfolding poll_desc
rearm bufs i ring port t = rw t refl

own_new : (i : ℕ) → bit (desc_opts1 i rx_desc) 31 ≡ true
own_new i = (desc_opts1-fields i rx_desc).0

-- One round: the ring's length stays, the descriptor is the chip's, and the others are as they were.
desc_round :
    (bufs : List (List ℕ)) (i : ℕ) (ring : List ℕ) (port : Rx)
    → i < length ring
    → (length (poll_desc bufs i (ring, port)).0 ≡ length ring)
      × (bit (get_or (poll_desc bufs i (ring, port)).0 i 0) 31 ≡ true)
      × ((j : ℕ) → j ≢ i → get_or (poll_desc bufs i (ring, port)).0 j 0 ≡ get_or ring j 0)
desc_round bufs i ring port l = elim (Bool-cases (bit (get_or ring i 0) 31)) [
  | inl t ↦ rw (keep bufs i ring port t) (refl, t, λ j n. refl)
  | inr f ↦
      let w = λ (j : ℕ). get_or-set ring i j (desc_opts1 i rx_desc) 0 l in
      rw (rearm bufs i ring port f) (
        length-set ring i (desc_opts1 i rx_desc),
        ap (λ x. bit x 31)
              (w i ∙ ap (λ c. if c then desc_opts1 i rx_desc else get_or ring i 0) (==_refl i))
            ∙ own_new i,
        λ j n. w j ∙ ap (λ c. if c then desc_opts1 i rx_desc else get_or ring j 0) (ne→== j i n),
      )
]

later : (j i : ℕ) → i ≤ j → (j == i) ≡ false → i + 1 ≤ j
later j i a n = ground arith

-- The rounds from i: before i nothing changes, and from i on every descriptor is the chip's.
rounds :
    (bufs : List (List ℕ)) (i k : ℕ) (r : List ℕ × Rx)
    → i + k ≤ length r.0
    → ((j : ℕ) → j < i → get_or (poll_from bufs i k r).0 j 0 ≡ get_or r.0 j 0)
      × ((j : ℕ) → i ≤ j → j < i + k → bit (get_or (poll_from bufs i k r).0 j 0) 31 ≡ true)
unfolding poll_from
rounds bufs i zero r l = (λ j h. refl, λ j a b. absurd (omega arith))
rounds bufs i (suc k) (ring, port) l =
    let (len, own, other) = desc_round bufs i ring port (omega arith) in
    let (before, after) =
      rounds bufs (i + 1) k (poll_desc bufs i (ring, port)) (omega (arith, len)) in
    (
      λ j h. before j (omega arith) ∙ other j (λ e. omega (arith, e)),
      λ j a b. elim (Bool-cases (j == i)) [
        | inl e ↦
            subst
              (λ x.
                bit (get_or (poll_from bufs (i + 1) k (poll_desc bufs i (ring, port))).0 x 0) 31
                ≡ true)
              (sym ((==_iff j i).0 e)) (ap (λ x. bit x 31) (before i (omega arith)) ∙ own)
        | inr n ↦ after j (later j i a n) (omega arith)
      ],
    )

-- With the receiver on and a ring of 64 descriptors, after a poll every descriptor is in the chip's
-- hands.
pub poll_rx-armed :
    (regs : ℕ → ℕ) (s : Nic)
    → s.rx_init_ok ≡ true
    → length s.ring ≡ rx_desc
    → (i : ℕ) → i < rx_desc
    → bit (get_or (poll_rx regs s).0.ring i 0) 31 ≡ true
unfolding poll_rx
poll_rx-armed regs s on len i h =
    rw on ((rounds s.bufs 0 rx_desc (s.ring, s.port) (omega arith)).1 i (omega arith) h)

-- The descriptors that the chip has given back, of `k` from index `i`.
unfoldable pub given_back : List ℕ → ℕ → ℕ → ℕ
given_back ring i zero = 0
given_back ring i (suc k) = (if bit (get_or ring i 0) 31 then 0 else 1) + given_back ring (i + 1) k

taken_count :
    (buf : List ℕ) (opts1 : ℕ) (port : Rx)
    → u32 ((taken buf opts1 port).pkts + (taken buf opts1 port).errs)
      ≡ u32 (port.pkts + port.errs + 1)
unfolding feed err
taken_count buf opts1 port = ground arith

-- Rings that agree from `i` on have given back the same.
given_back-ext :
    (ring ring' : List ℕ) (i k : ℕ)
    → ((j : ℕ) → i ≤ j → get_or ring' j 0 ≡ get_or ring j 0)
    → given_back ring' i k ≡ given_back ring i k
unfolding given_back
given_back-ext ring ring' i zero h = refl
given_back-ext ring ring' i (suc k) h =
    ap₂ (λ a b. (if bit a 31 then 0 else 1) + b) (h i (omega arith))
      (given_back-ext ring ring' (i + 1) k (λ j l. h j (omega arith)))

one_count :
    (bufs : List (List ℕ)) (i : ℕ) (ring : List ℕ) (port : Rx)
    → u32 ((poll_desc bufs i (ring, port)).1.pkts + (poll_desc bufs i (ring, port)).1.errs)
      ≡ u32 (port.pkts + port.errs + (if bit (get_or ring i 0) 31 then 0 else 1))
one_count bufs i ring port = elim (Bool-cases (bit (get_or ring i 0) 31)) [
  | inl t ↦ rw (keep bufs i ring port t, t) (omega arith)
  | inr f ↦ rw (rearm bufs i ring port f, f) (taken_count (get_or bufs i []) (get_or ring i 0) port)
]

counts :
    (bufs : List (List ℕ)) (i k : ℕ) (r : List ℕ × Rx)
    → i + k ≤ length r.0
    → u32 ((poll_from bufs i k r).1.pkts + (poll_from bufs i k r).1.errs)
      ≡ u32 (r.1.pkts + r.1.errs + given_back r.0 i k)
unfolding poll_from given_back
counts bufs i zero r l = omega arith
counts bufs i (suc k) (ring, port) l =
    let (len, own, other) = desc_round bufs i ring port (omega arith) in
    let rest = counts bufs (i + 1) k (poll_desc bufs i (ring, port)) (omega (arith, len)) in
    let same =
      given_back-ext ring (poll_desc bufs i (ring, port)).0 (i + 1) k
        (λ j h. other j (λ e. omega (arith, e))) in
    omega (arith, rest, same, one_count bufs i ring port)

-- With the receiver on and a ring of 64 descriptors, a poll counts in `pkts` or `errs` each
-- descriptor that the chip has given back, once (modulo 2^32).
pub poll_rx-counts :
    (regs : ℕ → ℕ) (s : Nic)
    → s.rx_init_ok ≡ true
    → length s.ring ≡ rx_desc
    → u32 ((poll_rx regs s).0.port.pkts + (poll_rx regs s).0.port.errs)
      ≡ u32 (s.port.pkts + s.port.errs + given_back s.ring 0 rx_desc)
unfolding poll_rx
poll_rx-counts regs s on len = rw on (counts s.bufs 0 rx_desc (s.ring, s.port) (omega arith))
