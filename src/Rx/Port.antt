-- ===== src/Rx/Port.antt =====
-- src/rx.rs: what the consumer of the port gets: the last packet, and nothing of the one before.
use nova_exo.Base.{
  ℕ, zero, suc, ◌+◌, ◌≤◌, ◌<◌, ◌≡◌, refl, ◌∙◌, sym, ap, true, ◌&&◌, none, some, List, inl, inr,
  arith, ltb, leb, ◌==◌, if◌then◌else◌, min, length, length-set, length-take, get_or, get_or-set,
  get_or-take, list_ext, set, take, bit, low_bits,
}
use nova_exo.Fp.{Fp}
use nova_exo.Net.Arp.{arp_request_for}
use nova_exo.Rx.Payload.{
  Starts, IsUdp, byte_at, byte_at-take, normalised, or_zero, four, sig_cases, value_cases,
  Starts-small, four_cong, other,
}
use nova_exo.Rx.{
  Rx, cap, start, desc_opts1, payload_base, copy_from, in_packet, sig_byte, signature, chemio_value,
  payload_to_chemio, feed, take_packet, arp_requester,
}

length-copy_from : (d src : List ℕ) (j k : ℕ) → length (copy_from d src j k) ≡ length d
unfolding copy_from
length-copy_from d src j zero = refl
length-copy_from d src j (suc k) =
    length-copy_from (set d j (get_or src j 0)) src (j + 1) k ∙ length-set d j (get_or src j 0)

get_or-copy_from :
    (d src : List ℕ) (j k i : ℕ)
    → j + k ≤ length d
    → get_or (copy_from d src j k) i 0
      ≡ (if leb j i && ltb i (j + k) then get_or src i 0 else get_or d i 0)
unfolding copy_from
get_or-copy_from d src j zero i h = ground arith
get_or-copy_from d src j (suc k) i h =
    let d' = set d j (get_or src j 0) in
    ground (
      arith,
      length-set d j (get_or src j 0),
      get_or-set d j i (get_or src j 0) 0,
      get_or-copy_from d' src (j + 1) k i,
    )

-- The static buffer keeps its 64 bytes.
pub record IsValid (r : Rx) : Type 0 where
  pub full : length r.buf ≡ cap

pub start-IsValid : IsValid start
unfolding start
start-IsValid = omega arith

pub feed-IsValid : {r : Rx} (len : ℕ) (src : List ℕ) → IsValid r → IsValid (feed len src r)
unfolding feed
feed-IsValid {r} len src v =
    ground (arith, length-copy_from r.buf src 0 (min (min len cap) (length src)))

module _ {r : Rx} (len : ℕ) (src : List ℕ) (valid : IsValid r)
    (whole : min len cap ≤ length src) where
  fed_byte : (i : ℕ) → i < min len cap → get_or (feed len src r).buf i 0 ≡ get_or src i 0
  unfolding feed
  fed_byte i h = ground (
    arith,
    get_or-copy_from r.buf src 0 (min (min len cap) (length src)) i (omega (arith, valid.full)),
  )

  fed_base : 24 ≤ len → payload_base (feed len src r).buf ≡ payload_base src
  unfolding payload_base
  fed_base h = ground (arith, fed_byte 12, fed_byte 13, fed_byte 23)

  -- Where the payload starts in the packet: behind the UDP header, or behind the Ethernet header.
  payload_base-Starts :
      {off : ℕ} → 24 ≤ len → Starts src off → payload_base (feed len src r).buf ≡ off
  unfolding Starts IsUdp
  payload_base-Starts h (inl ((a, b, c), e)) =
      fed_base h ∙ unfold payload_base in ground (arith, a, b, c, e)
  payload_base-Starts h (inr (n, small, e)) = fed_base h ∙ other src n small ∙ sym e

  fed_in_packet :
      (idx : ℕ)
      → idx < 64
      → byte_at (take (min len cap) src) idx
        ≡ (if in_packet len idx then some (get_or (feed len src r).buf idx 0) else none)
  fed_in_packet idx h = ground (arith, byte_at-take (min len cap) src idx whole, fed_byte idx)

  fed_sig :
      (idx : ℕ)
      → idx < 64
      → sig_byte len (feed len src r).buf idx ≡ or_zero (byte_at (take (min len cap) src) idx)
  fed_sig idx h = rw (fed_in_packet idx h) (sig_cases (in_packet len idx) _)

  fed_value :
      (fp : Fp) (idx : ℕ)
      → idx < 64
      → chemio_value fp len (feed len src r).buf idx
        ≡ normalised fp (byte_at (take (min len cap) src) idx)
  fed_value fp idx h = rw (fed_in_packet idx h) (value_cases fp (in_packet len idx) _)

  fed_signature :
      (off : ℕ)
      → 24 ≤ len
      → Starts src off
      → signature len (feed len src r).buf
        ≡ four off (λ i. or_zero (byte_at (take (min len cap) src) i))
  unfolding signature four
  fed_signature off h s =
      ap (λ b. four b (sig_byte len (feed len src r).buf)) (payload_base-Starts h s)
      ∙ four_cong off _ _ (λ j k. fed_sig j (omega (arith, Starts-small src off s)))

  fed_chemio :
      (fp : Fp) (off : ℕ)
      → 24 ≤ len
      → Starts src off
      → payload_to_chemio fp len (feed len src r).buf
        ≡ four off (λ i. normalised fp (byte_at (take (min len cap) src) i))
  unfolding payload_to_chemio four
  fed_chemio fp off h s =
      ap (λ b. four b (chemio_value fp len (feed len src r).buf)) (payload_base-Starts h s)
      ∙ four_cong off _ _ (λ j k. fed_value fp j (omega (arith, Starts-small src off s)))

  -- Fed a packet of at least 24 bytes, of which the source holds the first 64 or all, a port whose
  -- buffer has its 64 bytes hands out its length and, of the first 64 bytes of
  -- this packet, the four from byte 42 if it is IPv4 (08 00 at byte 12) with UDP (17 at byte 23), from
  -- byte 14 if not, each over 255, and 0.0 where the packet has ended; whatever the port held before.
  -- The signature is these four bytes, and nothing is left waiting.
  pub take_packet-feed :
      (fp : Fp) (off : ℕ)
      → 24 ≤ len
      → Starts src off
      → ((take_packet fp (feed len src r)).1
          ≡ some (len, four off (λ i. normalised fp (byte_at (take (min len cap) src) i))))
        × ((feed len src r).last_sig ≡ four off (λ i. or_zero (byte_at (take (min len cap) src) i)))
        × ((take_packet fp (take_packet fp (feed len src r)).0).1 ≡ none)
  unfolding take_packet feed
  take_packet-feed fp off h s =
      (ap (λ c. some (len, c)) (fed_chemio fp off h s), fed_signature off h s, refl)

  -- The ARP question is read from the packet just fed, up to the 64 bytes kept.
  pub arp_requester-feed :
      (our_ip : List ℕ)
      → arp_requester our_ip (feed len src r) ≡ arp_request_for (take (min len cap) src) our_ip
  unfolding arp_requester feed
  arp_requester-feed our_ip =
      ap (λ t. arp_request_for t our_ip)
        (list_ext _ (take (min len cap) src) 0
          (omega (
            arith,
            length-take (min len cap) (feed len src r).buf,
            length-take (min len cap) src,
            (feed-IsValid len src valid).full,
          ))
          (λ i h. fed_taken i (omega (arith, length-take (min len cap) (feed len src r).buf))))
    where
      fed_taken :
          (i : ℕ)
          → i < min len cap
          → get_or (take (min len cap) (feed len src r).buf) i 0
            ≡ get_or (take (min len cap) src) i 0
      fed_taken i h =
          get_or-take (min len cap) i (feed len src r).buf 0 h
          ∙ fed_byte i h
          ∙ sym (get_or-take (min len cap) i src 0 h)

-- An armed descriptor is owned by the chip, carries the end mark exactly if it is the last of the
-- ring, and allows writes of at most 2047 bytes, one less than a buffer holds.
pub desc_opts1-fields :
    (i n : ℕ)
    → (bit (desc_opts1 i n) 31 ≡ true)
      × (bit (desc_opts1 i n) 30 ≡ (i + 1 == n))
      × (low_bits (desc_opts1 i n) 14 ≡ 2047)
      × (desc_opts1 i n < 4294967296)
unfolding desc_opts1
desc_opts1-fields i n = ground arith
