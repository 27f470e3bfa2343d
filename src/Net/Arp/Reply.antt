-- ===== src/Net/Arp/Reply.antt =====
-- The ARP answer as a sequence of fields, and what a reader of it finds.
use nova_exo.Base.{
  ℕ, ◌≤◌, ◌≡◌, ◌≢◌, refl, ap, none, some, List, [], ◌∷◌, ◌++◌, arith, length, drop, to_be, equal,
  le→ltb, ◌<◌, if◌then◌else◌, Written, Written-start, Written-step,
}
use nova_exo.Net.Arp.{arp_request_for, build_arp_reply, ethertype_arp, ethertype_ipv4}

-- RFC 826 over Ethernet: the fields of a packet with the given operation.
abbrev pub arp_frame : ℕ → List ℕ → List ℕ → List ℕ → List ℕ → List ℕ → List ℕ
arp_frame oper eth_dst sender_mac sender_ip target_mac target_ip =
    eth_dst
    ++ sender_mac
    ++ to_be ethertype_arp
    ++ to_be 1
    ++ to_be ethertype_ipv4
    ++ (6 ∷ [])
    ++ (4 ∷ [])
    ++ to_be oper
    ++ sender_mac
    ++ sender_ip
    ++ target_mac
    ++ target_ip

module _ (dst our_mac our_ip peer_mac peer_ip : List ℕ) (m1 : length our_mac ≡ 6)
    (m2 : length peer_mac ≡ 6) (i1 : length our_ip ≡ 4) (i2 : length peer_ip ≡ 4)
    (room : 42 ≤ length dst) where
  reply-Written :
      Written dst
        (arp_frame 2 peer_mac our_mac our_ip peer_mac peer_ip)
        42
        (build_arp_reply dst our_mac our_ip peer_mac peer_ip).0
  unfolding build_arp_reply
  reply-Written =
      let w1 = Written-step {m = 6} peer_mac (Written-start dst) (omega arith) (omega arith) in
      let w2 = Written-step {m = 12} our_mac w1 (omega arith) (omega arith) in
      let w3 = Written-step {m = 14} (to_be ethertype_arp) w2 refl (omega arith) in
      let w4 = Written-step {m = 16} (to_be 1) w3 refl (omega arith) in
      let w5 = Written-step {m = 18} (to_be ethertype_ipv4) w4 refl (omega arith) in
      let w6 = Written-step {m = 19} (6 ∷ []) w5 refl (omega arith) in
      let w7 = Written-step {m = 20} (4 ∷ []) w6 refl (omega arith) in
      let w8 = Written-step {m = 22} (to_be 2) w7 refl (omega arith) in
      let w9 = Written-step {m = 28} our_mac w8 (omega arith) (omega arith) in
      let w10 = Written-step {m = 32} our_ip w9 (omega arith) (omega arith) in
      let w11 = Written-step {m = 38} peer_mac w10 (omega arith) (omega arith) in
      let w12 = Written-step {m = 42} peer_ip w11 (omega arith) (omega arith) in
      rw (le→ltb (length dst) 42 room) w12

  -- In a buffer of 42 bytes or more the answer is an ARP packet with operation 2 from us to the peer,
  -- followed by what the buffer held, and its length is 42.
  pub build_arp_reply-frame :
      build_arp_reply dst our_mac our_ip peer_mac peer_ip
      ≡ (arp_frame 2 peer_mac our_mac our_ip peer_mac peer_ip ++ drop 42 dst, 42)
  build_arp_reply-frame = ground (arith, reply-Written.split, reply_len)
    where
      reply_len : (build_arp_reply dst our_mac our_ip peer_mac peer_ip).1 ≡ 42
      reply_len = unfold build_arp_reply in rw (le→ltb (length dst) 42 room)

explode_four : (xs : List ℕ) → length xs ≡ 4 → (a b c d : ℕ) × (xs ≡ a ∷ b ∷ c ∷ d ∷ [])
explode_four (a ∷ b ∷ c ∷ d ∷ []) h = (a, b, c, d, refl)
explode_four [] h = absurd (omega arith)
explode_four (a ∷ []) h = absurd (omega arith)
explode_four (a ∷ b ∷ []) h = absurd (omega arith)
explode_four (a ∷ b ∷ c ∷ []) h = absurd (omega arith)
explode_four (a ∷ b ∷ c ∷ d ∷ e ∷ r) h = absurd (omega arith)

explode_six : (xs : List ℕ) → length xs ≡ 6 → (a b c d e f : ℕ) × (xs ≡ a ∷ b ∷ c ∷ d ∷ e ∷ f ∷ [])
explode_six (a ∷ b ∷ xs) h =
    let (c, d, e, f, p) = explode_four xs (omega arith) in (a, b, c, d, e, f, ap (λ t. a ∷ b ∷ t) p)
explode_six [] h = absurd (omega arith)
explode_six (a ∷ []) h = absurd (omega arith)

module _ (eth_dst sender_mac sender_ip target_mac target_ip pad our_ip : List ℕ)
    (m0 : length eth_dst ≡ 6) (m1 : length sender_mac ≡ 6) (m2 : length target_mac ≡ 6)
    (i1 : length sender_ip ≡ 4) (i2 : length target_ip ≡ 4) where
  -- A request, with whatever padding behind it, is answered to its sender exactly if it asks for our
  -- address.
  pub arp_request_for-request :
      arp_request_for (arp_frame 1 eth_dst sender_mac sender_ip target_mac target_ip ++ pad) our_ip
      ≡ (if equal target_ip our_ip then some (sender_mac, sender_ip) else none)
  unfolding arp_request_for
  arp_request_for-request =
      let (a0, a1, a2, a3, a4, a5, ea) = explode_six eth_dst m0 in
      let (b0, b1, b2, b3, b4, b5, eb) = explode_six sender_mac m1 in
      let (c0, c1, c2, c3, c4, c5, ec) = explode_six target_mac m2 in
      let (d0, d1, d2, d3, ed) = explode_four sender_ip i1 in
      let (e0, e1, e2, e3, ee) = explode_four target_ip i2 in rw (ea, eb, ec, ed, ee) (ground arith)

  -- What is not a request (operation 1) is never answered.
  pub arp_request_for-other :
      (oper : ℕ)
      → oper < 65536
      → oper ≢ 1
      → arp_request_for
          (arp_frame oper eth_dst sender_mac sender_ip target_mac target_ip ++ pad)
          our_ip
        ≡ none
  unfolding arp_request_for
  arp_request_for-other oper lt ne =
      let (a0, a1, a2, a3, a4, a5, ea) = explode_six eth_dst m0 in
      let (b0, b1, b2, b3, b4, b5, eb) = explode_six sender_mac m1 in
      let (c0, c1, c2, c3, c4, c5, ec) = explode_six target_mac m2 in
      let (d0, d1, d2, d3, ed) = explode_four sender_ip i1 in
      let (e0, e1, e2, e3, ee) = explode_four target_ip i2 in rw (ea, eb, ec, ed, ee) (ground arith)
