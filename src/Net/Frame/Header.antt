-- ===== src/Net/Frame/Header.antt =====
-- The headers that `build_state_frame` leaves in front of the payload.
use nova_exo.Base.{
  ℕ, ◌+◌, ◌/◌, ◌%◌, ◌≤◌, ◌≡◌, refl, ap, ◌∙◌, List, [], ◌∷◌, ◌++◌, append_assoc, arith, u16, length,
  length-append, drop, to_be, write_at, write_at-middle, slice-middle, Written, Written-start,
  Written-step,
}
use nova_exo.Net.Checksum.{ipv4_checksum, ipv4_checksum_verifies}
use nova_exo.Net.Frame.{
  udp_port, dst_ip, src_ip, dst_mac, ethertype_ipv4, write_ip, write_checksum, write_udp,
}

-- The fields of the IPv4 header before and behind the checksum, for a payload of the given length.
abbrev pub ip_front : ℕ → List ℕ
ip_front n =
    0x45
    ∷ 0x00
    ∷ u16 (20 + 8 + n) / 256 % 256
    ∷ u16 (20 + 8 + n) % 256
    ∷ 0
    ∷ 0
    ∷ 0x40
    ∷ 0x00
    ∷ 64
    ∷ 17
    ∷ []

abbrev pub ip_back : List ℕ
ip_back = src_ip ++ dst_ip

-- The IPv4 header, with its checksum.
abbrev pub ip_header : ℕ → List ℕ
ip_header n = ip_front n ++ to_be (ipv4_checksum (ip_front n ++ 0 ∷ 0 ∷ ip_back)) ++ ip_back

abbrev pub udp_header : ℕ → List ℕ
udp_header n = to_be udp_port ++ to_be udp_port ++ to_be (u16 (8 + n)) ++ 0 ∷ 0 ∷ []

abbrev pub eth_header : List ℕ → List ℕ
eth_header src_mac = dst_mac ++ src_mac ++ to_be ethertype_ipv4

-- The receiver's check of the IPv4 header succeeds for every length of the payload.
pub ip_header_verifies : (n : ℕ) → ipv4_checksum (ip_header n) ≡ 0
ip_header_verifies n = ipv4_checksum_verifies (ip_front n) ip_back tt (omega arith) (omega arith)

abbrev zero_field : List ℕ
zero_field = 0 ∷ 0 ∷ []

module _ (src_mac : List ℕ) (n : ℕ) (d : List ℕ) (mac : length src_mac ≡ 6)
    (room : 42 ≤ length d) where
  length-eth_header : length (eth_header src_mac) ≡ 14
  length-eth_header = omega (arith, length-append src_mac (to_be ethertype_ipv4))

  write_ip-header :
      write_ip src_mac n d
      ≡ eth_header src_mac ++ (ip_front n ++ zero_field ++ ip_back) ++ drop 34 d
  unfolding write_ip
  write_ip-header =
      let w1 = Written-step {m = 6} dst_mac (Written-start d) refl (omega arith) in
      let w2 = Written-step {m = 12} src_mac w1 (omega arith) (omega arith) in
      let w3 = Written-step {m = 14} (to_be ethertype_ipv4) w2 refl (omega arith) in
      let w4 = Written-step {m = 15} (0x45 ∷ []) w3 refl (omega arith) in
      let w5 = Written-step {m = 16} (0x00 ∷ []) w4 refl (omega arith) in
      let w6 = Written-step {m = 18} (to_be (u16 (20 + 8 + n))) w5 refl (omega arith) in
      let w7 = Written-step {m = 20} zero_field w6 refl (omega arith) in
      let w8 = Written-step {m = 22} (0x40 ∷ 0x00 ∷ []) w7 refl (omega arith) in
      let w9 = Written-step {m = 23} (64 ∷ []) w8 refl (omega arith) in
      let w10 = Written-step {m = 24} (17 ∷ []) w9 refl (omega arith) in
      let w11 = Written-step {m = 26} zero_field w10 refl (omega arith) in
      let w12 = Written-step {m = 30} src_ip w11 refl (omega arith) in
      let w13 = Written-step {m = 34} dst_ip w12 refl (omega arith) in w13.split ∙ simp append_assoc

  write_checksum-header :
      write_checksum (eth_header src_mac ++ (ip_front n ++ zero_field ++ ip_back) ++ drop 34 d)
      ≡ eth_header src_mac ++ ip_header n ++ drop 34 d
  unfolding write_checksum
  write_checksum-header =
      let e = eth_header src_mac in
      let h = ip_front n ++ zero_field ++ ip_back in
      let r = drop 34 d in
      let sum = ipv4_checksum h in
      ap (λ t. write_at (e ++ h ++ r) 24 (to_be (ipv4_checksum t)))
        (slice-middle e h r 14 20 length-eth_header refl)
      ∙ regroup
      ∙ write_at-middle (e ++ ip_front n) zero_field (ip_back ++ r) (to_be sum) 24
          (omega (arith, length-append e (ip_front n), length-eth_header)) refl
      ∙ simp append_assoc
    where
      regroup :
          write_at
            (eth_header src_mac ++ (ip_front n ++ zero_field ++ ip_back) ++ drop 34 d)
            24
            (to_be (ipv4_checksum (ip_front n ++ zero_field ++ ip_back)))
          ≡ write_at
              (eth_header src_mac ++ ip_front n ++ zero_field ++ (ip_back ++ drop 34 d))
              24
              (to_be (ipv4_checksum (ip_front n ++ zero_field ++ ip_back)))
      regroup = simp append_assoc

  -- The three headers, then what stood behind them.
  pub write_headers :
      write_udp n (write_checksum (write_ip src_mac n d))
      ≡ (eth_header src_mac ++ ip_header n ++ udp_header n) ++ drop 42 d
  unfolding write_udp
  write_headers =
      let w0 : Written d (eth_header src_mac ++ ip_header n) 34
          (write_checksum (write_ip src_mac n d)) =
        record {
          split = ap write_checksum write_ip-header ∙ write_checksum-header;
          len = omega (arith, length-append (eth_header src_mac) (ip_header n), length-eth_header);
        } in
      let w1 = Written-step {m = 36} (to_be udp_port) w0 refl (omega arith) in
      let w2 = Written-step {m = 38} (to_be udp_port) w1 refl (omega arith) in
      let w3 = Written-step {m = 40} (to_be (u16 (8 + n))) w2 refl (omega arith) in
      let w4 = Written-step {m = 42} zero_field w3 refl (omega arith) in
      w4.split ∙ simp append_assoc
