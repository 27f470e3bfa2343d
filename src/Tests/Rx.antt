-- ===== src/Tests/Rx.antt =====
-- A UDP packet through the entrance port.
use nova_exo.Base.{
  ℕ, ◌+◌, ◌≡◌, refl, true, some, none, List, [], ◌∷◌, ◌++◌, arith, replicate, take, bit, low_bits,
  ◌==◌, ◌<◌, min, inl,
}
use nova_exo.Fp.Toy.{naturals}
use nova_exo.Net.Arp.{arp_request_for}
use nova_exo.Rx.{start, feed, take_packet, arp_requester, desc_opts1, cap}
use nova_exo.Rx.Payload.{Starts, IsUdp, byte_at, normalised, or_zero, four}
use nova_exo.Rx.Port.{
  start-IsValid, feed-IsValid, take_packet-feed, arp_requester-feed, desc_opts1-fields,
}

abbrev packet : List ℕ
packet =
    replicate 12 0
    ++ (0x08
        ∷ 0x00
        ∷ (replicate 9 0 ++ (17 ∷ (replicate 18 0 ++ (9 ∷ 8 ∷ 7 ∷ 6 ∷ replicate 20 1)))))

packet_udp : Starts packet 42
unfolding Starts IsUdp
packet_udp = inl ((refl, refl, refl), refl)

-- The port already held another packet.
take_packet-feed_example :
    ((take_packet naturals (feed 66 packet (feed 60 (replicate 60 8) start))).1
      ≡ some (66, four 42 (λ i. normalised naturals (byte_at (take (min 66 cap) packet) i))))
    × ((feed 66 packet (feed 60 (replicate 60 8) start)).last_sig
        ≡ four 42 (λ i. or_zero (byte_at (take (min 66 cap) packet) i)))
    × ((take_packet naturals
          (take_packet naturals (feed 66 packet (feed 60 (replicate 60 8) start))).0).1
        ≡ none)
take_packet-feed_example =
    take_packet-feed 66 packet (feed-IsValid 60 (replicate 60 8) start-IsValid) (omega arith)
      naturals 42 (omega arith) packet_udp

arp_requester-feed_example :
    arp_requester (192 ∷ 168 ∷ 0 ∷ 200 ∷ []) (feed 66 packet start)
    ≡ arp_request_for (take (min 66 cap) packet) (192 ∷ 168 ∷ 0 ∷ 200 ∷ [])
arp_requester-feed_example =
    arp_requester-feed 66 packet start-IsValid (omega arith) (192 ∷ 168 ∷ 0 ∷ 200 ∷ [])

desc_opts1-fields_example :
    (bit (desc_opts1 63 64) 31 ≡ true)
    × (bit (desc_opts1 63 64) 30 ≡ (63 + 1 == 64))
    × (low_bits (desc_opts1 63 64) 14 ≡ 2047)
    × (desc_opts1 63 64 < 4294967296)
desc_opts1-fields_example = desc_opts1-fields 63 64
