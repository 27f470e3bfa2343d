-- ===== src/Net/Arp.antt =====
-- src/net.rs: the answer to an ARP request.
pub mod Reply
use nova_exo.Base.{
  ℕ, ◌+◌, Bool, true, false, not, Option, none, some, List, [], ◌∷◌, ltb, ◌==◌, if◌then◌else◌,
  length, get_or, slice, from_be, to_be, equal, write_at,
}

abbrev pub ethertype_arp : ℕ
ethertype_arp = 0x0806

abbrev pub ethertype_ipv4 : ℕ
ethertype_ipv4 = 0x0800

-- The (mac, ip) of who asks for `our_ip`.
unfoldable pub arp_request_for : List ℕ → List ℕ → Option (List ℕ × List ℕ)
arp_request_for bytes our_ip =
    if ltb (length bytes) 42
    then none
    else if not (from_be (get_or bytes 12 0) (get_or bytes 13 0) == ethertype_arp)
    then none
    else if not (from_be (get_or bytes 20 0) (get_or bytes 21 0) == 1)
    then none
    else if not (equal (slice 38 4 bytes) our_ip)
    then none
    else some (slice 22 6 bytes, slice 28 4 bytes)

-- The buffer after the writes, and the length (0 if the buffer is too small). A MAC is a list of six
-- bytes and an address one of four.
unfoldable pub build_arp_reply : List ℕ → List ℕ → List ℕ → List ℕ → List ℕ → List ℕ × ℕ
build_arp_reply dst our_mac our_ip peer_mac peer_ip =
    if ltb (length dst) 42
    then (dst, 0)
    else let d1 = write_at dst 0 peer_mac in
      let d2 = write_at d1 6 our_mac in
      let d3 = write_at d2 12 (to_be ethertype_arp) in
      let d4 = write_at d3 14 (to_be 1) in
      let d5 = write_at d4 16 (to_be ethertype_ipv4) in
      let d6 = write_at d5 18 (6 ∷ []) in
      let d7 = write_at d6 19 (4 ∷ []) in
      let d8 = write_at d7 20 (to_be 2) in
      let d9 = write_at d8 22 our_mac in
      let d10 = write_at d9 28 our_ip in
      let d11 = write_at d10 32 peer_mac in (write_at d11 38 peer_ip, 42)
