-- ===== src/Net/Frame.antt =====
-- src/net.rs, `build_state_frame`: the telemetry in a UDP packet. `none` is the panic of an index out
-- of the buffer.
pub mod Header
pub mod Layout
use nova_exo.Base.{
  ℕ, zero, suc, ◌+◌, Bool, true, false, ◌||◌, Option, none, some, List, [], ◌∷◌, ◌++◌, ltb, ◌==◌,
  if◌then◌else◌, u16, length, set, take, drop, slice, to_be, write_at,
}
use nova_exo.Net.Checksum.{ipv4_checksum}
use nova_exo.Net.Writer.{Float}
use nova_exo.Net.Payload.{Organs, State, build_payload}

abbrev pub udp_port : ℕ
udp_port = 42800

abbrev pub dst_ip : List ℕ
dst_ip = 192 ∷ 168 ∷ 0 ∷ 255 ∷ []

abbrev pub src_ip : List ℕ
src_ip = 192 ∷ 168 ∷ 0 ∷ 200 ∷ []

abbrev pub dst_mac : List ℕ
dst_mac = 255 ∷ 255 ∷ 255 ∷ 255 ∷ 255 ∷ 255 ∷ []

abbrev pub ethertype_ipv4 : ℕ
ethertype_ipv4 = 0x0800

abbrev pub min_frame : ℕ
min_frame = 60

-- The writes from the Ethernet header to the IPv4 addresses.
unfoldable pub write_ip : List ℕ → ℕ → List ℕ → List ℕ
write_ip src_mac payload_len d0 =
    let d1 = write_at d0 0 dst_mac in
    let d2 = write_at d1 6 src_mac in
    let d3 = write_at d2 12 (to_be ethertype_ipv4) in
    let d4 = write_at d3 14 (0x45 ∷ []) in
    let d5 = write_at d4 15 (0x00 ∷ []) in
    let d6 = write_at d5 16 (to_be (u16 (20 + 8 + payload_len))) in
    let d7 = write_at d6 18 (0 ∷ 0 ∷ []) in
    let d8 = write_at d7 20 (0x40 ∷ 0x00 ∷ []) in
    let d9 = write_at d8 22 (64 ∷ []) in
    let d10 = write_at d9 23 (17 ∷ []) in
    let d11 = write_at d10 24 (0 ∷ 0 ∷ []) in
    let d12 = write_at d11 26 src_ip in write_at d12 30 dst_ip

-- The checksum of the 20 bytes of the IPv4 header, in its place.
unfoldable pub write_checksum : List ℕ → List ℕ
write_checksum d = write_at d 24 (to_be (ipv4_checksum (slice 14 20 d)))

unfoldable pub write_udp : ℕ → List ℕ → List ℕ
write_udp payload_len d0 =
    let d1 = write_at d0 34 (to_be udp_port) in
    let d2 = write_at d1 36 (to_be udp_port) in
    let d3 = write_at d2 38 (to_be (u16 (8 + payload_len))) in write_at d3 40 (0 ∷ 0 ∷ [])

-- `while n < MIN_FRAME { dst[n] = 0; n += 1 }`
unfoldable pub pad_frame : ℕ → List ℕ → ℕ → Option (List ℕ × ℕ)
pad_frame zero d n = some (d, n)
pad_frame (suc fuel) d n =
    let rest = pad_frame fuel (set d n 0) (n + 1) in
    if ltb n min_frame then (if ltb n (length d) then rest else none) else some (d, n)

module _ (fl : Float) where
  unfoldable pub build_state_frame : List ℕ → List ℕ → State fl → Organs → Option (List ℕ × ℕ)
  build_state_frame dst src_mac s g =
      let payload = build_payload fl (drop 42 dst) s g in
      let d0 = take 42 dst ++ payload.buf in
      if ltb (length dst) (42 + 2)
      then some (dst, 0)
      else if payload.pos == 0 || ltb (length dst) (42 + payload.pos)
      then some (d0, 0)
      else pad_frame min_frame
          (write_udp payload.pos (write_checksum (write_ip src_mac payload.pos d0)))
          (42 + payload.pos)
