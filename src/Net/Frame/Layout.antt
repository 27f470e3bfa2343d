-- ===== src/Net/Frame/Layout.antt =====
-- The whole frame of `build_state_frame`, for every size of the buffer.
use nova_exo.Base.{
  ℕ, zero, suc, ◌+◌, ◌-◌, ◌≤◌, ◌<◌, ◌≡◌, refl, ap, ◌∙◌, true, none, some, List, [], ◌∷◌, ◌++◌,
  arith, length, length-append, length-take, length-drop, take, drop, min, le→ltb, ne→==,
  length-write_at,
}
use Prim.Native.Nat.{suc-le-suc}
use nova_exo.Net.Writer.{Out, Float}
use nova_exo.Net.Writer.Decimal.{decimal}
use nova_exo.Net.Payload.{Organs, State, build_payload}
use nova_exo.Net.Payload.Json.{render, render_fields}
use nova_exo.Net.Payload.Fields.{telemetry, state_fields, build_payload-telemetry}
use nova_exo.Net.Frame.{
  min_frame, write_ip, write_checksum, write_udp, pad_frame, build_state_frame,
}
use nova_exo.Net.Frame.Header.{eth_header, ip_header, udp_header, write_headers}

pad_frame-long : (fuel n : ℕ) (d : List ℕ) → min_frame ≤ n → pad_frame fuel d n ≡ some (d, n)
unfolding pad_frame
pad_frame-long zero n d h = refl
pad_frame-long (suc fuel) n d h = ground arith

-- A short frame that fills its buffer is padded out of it.
pad_frame-over :
    (fuel n : ℕ) (d : List ℕ) → n < min_frame → length d ≤ n → pad_frame (suc fuel) d n ≡ none
unfolding pad_frame
pad_frame-over fuel n d h k = ground arith

drop-take : (n : ℕ) (xs ys : List ℕ) → n ≤ length xs → drop n (take n xs ++ ys) ≡ ys
drop-take zero xs ys h = refl
drop-take (suc n) [] ys h = absurd (omega arith)
drop-take (suc n) (x ∷ xs) ys h = drop-take n xs ys (omega arith)

length-written :
    (src_mac : List ℕ) (n : ℕ) (d : List ℕ)
    → length (write_udp n (write_checksum (write_ip src_mac n d))) ≡ length d
unfolding write_udp write_checksum write_ip
length-written src_mac n d = simp length-write_at

length-bytes : (xs ys : List ℕ) → length (xs ++ ys) ≡ length xs + length ys
length-bytes = length-append

longer : (n : ℕ) (xs ys : List ℕ) → n ≤ length ys → n ≤ length (xs ++ ys)
longer n xs ys h = omega (arith, length-bytes xs ys)

longer_left : (n : ℕ) (xs ys : List ℕ) → n ≤ length xs → n ≤ length (xs ++ ys)
longer_left n xs ys h = omega (arith, length-bytes xs ys)

ends_one : (xs : List ℕ) (b : ℕ) (ys : List ℕ) → 1 ≤ length ((xs ++ b ∷ []) ++ ys)
ends_one xs b ys = omega (arith, length-bytes (xs ++ b ∷ []) ys, length-bytes xs (b ∷ []))

longer_four : (n : ℕ) {m : ℕ} → n ≤ m → 4 + n ≤ suc (suc (suc (suc m)))
longer_four n h = omega arith

module _ (fl : Float) (dst src_mac : List ℕ) (s : State fl) (g : Organs) where
  abbrev payload : Out
  payload = build_payload fl (drop 42 dst) s g

  text-long : 18 ≤ length (render (telemetry fl s g))
  unfolding render state_fields
  text-long = suc-le-suc (
      longer_left 17 (render_fields true (state_fields fl s _)) _ (
        longer_four 13 (
          longer 13 (decimal 20 s.tick) _ (
            longer_four 9 (
              suc-le-suc (
                suc-le-suc (
                  longer 7 (s.concept ++ b'"' ∷ []) _
                    (longer_four 3 (suc-le-suc (suc-le-suc (ends_one _ b']' _)))))))))))

  pos-payload : payload.pos ≡ min (length (render (telemetry fl s g))) (length dst - 42)
  pos-payload =
      ap (λ (o : Out). o.pos) (build_payload-telemetry fl (drop 42 dst) s g)
      ∙ omega (arith, length-drop 42 dst)

  length-payload : length payload.buf ≡ length dst - 42
  length-payload =
      let t = render (telemetry fl s g) in
      ap (λ (o : Out). length o.buf) (build_payload-telemetry fl (drop 42 dst) s g)
      ∙ omega (
        arith,
        length-bytes (take (length (drop 42 dst)) t) (drop (length t) (drop 42 dst)),
        length-take (length (drop 42 dst)) t,
        length-drop (length t) (drop 42 dst),
        length-drop 42 dst,
      )

  abbrev behind_payload : List ℕ
  behind_payload = take 42 dst ++ payload.buf

  headers :
      length src_mac ≡ 6
      → 42 ≤ length dst
      → write_udp payload.pos (write_checksum (write_ip src_mac payload.pos behind_payload))
        ≡ (eth_header src_mac ++ ip_header payload.pos ++ udp_header payload.pos) ++ payload.buf
  headers mac h =
      write_headers src_mac payload.pos behind_payload mac
        (omega (arith, length-bytes (take 42 dst) payload.buf, length-take 42 dst))
      ∙ ap (◌++◌ (eth_header src_mac ++ ip_header payload.pos ++ udp_header payload.pos))
          (drop-take 42 dst payload.buf h)

  -- The writes change no length.
  length-frame :
      42 ≤ length dst
      → length
          (write_udp payload.pos (write_checksum (write_ip src_mac payload.pos behind_payload)))
        ≡ length dst
  length-frame h =
      length-written src_mac payload.pos behind_payload
      ∙ omega (arith, length-bytes (take 42 dst) payload.buf, length-take 42 dst, length-payload)

  -- In a buffer of at least 60 bytes the frame is the Ethernet header, the IPv4 header with its
  -- checksum, the UDP header and the payload; its length is 42 and the length of the payload, and no
  -- padding is needed.
  pub build_state_frame-packet :
      length src_mac ≡ 6
      → 60 ≤ length dst
      → build_state_frame fl dst src_mac s g
        ≡ some (
          (eth_header src_mac ++ ip_header payload.pos ++ udp_header payload.pos) ++ payload.buf,
          42 + payload.pos,
        )
  unfolding build_state_frame
  build_state_frame-packet mac h =
      rw
        (
          le→ltb (length dst) 44 (omega arith),
          ne→== payload.pos 0 (omega (arith, pos-payload, text-long)),
          le→ltb (length dst) (42 + payload.pos) (omega (arith, pos-payload)),
        )
        (pad_frame-long 60 (42 + payload.pos) _ (omega (arith, pos-payload, text-long))
          ∙ ap (λ t. some (t, 42 + payload.pos)) (headers mac (omega arith)))

  -- In a buffer of 44 to 59 bytes the padding runs out of the buffer: the code panics, where its
  -- comment promises the length 0.
  pub build_state_frame_panics :
      44 ≤ length dst → length dst < 60 → build_state_frame fl dst src_mac s g ≡ none
  unfolding build_state_frame
  build_state_frame_panics h k =
      rw
        (
          le→ltb (length dst) 44 h,
          ne→== payload.pos 0 (omega (arith, pos-payload, text-long)),
          le→ltb (length dst) (42 + payload.pos) (omega (arith, pos-payload)),
        )
        (pad_frame-over 59 (42 + payload.pos) _ (omega (arith, pos-payload))
          (omega (arith, pos-payload, text-long, length-frame (omega arith))))
