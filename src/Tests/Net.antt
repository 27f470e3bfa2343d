-- ===== src/Tests/Net.antt =====
-- A telemetry state with whole numbers for floats, the checksum, and ARP.
use mathlib.Core.Logic.{◌⊎◌}
use nova_exo.Base.{
  ℕ, ◌+◌, ◌*◌, ◌%◌, ◌≤◌, ◌<◌, ◌≡◌, refl, true, false, some, none, List, [], ◌∷◌, ◌++◌, arith, ltb,
  if◌then◌else◌, codes, length, min, take, drop, replicate, equal, to_be,
}
use nova_exo.Net.Arp.{arp_request_for, build_arp_reply}
use nova_exo.Net.Arp.Reply.{
  arp_frame, build_arp_reply-frame, arp_request_for-request, arp_request_for-other,
}
use nova_exo.Net.Checksum.{ipv4_checksum, sum_words, total, ipv4_checksum_lem}
use nova_exo.Net.Writer.{
  Float, push, push_all, digits_from, write_u32_buf, write_u64_buf, write_f32_buf, pad_zeros,
}
use nova_exo.Net.Writer.Decimal.{decimal, read_from, read_from-decimal, length-decimal}
use nova_exo.Net.Payload.{
  Organs, StatoSensi, State, build_payload, write_sep, write_sig, hex_char, write_cell,
}
use nova_exo.Net.Payload.Json.{render}
use nova_exo.Net.Payload.Fields.{telemetry, build_payload-telemetry}
use nova_exo.Net.Frame.{build_state_frame}
use nova_exo.Net.Frame.Header.{eth_header, ip_header, udp_header, ip_header_verifies}
use nova_exo.Net.Frame.Layout.{build_state_frame-packet, build_state_frame_panics}

saturate : ℕ → ℕ
saturate x = min x 4294967295

saturate_lt : (x : ℕ) → saturate x < 4294967296
unfolding saturate
saturate_lt x = omega arith

-- Whole numbers in the place of f32, enough to run the writers.
abbrev whole : Float
whole = record {
  F32 = ℕ;
  lt = ltb;
  abs = λ x. x;
  mul = λ x y. x * y;
  add = λ x y. x + y;
  to_u32 = saturate;
  zero_f = 0;
  ten_thousand = 10000;
  half = 0;
  to_u32_lt = saturate_lt;
}

abbrev senses : StatoSensi whole
senses = record {
  n = 3;
  riflessi = 1;
  guasti = 1;
  guasti_mask = 1;
  tatto = 0;
  chemio = 0;
  metabol = 1;
  integrat = 0;
  udito = 0;
  mic = 0;
  adc = 8;
  pin = 27;
  gesto = true;
  hda_vend = 4332;
  hda_dev = 563;
  temp_c = 41;
  via = 2;
  mem_omeo = 0;
  ventola = false;
  stream_on = true;
  lpib = 512;
}

abbrev state : State whole
state = record {
  tick = 1234;
  concept = codes "quiete";
  cells = (0 ∷ 1 ∷ []) ∷ [];
  chemio_u = 0;
  chemio_p = 1;
  chemio_n = 2;
  desire_id = 3;
  desire_int = 1;
  cambi = 10;
  esplorazioni = 11;
  diag = 1 ∷ 2 ∷ [];
  sig = 0x45 ∷ 0xa0 ∷ [];
  epoch = 7;
  sen = senses;
}

abbrev organs : Organs
organs = record {
  key_count = 5;
  key_held = 0;
  ps2 = 28 ∷ 29 ∷ 71 ∷ [];
  acpi = 1 ∷ 2 ∷ 9 ∷ 1 ∷ 1 ∷ [];
  ec = 1 ∷ 0 ∷ 64 ∷ [];
  kid = 250 ∷ 171 ∷ 65 ∷ 0 ∷ [];
}

build_payload_text :
    take 74 (build_payload whole (replicate 74 0) state organs).buf
    ≡ codes
        "{\"t\":1234,\"k\":\"quiete\",\"c\":[[0.0000,1.0000]],\"w\":[3,1.0000],\"u\":0.0000,\"p\""
unfolding build_payload push_all push write_u64_buf write_u32_buf digits_from write_sep write_cell
    write_f32_buf pad_zeros saturate write_sig hex_char
build_payload_text = refl

build_payload-telemetry_example : build_payload whole (replicate 1476 0) state organs ≡ record {
  buf =
      take 1476 (render (telemetry whole state organs))
      ++ drop (length (render (telemetry whole state organs))) (replicate 1476 0);
  pos = min (length (render (telemetry whole state organs))) 1476;
}
build_payload-telemetry_example = build_payload-telemetry whole (replicate 1476 0) state organs

build_state_frame-packet_example :
    let p = build_payload whole (drop 42 (replicate 1518 0)) state organs in
    build_state_frame whole (replicate 1518 0) (replicate 6 2) state organs
    ≡ some
        ((eth_header (replicate 6 2) ++ ip_header p.pos ++ udp_header p.pos) ++ p.buf, 42 + p.pos)
build_state_frame-packet_example =
    build_state_frame-packet whole (replicate 1518 0) (replicate 6 2) state organs refl
      (omega arith)

build_state_frame_panics_example :
    build_state_frame whole (replicate 50 0) (replicate 6 2) state organs ≡ none
build_state_frame_panics_example =
    build_state_frame_panics whole (replicate 50 0) (replicate 6 2) state organs (omega arith)
      (omega arith)

ip_header_verifies_example : ipv4_checksum (ip_header 700) ≡ 0
ip_header_verifies_example = ip_header_verifies 700

-- The example of RFC 1071.
sum_words_rfc : sum_words (0x00 ∷ 0x01 ∷ 0xf2 ∷ 0x03 ∷ 0xf4 ∷ 0xf5 ∷ 0xf6 ∷ 0xf7 ∷ []) ≡ 0x2ddf0
unfolding sum_words
sum_words_rfc = refl

ipv4_checksum_lem_example :
    (total true (
          0xff ∷ 0xff ∷ to_be (ipv4_checksum (0xff ∷ 0xff ∷ 0 ∷ 0 ∷ 0xff ∷ 0x11 ∷ []))
          ++ 0xff ∷ 0x11 ∷ [])
        % 65535
      ≡ 0)
    × (ipv4_checksum (0xff ∷ 0xff ∷ 0 ∷ 0 ∷ 0xff ∷ 0x11 ∷ []) < 65536)
    × ((ipv4_checksum (0xff ∷ 0xff ∷ 0 ∷ 0 ∷ 0xff ∷ 0x11 ∷ []) < 65535)
        ⊎ (total true (0xff ∷ 0xff ∷ 0 ∷ 0 ∷ 0xff ∷ 0x11 ∷ []) ≡ 0))
ipv4_checksum_lem_example =
    ipv4_checksum_lem (0xff ∷ 0xff ∷ []) (0xff ∷ 0x11 ∷ []) tt (omega arith) (omega arith)

read_from-decimal_example : read_from 0 (decimal 12 4294967295) ≡ some 4294967295
read_from-decimal_example = read_from-decimal 12 4294967295 (omega arith)

length-decimal_example :
    (42 < 4294967296 → length (decimal 12 42) ≤ 10)
    × (42 < 18446744073709551616 → length (decimal 20 42) ≤ 20)
length-decimal_example = length-decimal 42

abbrev mac_a : List ℕ
mac_a = 0xc8 ∷ 0x5b ∷ 0x76 ∷ 0xe0 ∷ 0xe0 ∷ 0x01 ∷ []

abbrev mac_b : List ℕ
mac_b = 2 ∷ 3 ∷ 4 ∷ 5 ∷ 6 ∷ 7 ∷ []

abbrev ip_a : List ℕ
ip_a = 192 ∷ 168 ∷ 0 ∷ 200 ∷ []

abbrev ip_b : List ℕ
ip_b = 192 ∷ 168 ∷ 0 ∷ 7 ∷ []

build_arp_reply-frame_example :
    build_arp_reply (replicate 60 0) mac_a ip_a mac_b ip_b
    ≡ (arp_frame 2 mac_b mac_a ip_a mac_b ip_b ++ replicate 18 0, 42)
build_arp_reply-frame_example =
    build_arp_reply-frame (replicate 60 0) mac_a ip_a mac_b ip_b refl refl refl refl (omega arith)

arp_request_for-request_example :
    arp_request_for
      (arp_frame 1 (replicate 6 255) mac_b ip_b (replicate 6 0) ip_a ++ replicate 18 0)
      ip_a
    ≡ (if equal ip_a ip_a then some (mac_b, ip_b) else none)
arp_request_for-request_example =
    arp_request_for-request (replicate 6 255) mac_b ip_b (replicate 6 0) ip_a (replicate 18 0) ip_a
      refl refl refl refl refl

arp_request_for-other_example :
    arp_request_for (arp_frame 2 mac_b mac_a ip_a mac_b ip_b ++ []) ip_b ≡ none
arp_request_for-other_example =
    arp_request_for-other mac_b mac_a ip_a mac_b ip_b [] ip_b refl refl refl refl refl 2
      (omega arith) (omega arith)
