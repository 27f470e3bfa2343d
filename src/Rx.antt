-- ===== src/Rx.antt =====
-- src/rx.rs: the network entrance port, shared by the drivers. The static variables are one record;
-- a byte is a number below 256, and the operations on f32 are a parameter.
pub mod Payload
pub mod Port
use nova_exo.Base.{
  ℕ, zero, suc, ◌+◌, Bool, true, false, ◌&&◌, Option, none, some, List, [], ◌∷◌, ltb, ◌==◌,
  if◌then◌else◌, u16, u32, min, length, get_or, set, take, replicate, from_be,
}
use nova_exo.Base.Int.{pos}
use nova_exo.Fp.{Fp}
use nova_exo.Net.Arp.{arp_request_for}

abbrev pub cap : ℕ
cap = 64

abbrev pub desc_own : ℕ
desc_own = 0x8000_0000

abbrev pub desc_ring_end : ℕ
desc_ring_end = 0x4000_0000

abbrev pub rx_desc_buf_size : ℕ
rx_desc_buf_size = 2047

-- The three operands of `|` have no bit in common, so it is their sum.
unfoldable pub desc_opts1 : ℕ → ℕ → ℕ
desc_opts1 i n = desc_own + (if i + 1 == n then desc_ring_end else 0) + rx_desc_buf_size

pub record Rx : Type 0 where
  pub pending : Bool
  pub buf : List ℕ  -- DATA
  pub len : ℕ  -- LEN
  pub pkts : ℕ
  pub errs : ℕ
  pub last_len : ℕ
  pub last_sig : List ℕ

unfoldable pub start : Rx
start = record {
  pending = false;
  buf = replicate cap 0;
  len = 0;
  pkts = 0;
  errs = 0;
  last_len = 0;
  last_sig = replicate 4 0;
}

abbrev pub off_udp_payload : ℕ
off_udp_payload = 42

abbrev pub off_eth_payload : ℕ
off_eth_payload = 14

unfoldable pub payload_base : List ℕ → ℕ
payload_base buf =
    if from_be (get_or buf 12 0) (get_or buf 13 0) == 0x0800 && get_or buf 23 0 == 17
    then off_udp_payload
    else off_eth_payload

-- The loop `for j in 0..n { d[j] = src[j] }`: `k` rounds from index `j`.
unfoldable pub copy_from : List ℕ → List ℕ → ℕ → ℕ → List ℕ
copy_from d src j zero = d
copy_from d src j (suc k) = copy_from (set d j (get_or src j 0)) src (j + 1) k

-- Does `idx` lie in the packet and in the buffer?
abbrev pub in_packet : ℕ → ℕ → Bool
in_packet len idx = ltb idx cap && ltb (u16 idx) len

-- A byte of LAST_SIG.
abbrev pub sig_byte : ℕ → List ℕ → ℕ → ℕ
sig_byte len buf idx = if in_packet len idx then get_or buf idx 0 else 0

-- LAST_SIG of a packet: the four bytes from `payload_base`.
unfoldable pub signature : ℕ → List ℕ → List ℕ
signature len buf =
    let base = payload_base buf in
    sig_byte len buf base
    ∷ sig_byte len buf (base + 1)
    ∷ sig_byte len buf (base + 2)
    ∷ sig_byte len buf (base + 3)
    ∷ []

unfoldable pub feed : ℕ → List ℕ → Rx → Rx
feed len src r =
    let d = copy_from r.buf src 0 (min (min len cap) (length src)) in
    record r {
      pending = true;
      buf = d;
      len = len;
      pkts = u32 (r.pkts + 1);
      last_len = len;
      last_sig = signature len d;
    }

module _ (fp : Fp) where
  open fp use {F, lit, div, of_int}

  -- `out[j]`: a byte over 255, and 0.0 outside.
  abbrev pub chemio_value : ℕ → List ℕ → ℕ → F
  chemio_value len buf idx =
      if in_packet len idx then div (of_int (pos (get_or buf idx 0))) (lit 255 0) else lit 0 0

  unfoldable pub payload_to_chemio : ℕ → List ℕ → List F
  payload_to_chemio len buf =
      let base = payload_base buf in
      chemio_value len buf base
      ∷ chemio_value len buf (base + 1)
      ∷ chemio_value len buf (base + 2)
      ∷ chemio_value len buf (base + 3)
      ∷ []

  unfoldable pub take_packet : Rx → Rx × Option (ℕ × List F)
  take_packet r =
      if r.pending
      then (record r { pending = false }, some (r.len, payload_to_chemio r.len r.buf))
      else (r, none)

unfoldable pub err : Rx → Rx
err r = record r { errs = u32 (r.errs + 1) }

unfoldable pub arp_requester : List ℕ → Rx → Option (List ℕ × List ℕ)
arp_requester our_ip r =
    if r.pending then arp_request_for (take (min r.len cap) r.buf) our_ip else none
