-- ===== src/Rtl.antt =====
-- src/rtl.rs: the RTL810xE driver's rings, its receive and transmit paths and the PHY access. What a
-- register answers is a parameter; the writes to registers are a list of (offset, value) in their
-- order. Physical addresses and the diagnostics on the screen are left out.
pub mod Poll
pub mod Beacon
pub mod Phy
use nova_exo.Base.{
  ℕ, zero, suc, ◌+◌, ◌-◌, ◌*◌, ◌/◌, ◌%◌, ◌^◌, Bool, true, false, not, ◌&&◌, ◌||◌, Option, none,
  some, List, [], ◌∷◌, ◌++◌, ltb, leb, ◌==◌, if◌then◌else◌, bit, low_bits, u32, u64, min, length,
  get_or, set, take, replicate, write_at, codes, equal,
}
use nova_exo.Rx.{Rx, desc_opts1, feed, err, cap}
use nova_exo.Net.Writer.{digits_from}

abbrev pub rx_desc : ℕ
rx_desc = 64

abbrev pub rx_buf_len : ℕ
rx_buf_len = 2048

abbrev pub rx_max_size : ℕ
rx_max_size = 2048

abbrev pub rx_accept : ℕ
rx_accept = 0x0E

abbrev pub rx_config_value : ℕ
rx_config_value = 0x870E

abbrev pub exo_mac : List ℕ
exo_mac = 0xc8 ∷ 0x5b ∷ 0x76 ∷ 0xe0 ∷ 0xe0 ∷ 0x01 ∷ []

-- The static variables. `tx_desc` is the last word written to the transmit descriptor, `ring` is the first word of each receive descriptor, `bufs` the buffers that
-- the chip fills, and `port` the entrance port of src/rx.rs.
pub record Nic : Type 0 where
  pub present : Bool
  pub mmio : ℕ
  pub rx_init_ok : Bool
  pub rx_overflows : ℕ
  pub rx_cmd : ℕ
  pub rx_rcr : ℕ
  pub rx_maxsz : ℕ
  pub rx_desc0 : ℕ
  pub tx_ok : ℕ
  pub tx_fail : ℕ
  pub ring : List ℕ
  pub bufs : List (List ℕ)
  pub port : Rx
  pub tx_desc : ℕ
  pub tx_buf : List ℕ

-- `!RTL_PRESENT || RTL_MMIO == 0`
abbrev pub silent : Nic → Bool
silent s = not s.present || s.mmio == 0

-- One bit on: `m |= 1 << i`, where the shift of a u32 takes `i` modulo 32 in the release build.
unfoldable pub own_from : List ℕ → ℕ → ℕ → ℕ → ℕ
own_from ring i zero m = m
own_from ring i (suc k) m =
    own_from ring (i + 1) k
      (if bit (get_or ring i 0) 31 && not (bit m (i % 32)) then m + 2 ^ (i % 32) else m)

unfoldable pub rx_desc_own_mask : Nic → ℕ
rx_desc_own_mask s = if silent s then 0 else own_from s.ring 0 rx_desc 0

-- `desc` is what the transmit descriptor holds.
unfoldable pub tx_ready : ℕ → Nic → Bool
tx_ready desc s = if silent s then false else not (bit desc 31)

-- One round of `poll_rx`, on the ring and the port; the chip writes nothing between the rounds.
unfoldable pub poll_desc : List (List ℕ) → ℕ → List ℕ × Rx → List ℕ × Rx
poll_desc bufs i (ring, port) =
    let opts1 = get_or ring i 0 in
    let len = low_bits opts1 16 in
    let n = min (min len cap) rx_buf_len in
    if bit opts1 31 then (ring, port) else (
      set ring i (desc_opts1 i rx_desc),
      if ltb 0 len then feed len (take n (get_or bufs i [])) port else err port,
    )

-- `k` rounds from index `i`.
unfoldable pub poll_from : List (List ℕ) → ℕ → ℕ → List ℕ × Rx → List ℕ × Rx
poll_from bufs i zero r = r
poll_from bufs i (suc k) r = poll_from bufs (i + 1) k (poll_desc bufs i r)

-- `st & (0x0010 | 0x0040) != 0`
abbrev pub overflow : ℕ → Bool
overflow st = bit st 4 || bit st 6

abbrev pub set_bit : ℕ → ℕ → ℕ
set_bit k x = if bit x k then x else x + 2 ^ k

unfoldable pub poll_rx : (ℕ → ℕ) → Nic → Nic × List (ℕ × ℕ)
poll_rx regs s =
    let st = regs 0x3E in
    let woken = overflow st in
    let (ring, port) = poll_from s.bufs 0 rx_desc (s.ring, s.port) in
    if s.rx_init_ok
    then (
      record s {
        ring = ring;
        port = port;
        rx_overflows = if woken then u32 (s.rx_overflows + 1) else s.rx_overflows;
      },
      if woken then (0x3E, st) ∷ (0x37, set_bit 3 (regs 0x37)) ∷ [] else [],
    )
    else (s, [])

-- The descriptors that `rx_init` writes: `k` from index `i`.
unfoldable pub armed_from : ℕ → ℕ → List ℕ
armed_from i zero = []
armed_from i (suc k) = desc_opts1 i rx_desc ∷ armed_from (i + 1) k

-- `regs` answers before the writes and `after` behind them; `ring_phys` is the
-- ring's address and `desc0` the first descriptor read back.
unfoldable pub rx_init : (ℕ → ℕ) → (ℕ → ℕ) → ℕ → ℕ → Nic → Nic × List (ℕ × ℕ) × Bool
rx_init regs after ring_phys desc0 s =
    let ok =
      bit (after 0x37) 3 && low_bits (after 0x44) 6 == rx_accept && after 0xDA == rx_max_size in
    (
      record s {
        ring = armed_from 0 rx_desc;
        rx_cmd = after 0x37;
        rx_rcr = after 0x44;
        rx_maxsz = after 0xDA;
        rx_desc0 = desc0;
        rx_init_ok = ok;
      },
      (0x50, 0xC0)
          ∷ (0xDA, rx_max_size)
          ∷ (0xE8, ring_phys / 2 ^ 32 % 2 ^ 32)
          ∷ (0xE4, ring_phys % 2 ^ 32)
          ∷ (0x50, 0x00)
          ∷ (0x37, set_bit 3 (set_bit 2 (regs 0x37)))
          ∷ (0x44, rx_config_value)
          ∷ [],
      ok,
    )

-- The wait for the chip: `reads i` is what the descriptor holds at the i-th read; `k` rounds are left.
unfoldable pub own_cleared : (ℕ → ℕ) → ℕ → ℕ → Bool
own_cleared reads i zero = false
own_cleared reads i (suc k) =
    let rest = own_cleared reads (i + 1) k in if bit (reads i) 31 then rest else true

-- `tx_desc` is the word that the driver wrote, which the chip changes.
unfoldable pub tx_frame : ℕ → (ℕ → ℕ) → List ℕ → Nic → Nic × Bool
tx_frame rounds reads frame s =
    let sent = record s {
      tx_buf = write_at s.tx_buf 0 frame;
      tx_desc = 2 ^ 31 + 2 ^ 29 + 2 ^ 28 + 2 ^ 30 + length frame;
    } in
    if length frame == 0 || ltb 1518 (length frame)
    then (s, false)
    else if own_cleared reads 0 rounds
    then (record sent { tx_ok = u64 (s.tx_ok + 1) }, true)
    else (record sent { tx_fail = u64 (s.tx_fail + 1) }, false)

abbrev pub tx_rounds : ℕ
tx_rounds = 2000000

unfoldable pub tx_raw : (ℕ → ℕ) → List ℕ → Nic → Nic × Bool
tx_raw reads frame s = if silent s then (s, false) else tx_frame tx_rounds reads frame s

-- The digits of the counter, the most significant first.
abbrev pub counter_digits : ℕ → List ℕ
counter_digits n = if n == 0 then b'0' ∷ [] else digits_from 20 n []

-- The 60 bytes of the beacon.
unfoldable pub beacon_frame : ℕ → List ℕ
beacon_frame counter =
    write_at
      (write_at
        (write_at (write_at (write_at (replicate 60 0) 0 (replicate 6 0xFF)) 6 exo_mac) 12
          (0x88 ∷ 0xB5 ∷ []))
        14 (codes "EXO TICK "))
      23 (counter_digits counter)

unfoldable pub tx_beacon : (ℕ → ℕ) → ℕ → Nic → Nic × Bool
tx_beacon reads counter s =
    if silent s then (s, false) else tx_frame tx_rounds reads (beacon_frame counter) s

-- `mac.iter().all(|&b| b == x)`
abbrev pub all_are : ℕ → List ℕ → Bool
all_are x [] = true
all_are x (b ∷ bs) = b == x && all_are x bs

unfoldable pub mac_plausibile : List ℕ → Bool
mac_plausibile mac = not (all_are 0x00 mac) && not (all_are 0xFF mac)

-- The value of PHYAR at its i-th read; `k` rounds are left.
unfoldable pub phy_wait : (ℕ → ℕ) → ℕ → ℕ → ℕ
phy_wait reads i zero = 0xFFFF
phy_wait reads i (suc k) =
    let rest = phy_wait reads (i + 1) k in if bit (reads i) 31 then rest else low_bits (reads i) 16

-- The write that asks, and the answer.
unfoldable pub phy_read : (ℕ → ℕ) → ℕ → List (ℕ × ℕ) × ℕ
phy_read reads reg = ((0x60, 2 ^ 31 + reg * 65536) ∷ [], phy_wait reads 0 100000)

unfoldable pub link_status : (ℕ → ℕ) → Bool
link_status reads = bit (phy_read reads 1).1 2
