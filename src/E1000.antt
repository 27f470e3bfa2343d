-- ===== src/E1000.antt =====
-- src/e1000.rs: the rings of the Intel network card. The writes to registers are a list of (offset,
-- value) in their order; physical addresses are arguments, and the diagnostics are left out.
pub mod Send
pub mod Poll
use nova_exo.Base.{
  ◌-◌, ℕ, zero, suc, ◌+◌, ◌*◌, ◌/◌, ◌%◌, ◌^◌, Bool, true, false, not, List, [], ◌∷◌, ◌++◌, ltb,
  ◌==◌, if◌then◌else◌, min, length, get_or, set, take, drop, replicate, write_at, bit,
}
use nova_exo.Rx.{Rx, feed, cap}

abbrev pub tx_ring_size : ℕ
tx_ring_size = 8

abbrev pub rx_ring_size : ℕ
rx_ring_size = 8

abbrev pub rx_buf_size : ℕ
rx_buf_size = 2048

abbrev pub status_dd : ℕ
status_dd = 0xFF

-- CMD_EOP | CMD_RS
abbrev pub cmd_eop_rs : ℕ
cmd_eop_rs = 0x09

abbrev pub reg_tdt : ℕ
reg_tdt = 0x3818

pub record TxDesc : Type 0 where
  pub addr : ℕ
  pub length : ℕ
  pub cso : ℕ
  pub cmd : ℕ
  pub status : ℕ
  pub css : ℕ
  pub special : ℕ

pub record RxDesc : Type 0 where
  pub addr : ℕ
  pub length : ℕ
  pub status : ℕ

abbrev pub tx_zero : TxDesc
tx_zero = record { addr = 0; length = 0; cso = 0; cmd = 0; status = 0; css = 0; special = 0 }

abbrev pub rx_zero : RxDesc
rx_zero = record { addr = 0; length = 0; status = 0 }

-- The static variables, and the entrance port of src/rx.rs.
pub record E1000 : Type 0 where
  pub mmio_base : ℕ
  pub tx_ring : List TxDesc
  pub rx_ring : List RxDesc
  pub rx_pool : List ℕ
  pub tx_buf : List ℕ
  pub tx_next : ℕ
  pub port : Rx

unfoldable pub present : E1000 → Bool
present s = not (s.mmio_base == 0)

-- The loop over the descriptors: their address, length and status are written, the rest stays.
unfoldable pub tx_cleared : List TxDesc → List TxDesc
tx_cleared [] = []
tx_cleared (d ∷ ds) = record d { addr = 0; length = 0; status = status_dd } ∷ tx_cleared ds

unfoldable pub setup_tx : ℕ → E1000 → E1000 × List (ℕ × ℕ)
unfolding tx_cleared
setup_tx ring_phys s = (
  record s { tx_ring = tx_cleared s.tx_ring },
  (0x3800, ring_phys % 2 ^ 32)
      ∷ (0x3804, ring_phys / 2 ^ 32)
      ∷ (0x3808, tx_ring_size * 16)
      ∷ (0x3810, 0)
      ∷ (reg_tdt, 0)
      ∷ [],
)

unfoldable pub rx_armed : ℕ → ℕ → List RxDesc → List RxDesc
rx_armed pool_phys i [] = []
rx_armed pool_phys i (d ∷ ds) =
    record d { addr = pool_phys + i * rx_buf_size; status = 0 } ∷ rx_armed pool_phys (i + 1) ds

unfoldable pub setup_rx : (ring_phys pool_phys : ℕ) → E1000 → E1000 × List (ℕ × ℕ)
unfolding rx_armed
setup_rx ring_phys pool_phys s = (
  record s { rx_ring = rx_armed pool_phys 0 s.rx_ring },
  (0x2800, ring_phys % 2 ^ 32)
      ∷ (0x2804, ring_phys / 2 ^ 32)
      ∷ (0x2808, rx_ring_size * 16)
      ∷ (0x2810, 0)
      ∷ (0x2818, rx_ring_size - 1)
      ∷ [],
)

abbrev pub tx_desc_at : E1000 → ℕ → TxDesc
tx_desc_at s i = get_or s.tx_ring i tx_zero

abbrev pub max : ℕ → ℕ → ℕ
max a b = if ltb a b then b else a

abbrev pub frame_len : E1000 → List ℕ → ℕ
frame_len s frame = min (min (length frame) (length s.tx_buf)) 1514

unfoldable pub tx_frame : ℕ → List ℕ → E1000 → E1000 × List (ℕ × ℕ) × Bool
unfolding present
tx_frame buf_phys frame s =
    let n = frame_len s frame in
    let next_tdt = (s.tx_next + 1) % tx_ring_size in
    let desc : TxDesc = record {
      addr = buf_phys;
      length = max n 60;
      cso = 0;
      cmd = cmd_eop_rs;
      status = 0;
      css = 0;
      special = 0;
    } in
    if not (present s)
    then (s, [], false)
    else if (tx_desc_at s s.tx_next).status == 0
    then (s, [], false)
    else (
      record s {
        tx_buf = write_at s.tx_buf 0 (take n frame);
        tx_ring = set s.tx_ring s.tx_next desc;
        tx_next = next_tdt;
      },
      (reg_tdt, next_tdt) ∷ [],
      true,
    )

-- One round of the poll: a received packet goes to the port, and its descriptor is freed.
unfoldable pub poll_desc : List ℕ → ℕ → List RxDesc × Rx → List RxDesc × Rx
poll_desc pool i (ring, port) =
    let d = get_or ring i rx_zero in
    let n = min d.length cap in
    if bit d.status 0
    then (
      set ring i (record d { status = 0 }),
      feed d.length (take n (drop (i * rx_buf_size) pool)) port,
    )
    else (ring, port)

unfoldable pub poll_from : List ℕ → ℕ → ℕ → List RxDesc × Rx → List RxDesc × Rx
unfolding poll_desc
poll_from pool i zero r = r
poll_from pool i (suc k) r = poll_from pool (i + 1) k (poll_desc pool i r)

unfoldable pub poll_rx : E1000 → E1000
unfolding poll_from
poll_rx s =
    let r = poll_from s.rx_pool 0 rx_ring_size (s.rx_ring, s.port) in
    record s { rx_ring = r.0; port = r.1 }

-- The loopback test puts the first 60 bytes of the transmit buffer in the pool, as a received packet.
unfoldable pub loopback_test : E1000 → E1000
loopback_test s =
    let d = get_or s.rx_ring 0 rx_zero in
    record s {
      rx_pool = write_at s.rx_pool 0 (take 60 s.tx_buf);
      rx_ring = set s.rx_ring 0 (record d { status = 1; length = 60 });
    }
