-- ===== src/E1000/Send.antt =====
-- src/e1000.rs: what a transmission leaves, and how many fit in the ring.
use nova_exo.Base.{
  ℕ, zero, suc, ◌+◌, ◌-◌, ◌%◌, ◌≡◌, ◌≢◌, ◌≤◌, ◌<◌, refl, ap, ◌∙◌, arith, Bool, true, false, List,
  [], ◌∷◌, ◌++◌, ltb, ◌==◌, ne→==, if◌then◌else◌, min, length, length-set, get_or, get_or-set, set,
  take, drop, replicate, write_at, write_at-front,
}
use mathlib.Core.Path.{subst}
use nova_exo.E1000.{
  E1000, TxDesc, tx_zero, tx_desc_at, tx_ring_size, status_dd, reg_tdt, max, frame_len, present,
  tx_frame, setup_tx, tx_cleared,
}

abbrev pub sent_desc : ℕ → E1000 → List ℕ → TxDesc
sent_desc buf_phys s frame = record {
  addr = buf_phys;
  length = max (frame_len s frame) 60;
  cso = 0;
  cmd = 0x09;
  status = 0;
  css = 0;
  special = 0;
}

sent :
    (p : ℕ) (frame : List ℕ) (s : E1000)
    → present s ≡ true
    → (tx_desc_at s s.tx_next).status ≢ 0
    → tx_frame p frame s ≡ (
      record s {
        tx_buf = write_at s.tx_buf 0 (take (frame_len s frame) frame);
        tx_ring = set s.tx_ring s.tx_next (sent_desc p s frame);
        tx_next = (s.tx_next + 1) % tx_ring_size;
      },
      (reg_tdt, (s.tx_next + 1) % tx_ring_size) ∷ [],
      true,
    )
unfolding tx_frame
sent p frame s h n = rw (h, ne→== _ 0 n) refl

take_all : (xs : List ℕ) → take (length xs) xs ≡ xs
take_all [] = refl
take_all (x ∷ xs) = ap (◌∷◌ x) (take_all xs)

-- A frame of at most 1514 bytes, given to a card that is present and whose next descriptor is free, is
-- at the front of the buffer; the bytes behind it are the ones of the frames before it, also where
-- the length of the transmission is raised to 60; only the next descriptor is written, and the next
-- one after it is told to the card.
pub tx_frame_lem :
    (p : ℕ) (frame : List ℕ) (s : E1000) (i : ℕ)
    → present s ≡ true
    → (tx_desc_at s s.tx_next).status ≢ 0
    → s.tx_next < length s.tx_ring
    → length s.tx_buf ≡ 1514
    → length frame ≤ 1514
    → ((tx_frame p frame s).0.tx_buf ≡ frame ++ drop (length frame) s.tx_buf)
      × (tx_desc_at (tx_frame p frame s).0 i
          ≡ (if i == s.tx_next then sent_desc p s frame else tx_desc_at s i))
      × ((tx_frame p frame s).1 ≡ (reg_tdt, (s.tx_next + 1) % tx_ring_size) ∷ [])
      × ((tx_frame p frame s).2 ≡ true)
tx_frame_lem p frame s i h n l b f =
    let m : frame_len s frame ≡ length frame = omega (arith, b) in
    let a : take (frame_len s frame) frame ≡ frame = ap (λ k. take k frame) m ∙ take_all frame in
    rw (sent p frame s h n) (
      ap (write_at s.tx_buf 0) a ∙ write_at-front s.tx_buf frame (omega (arith, b)),
      get_or-set s.tx_ring s.tx_next i (sent_desc p s frame) tx_zero l,
      refl,
      refl,
    )

-- The card does nothing while the frames `fs` are given: the results, in their order.
unfoldable pub send_all : ℕ → List (List ℕ) → E1000 → List Bool
send_all p [] s = []
send_all p (f ∷ fs) s = let r = tx_frame p f s in r.2 ∷ send_all p fs r.0

-- The first `k` of the eight descriptors are in use.
record Used (k : ℕ) (s : E1000) : Type 0 where
  card : present s ≡ true
  size : length s.tx_ring ≡ tx_ring_size
  next : s.tx_next ≡ k % tx_ring_size
  slots : (i : ℕ) → i < tx_ring_size → (tx_desc_at s i).status ≡ (if ltb i k then 0 else status_dd)

send-Used :
    (p : ℕ) (f : List ℕ) (k : ℕ) (s : E1000)
    → k < tx_ring_size
    → Used k s
    → ((tx_frame p f s).2 ≡ true) × Used (suc k) (tx_frame p f s).0
send-Used p f k s l u =
    let n : s.tx_next ≡ k = omega (arith, u.next) in
    let free : (tx_desc_at s s.tx_next).status ≢ 0 =
      λ e. absurd (ground (arith, n, e, u.slots k l)) in
    rw (sent p f s u.card free) (
      refl,
      record {
        card = unfold present in u.card;
        size = length-set s.tx_ring s.tx_next (sent_desc p s f) ∙ u.size;
        next = omega (arith, n);
        slots = λ i h.
            rw
              (
                get_or-set s.tx_ring s.tx_next i (sent_desc p s f) tx_zero
                    (omega (arith, u.size, n)),
                n,
              )
              (after i k h (u.slots i h));
      },
    )
  where
    after :
        (i k : ℕ)
        → i < tx_ring_size
        → (tx_desc_at s i).status ≡ (if ltb i k then 0 else status_dd)
        → (if i == k then sent_desc p s f else tx_desc_at s i).status
          ≡ (if ltb i (suc k) then 0 else status_dd)
    after i k h e = ground (arith, e)

full : (p : ℕ) (f : List ℕ) (s : E1000) → Used tx_ring_size s → tx_frame p f s ≡ (s, [], false)
unfolding tx_frame
full p f s u =
    let n : s.tx_next ≡ 0 = omega (arith, u.next) in
    let z : (tx_desc_at s s.tx_next).status ≡ 0 = rw n (u.slots 0 (omega arith)) in
    rw (u.card, z) refl

all_full :
    (p : ℕ) (fs : List (List ℕ)) (s : E1000)
    → Used tx_ring_size s
    → send_all p fs s ≡ replicate (length fs) false
unfolding send_all
all_full p [] s u = refl
all_full p (f ∷ fs) s u = rw (full p f s u) (ap (◌∷◌ false) (all_full p fs s u))

send_from :
    (p : ℕ) (fs : List (List ℕ)) (m k : ℕ) (s : E1000)
    → k + m ≡ tx_ring_size
    → Used k s
    → send_all p fs s ≡ replicate (min m (length fs)) true ++ replicate (length fs - m) false
unfolding send_all
send_from p [] m k s e u =
    let z : min m 0 ≡ 0 = omega arith in let y : 0 - m ≡ 0 = omega arith in rw (z, y) refl
send_from p (f ∷ fs) zero k s e u =
    let h : k ≡ tx_ring_size = omega (arith, e) in
    let z : min 0 (length (f ∷ fs)) ≡ 0 = omega arith in
    let y : length (f ∷ fs) - 0 ≡ length (f ∷ fs) = omega arith in
    rw (z, y) (all_full p (f ∷ fs) s (subst (λ j. Used j s) h u))
send_from p (f ∷ fs) (suc m) k s e u =
    let (t, v) = send-Used p f k s (omega (arith, e)) u in
    let ih = send_from p fs m (suc k) (tx_frame p f s).0 (omega (arith, e)) v in
    let z : min (suc m) (length (f ∷ fs)) ≡ suc (min m (length fs)) = omega arith in
    let y : length (f ∷ fs) - suc m ≡ length fs - m = omega arith in rw (t, z, y) (ap (◌∷◌ true) ih)

cleared_at :
    (ds : List TxDesc) (i : ℕ)
    → i < length ds
    → (get_or (tx_cleared ds) i tx_zero).status ≡ status_dd
unfolding tx_cleared
cleared_at [] i h = absurd (omega arith)
cleared_at (d ∷ ds) zero h = refl
cleared_at (d ∷ ds) (suc i) h = cleared_at ds i (omega arith)

length-cleared : (ds : List TxDesc) → length (tx_cleared ds) ≡ length ds
unfolding tx_cleared
length-cleared [] = refl
length-cleared (d ∷ ds) = ap suc (length-cleared ds)

setup-Used :
    (p : ℕ) (s : E1000)
    → present s ≡ true
    → length s.tx_ring ≡ tx_ring_size
    → s.tx_next ≡ 0
    → Used 0 (setup_tx p s).0
unfolding setup_tx
setup-Used p s h l n = record {
  card = unfold present in h;
  size = length-cleared s.tx_ring ∙ l;
  next = omega (arith, n);
  slots = λ i q. cleared_at s.tx_ring i (omega (arith, l)) ∙ ground arith;
}

-- After the set-up of the transmission, and while the card frees no descriptor, the first eight frames
-- are taken and every later one is refused.
pub send_all_lem :
    (ring p : ℕ) (fs : List (List ℕ)) (s : E1000)
    → present s ≡ true
    → length s.tx_ring ≡ tx_ring_size
    → s.tx_next ≡ 0
    → send_all p fs (setup_tx ring s).0
      ≡ replicate (min tx_ring_size (length fs)) true ++ replicate (length fs - tx_ring_size) false
send_all_lem ring p fs s h l n = send_from p fs tx_ring_size 0 _ refl (setup-Used ring s h l n)
