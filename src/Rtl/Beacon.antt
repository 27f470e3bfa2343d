-- ===== src/Rtl/Beacon.antt =====
-- The beacon and the outcome of a transmission.
use nova_exo.Base.{
  ℕ, ◌+◌, ◌^◌, ◌≤◌, ◌<◌, ◌≡◌, ◌⊎◌, refl, ◌∙◌, ap, false, some, List, [], ◌∷◌, ◌++◌, if◌then◌else◌,
  u64, length, take, drop, slice, replicate, write_at, length-write_at, codes, arith,
}
use nova_exo.Net.Writer.Decimal.{decimal, read_from, read_from-decimal, length-decimal}
use nova_exo.Rtl.{Nic, exo_mac, counter_digits, beacon_frame, tx_frame, own_cleared}

digits-decimal : (n : ℕ) → counter_digits n ≡ decimal 20 n
unfolding decimal
digits-decimal n = refl

-- A write at the front that fits shows there.
front : (dst src : List ℕ) → length src ≤ length dst → take (length src) (write_at dst 0 src) ≡ src
unfolding write_at
front [] [] h = refl
front [] (x ∷ xs) h = absurd (omega arith)
front (d ∷ ds) [] h = refl
front (d ∷ ds) (x ∷ xs) h = ap (λ r. x ∷ r) (front ds xs (omega arith))

-- The beacon before the counter is written.
abbrev beacon_start : List ℕ
beacon_start =
    write_at
      (write_at (write_at (write_at (replicate 60 0) 0 (replicate 6 0xFF)) 6 exo_mac) 12
        (0x88 ∷ 0xB5 ∷ []))
      14 (codes "EXO TICK ")

tail :
    (counter : ℕ)
    → drop 23 (beacon_frame counter) ≡ write_at (replicate 37 0) 0 (counter_digits counter)
unfolding beacon_frame write_at
tail counter = refl

-- For a counter below 2^64, the beacon has 60 bytes, broadcast and from the body's address, and the
-- decimal digits from its byte 23 on are read back as the counter.
pub beacon_frame-counter :
    (counter : ℕ)
    → counter < 2 ^ 64
    → (length (beacon_frame counter) ≡ 60)
      × (take 12 (beacon_frame counter) ≡ replicate 6 0xFF ++ exo_mac)
      × (read_from 0 (slice 23 (length (counter_digits counter)) (beacon_frame counter))
          ≡ some counter)
unfolding beacon_frame write_at
beacon_frame-counter counter h = (
  length-write_at beacon_start 23 (counter_digits counter),
  refl,
  ap (read_from 0) (
        ap (take (length (counter_digits counter))) (tail counter)
        ∙ front (replicate 37 0) (counter_digits counter)
            (omega (arith, (length-decimal counter).1 h, ap length (digits-decimal counter)))
        ∙ digits-decimal counter)
      ∙ read_from-decimal 20 counter (omega arith),
)

-- A transmission of 1 to 1518 bytes counts as sent just if it answers true, and as failed just if it
-- answers false (both counters modulo 2^64); any other length answers false and changes nothing.
pub tx_frame-counts :
    (rounds : ℕ) (reads : ℕ → ℕ) (frame : List ℕ) (s : Nic)
    → (0 < length frame
        → length frame ≤ 1518
        → ((tx_frame rounds reads frame s).0.tx_ok
            ≡ (if (tx_frame rounds reads frame s).1 then u64 (s.tx_ok + 1) else s.tx_ok))
          × ((tx_frame rounds reads frame s).0.tx_fail
              ≡ (if (tx_frame rounds reads frame s).1 then s.tx_fail else u64 (s.tx_fail + 1)))
          × ((tx_frame rounds reads frame s).1 ≡ own_cleared reads 0 rounds))
      × ((length frame ≡ 0) ⊎ (1518 < length frame) → tx_frame rounds reads frame s ≡ (s, false))
unfolding tx_frame
tx_frame-counts rounds reads frame s =
    (λ a b. (ground arith, ground arith, ground arith), λ c. ground (arith, c))
