-- ===== src/E1000/Poll.antt =====
-- src/e1000.rs: a poll of the receive ring.
use nova_exo.Base.{
  ltb→lt, ltb→le, ℕ, zero, suc, ◌+◌, ◌≡◌, ◌≢◌, ◌≤◌, ◌<◌, refl, ap, ◌∙◌, arith, false, Bool-cases,
  List, ltb, if◌then◌else◌, ne→==, ==_refl, length, length-set, get_or, get_or-set, bit,
}
use mathlib.Core.Logic.{inl, inr}
use nova_exo.Rx.{Rx}
use nova_exo.E1000.{E1000, RxDesc, rx_zero, rx_ring_size, poll_desc, poll_from, poll_rx}

-- A round keeps the length, frees its descriptor and leaves the others.
round :
    (pool : List ℕ) (i : ℕ) (ring : List RxDesc) (port : Rx)
    → i < length ring
    → (length (poll_desc pool i (ring, port)).0 ≡ length ring)
      × (bit (get_or (poll_desc pool i (ring, port)).0 i rx_zero).status 0 ≡ false)
      × ((j : ℕ)
          → j ≢ i
          → get_or (poll_desc pool i (ring, port)).0 j rx_zero ≡ get_or ring j rx_zero)
unfolding poll_desc
round pool i ring port l = elim (Bool-cases (bit (get_or ring i rx_zero).status 0)) [
  | inl t ↦
      let d = get_or ring i rx_zero in
      let w = λ (j : ℕ). get_or-set ring i j (record d { status = 0 }) rx_zero l in
      rw t (
        length-set ring i _,
        rw
            (w i
              ∙ ap (λ c. if c then record d { status = 0 } else get_or ring i rx_zero) (==_refl i))
            refl,
        λ j n.
            w j
            ∙ ap (λ c. if c then record d { status = 0 } else get_or ring j rx_zero) (ne→== j i n),
      )
  | inr f ↦ rw f (refl, f, λ j n. refl)
]

-- Is the descriptor with no packet?
abbrev Free : List RxDesc → ℕ → Type 0
Free ring j = bit (get_or ring j rx_zero).status 0 ≡ false

rounds :
    (pool : List ℕ) (i k : ℕ) (r : List RxDesc × Rx)
    → i + k ≤ length r.0
    → (length (poll_from pool i k r).0 ≡ length r.0)
      × ((j : ℕ) → j < i → get_or (poll_from pool i k r).0 j rx_zero ≡ get_or r.0 j rx_zero)
      × ((j : ℕ) → i ≤ j → j < i + k → Free (poll_from pool i k r).0 j)
unfolding poll_from
rounds pool i zero r l = (refl, (λ j h. refl), (λ j a b. absurd (omega arith)))
rounds pool i (suc k) (ring, port) l =
    let (len, free, other) = round pool i ring port (omega arith) in
    let (m, before, after) =
      rounds pool (i + 1) k (poll_desc pool i (ring, port)) (omega (arith, len)) in
    (
      m ∙ len,
      (λ j h. before j (omega arith) ∙ other j (λ e. omega (arith, e))),
      (λ j a b. elim (Bool-cases (ltb i j)) [
        | inl y ↦ after j (omega (arith, ltb→lt i j y)) (omega arith)
        | inr z ↦
            let e : j ≡ i = omega (arith, ltb→le i j z) in
            rw e (ap (λ (d : RxDesc). bit d.status 0) (before i (omega arith)) ∙ free)
      ]),
    )

quiet :
    (pool : List ℕ) (i k : ℕ) (ring : List RxDesc) (port : Rx)
    → ((j : ℕ) → i ≤ j → j < i + k → Free ring j)
    → poll_from pool i k (ring, port) ≡ (ring, port)
unfolding poll_from
quiet pool i zero ring port h = refl
quiet pool i (suc k) ring port h =
    let e : poll_desc pool i (ring, port) ≡ (ring, port) =
      unfold poll_desc in (rw (h i (omega arith) (omega arith)) refl) in
    rw e (quiet pool (i + 1) k ring port (λ j a b. h j (omega arith) (omega arith)))

-- After a poll of a ring of eight no descriptor holds a packet, and a second poll, with no packet in
-- between, changes nothing: no packet is given to the port twice.
pub poll_rx_lem :
    (s : E1000) (j : ℕ)
    → length s.rx_ring ≡ rx_ring_size
    → j < rx_ring_size
    → (bit (get_or (poll_rx s).rx_ring j rx_zero).status 0 ≡ false)
      × (poll_rx (poll_rx s) ≡ poll_rx s)
unfolding poll_rx
poll_rx_lem s j l h =
    let (m, _, free) = rounds s.rx_pool 0 rx_ring_size (s.rx_ring, s.port) (omega (arith, l)) in
    let r = poll_from s.rx_pool 0 rx_ring_size (s.rx_ring, s.port) in
    let q : poll_from s.rx_pool 0 rx_ring_size (r.0, r.1) ≡ (r.0, r.1) =
      quiet s.rx_pool 0 rx_ring_size r.0 r.1 (λ i a b. free i a b) in
    (free j (omega arith) (omega arith), rw q refl)
