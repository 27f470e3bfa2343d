-- ===== src/Ahci/Wait.antt =====
-- src/ahci.rs: the end of a command.
use nova_exo.Base.{
  ℕ, zero, suc, ◌+◌, ◌≡◌, ◌≤◌, ◌<◌, ◌↔◌, refl, sym, ◌∙◌, arith, Bool, true, false, not, ◌&&◌,
  Bool-cases, [], ◌∷◌, ltb, ltb→lt, ltb→le, bit,
}
use mathlib.Core.Logic.{inl, inr}
use nova_exo.Ahci.{Disco, completed, issue, port_base, p_is, p_ci, p_cmd, p_tfd}

-- At read `j` the device's frame has come, and no read up to it showed an error.
unfoldable pub Answered : (ℕ → ℕ) → ℕ → ℕ → Type 0
Answered reads i j = (bit (reads j) 0 ≡ true) × ((m : ℕ) → i ≤ m → m ≤ j → bit (reads m) 30 ≡ false)

impossible : true ≡ false → ⊥
impossible e = cc

earlier :
    (reads : ℕ → ℕ) (i j m : ℕ)
    → bit (reads i) 30 ≡ false
    → Answered reads (i + 1) j
    → i ≤ m
    → m ≤ j
    → bit (reads m) 30 ≡ false
unfolding Answered
earlier reads i j m z (p, q) l u = elim (Bool-cases (ltb i m)) [
  | inl y ↦ q m (omega (arith, ltb→lt i m y)) u
  | inr n ↦ let e : m ≡ i = omega (arith, ltb→le i m n) in rw e z
]

Seen : (ℕ → ℕ) → ℕ → ℕ → Type 0
Seen reads k i = (j : ℕ) × (i ≤ j) × (j < i + k) × Answered reads i j

at_once :
    (reads : ℕ → ℕ) (k i : ℕ)
    → bit (reads i) 30 ≡ false
    → bit (reads i) 0 ≡ true
    → Seen reads (suc k) i
unfolding Answered Seen
at_once reads k i z y =
    (i, omega arith, omega arith, (y, λ m a b. let e : m ≡ i = omega arith in rw e z))

after_one :
    (reads : ℕ → ℕ) (k i : ℕ)
    → bit (reads i) 30 ≡ false
    → Seen reads k (i + 1)
    → Seen reads (suc k) i
unfolding Seen
after_one reads k i z (j, a, b, q) =
    (j, omega arith, omega arith, unfold Answered in (q.0, λ m l u. earlier reads i j m z q l u))

completed→ : (reads : ℕ → ℕ) (k i : ℕ) → completed reads k i ≡ true → Seen reads k i
unfolding completed
completed→ reads zero i h = absurd (impossible (sym h))
completed→ reads (suc k) i h = elim (Bool-cases (bit (reads i) 30)) [
  | inl y ↦ absurd (impossible (sym h ∙ rw y refl))
  | inr z ↦ elim (Bool-cases (bit (reads i) 0)) [
    | inl y ↦ at_once reads k i z y
    | inr n ↦ after_one reads k i z (completed→ reads k (i + 1) (sym (rw (z, n) refl) ∙ h))
  ]
]

completed← :
    (reads : ℕ → ℕ) (k i j : ℕ)
    → i ≤ j
    → j < i + k
    → Answered reads i j
    → completed reads k i ≡ true
unfolding completed Answered
completed← reads zero i j a b q = absurd (omega arith)
completed← reads (suc k) i j a b (d, e) = elim (Bool-cases (bit (reads i) 0)) [
  | inl y ↦ rw (e i (omega arith) a, y) refl
  | inr n ↦
      rw (e i (omega arith) a, n)
        (elim (Bool-cases (ltb i j)) [
          | inl l ↦
              completed← reads k (i + 1) j (omega (arith, ltb→lt i j l)) (omega arith)
                (d, λ m u v. e m (omega arith) v)
          | inr g ↦ absurd (let q : j ≡ i = omega (arith, ltb→le i j g) in ground (arith, n, d, q))
        ])
]

-- Is the disk usable and its port started and not busy?
abbrev pub ready : Disco → (ℕ → ℕ) → Bool
ready d regs =
    d.presente
    && d.leggibile
    && (bit (regs (port_base d.porta + p_cmd)) 0 && not (bit (regs (port_base d.porta + p_tfd)) 7))

-- A command to a disk that is absent, not legible, stopped or busy fails and writes no register.
pub issue_refused :
    (d : Disco) (regs reads : ℕ → ℕ) (rounds : ℕ)
    → ready d regs ≡ false
    → issue d regs reads rounds ≡ ([], false)
unfolding issue
issue_refused d regs reads rounds h = ground (arith, h)

issue-ready :
    (d : Disco) (regs reads : ℕ → ℕ) (rounds : ℕ)
    → ready d regs ≡ true
    → issue d regs reads rounds ≡ (
      (port_base d.porta + p_is, 0xFFFF_FFFF) ∷ (port_base d.porta + p_ci, 1) ∷ [],
      completed reads rounds 0,
    )
unfolding issue
issue-ready d regs reads rounds h = ground (arith, h)

-- A command to a disk that is usable, its port started and not busy, clears the interrupts and then
-- issues the command; it succeeds exactly where one of the reads of the wait shows the device's frame
-- and none up to it an error.
pub issue_lem :
    (d : Disco) (regs reads : ℕ → ℕ) (rounds : ℕ)
    → ready d regs ≡ true
    → ((issue d regs reads rounds).0
        ≡ (port_base d.porta + p_is, 0xFFFF_FFFF) ∷ (port_base d.porta + p_ci, 1) ∷ [])
      × (((issue d regs reads rounds).1 ≡ true) ↔ ((j : ℕ) × (j < rounds) × Answered reads 0 j))
issue_lem d regs reads rounds h = rw (issue-ready d regs reads rounds h) (
  refl,
  (
    (λ e. unfold Seen in (let (j, a, b, q) = completed→ reads rounds 0 e in (j, omega arith, q))),
    (λ (j, b, q). completed← reads rounds 0 j (omega arith) (omega arith) q),
  ),
)
