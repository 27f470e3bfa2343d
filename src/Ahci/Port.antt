-- ===== src/Ahci/Port.antt =====
-- src/ahci.rs: the port that is found.
use nova_exo.Base.{
  ℕ, zero, suc, ◌+◌, ◌*◌, ◌/◌, ◌%◌, ◌^◌, ◌≡◌, ap, ◌≤◌, ◌<◌, arith, true, false, Bool-cases, Option,
  none, some, ltb, ltb→lt, ltb→le,
}
use mathlib.Core.Logic.{inl, inr}
use nova_exo.Ahci.{has_disk, trova_from, trova_porta}

-- The registers of a port with a disk: its bit of PI at 0x0C is set, the low four bits of its SSTS
-- (0x128 of port 0, ports 0x80 apart) say that the link is up, and its SIG (0x124) is that of a disk.
unfoldable pub HasDisk : (ℕ → ℕ) → ℕ → Type 0
HasDisk regs i =
    (regs 0x0C / 2 ^ i % 2 ≡ 1)
    × (regs (0x128 + i * 0x80) % 16 ≡ 3)
    × (regs (0x124 + i * 0x80) ≡ 0x0101)

has_disk-HasDisk : (regs : ℕ → ℕ) (i : ℕ) → has_disk regs i ≡ true → HasDisk regs i
unfolding HasDisk
has_disk-HasDisk regs i h =
    let ssts : 0x100 + i * 0x80 + 0x28 ≡ 0x128 + i * 0x80 = omega arith in
    let sig : 0x100 + i * 0x80 + 0x24 ≡ 0x124 + i * 0x80 = omega arith in
    ground (arith, h, ap regs ssts, ap regs sig)

HasDisk-has_disk : (regs : ℕ → ℕ) (i : ℕ) → HasDisk regs i → has_disk regs i ≡ true
unfolding HasDisk
HasDisk-has_disk regs i (p, l, q) =
    let ssts : 0x100 + i * 0x80 + 0x28 ≡ 0x128 + i * 0x80 = omega arith in
    let sig : 0x100 + i * 0x80 + 0x24 ≡ 0x124 + i * 0x80 = omega arith in
    ground (arith, p, l, q, ap regs ssts, ap regs sig)

-- What a search over the ports from `i` to below `i + k` says.
unfoldable Found : (ℕ → ℕ) → ℕ → ℕ → Option ℕ → Type 0
Found regs k i none = (j : ℕ) → i ≤ j → j < i + k → has_disk regs j ≡ false
Found regs k i (some p) =
    (i ≤ p)
    × (p < i + k)
    × (has_disk regs p ≡ true)
    × ((j : ℕ) → i ≤ j → j < p → has_disk regs j ≡ false)

later :
    (regs : ℕ → ℕ) (k i : ℕ) (r : Option ℕ)
    → has_disk regs i ≡ false
    → Found regs k (i + 1) r
    → Found regs (suc k) i r
unfolding Found
later regs k i none e h = λ j a b. elim (Bool-cases (ltb i j)) [
  | inl y ↦ h j (omega (arith, ltb→lt i j y)) (omega arith)
  | inr z ↦ let q : j ≡ i = omega (arith, ltb→le i j z) in rw q e
]
later regs k i (some p) e (a, b, c, d) = (
  omega arith,
  omega arith,
  c,
  λ j l u. elim (Bool-cases (ltb i j)) [
    | inl y ↦ d j (omega (arith, ltb→lt i j y)) u
    | inr z ↦ let q : j ≡ i = omega (arith, ltb→le i j z) in rw q e
  ],
)

from-Found : (regs : ℕ → ℕ) (k i : ℕ) → Found regs k i (trova_from regs k i)
unfolding trova_from
from-Found regs zero i = unfold Found in (λ j a b. absurd (omega arith))
from-Found regs (suc k) i = elim (Bool-cases (has_disk regs i)) [
  | inl y ↦ rw y (unfold Found in (omega arith, omega arith, y, λ j a b. absurd (omega arith)))
  | inr z ↦ rw z (later regs k i (trova_from regs k (i + 1)) z (from-Found regs k (i + 1)))
]

-- What a search over the 32 ports says of their registers.
unfoldable pub First : (ℕ → ℕ) → Option ℕ → Type 0
First regs none = (j : ℕ) → j < 32 → ¬ HasDisk regs j
First regs (some p) = (p < 32) × HasDisk regs p × ((j : ℕ) → j < p → ¬ HasDisk regs j)

no_disk : (regs : ℕ → ℕ) (j : ℕ) → has_disk regs j ≡ false → ¬ HasDisk regs j
no_disk regs j e h = absurd (cc (e, HasDisk-has_disk regs j h))

Found-First : (regs : ℕ → ℕ) (r : Option ℕ) → Found regs 32 0 r → First regs r
unfolding Found First
Found-First regs none f = λ j h. no_disk regs j (f j (omega arith) (omega arith))
Found-First regs (some p) (_, b, d, f) =
    (omega arith, has_disk-HasDisk regs p d, λ j h. no_disk regs j (f j (omega arith) h))

-- The port that is found is the first of the 32 whose bit of PI is set, whose low four bits of SSTS
-- are 3 and whose SIG is that of a disk, whatever the power state in the other bits of SSTS; where
-- none is found, no port is so.
pub trova_porta-First : (regs : ℕ → ℕ) → First regs (trova_porta regs)
unfolding trova_porta
trova_porta-First regs = Found-First regs (trova_from regs 32 0) (from-Found regs 32 0)
