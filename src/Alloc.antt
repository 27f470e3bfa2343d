-- ===== src/Alloc.antt =====
-- src/alloc.rs: the bump allocator. A `usize` has 64 bits, and its sums and differences wrap as in
-- the release build. The alignment is a power of two, 2 ^ k, which the code asserts when it is
-- built for debugging. The address of the static region is a parameter of the operations.
pub mod Blocks
use nova_exo.Base.{
  ℕ, ◌+◌, ◌-◌, ◌%◌, ◌^◌, Option, none, some, List, [], ◌∷◌, ltb, if◌then◌else◌, u64,
}

abbrev pub heap_size : ℕ
heap_size = 1048576

-- `a - b` on `usize`
abbrev pub sub64 : ℕ → ℕ → ℕ
sub64 a b = u64 (a + (18446744073709551616 - b))

-- `v & !(align - 1)` clears the low k bits.
unfoldable pub align_up : ℕ → ℕ → ℕ
align_up v k = let w = sub64 (u64 (v + 2 ^ k)) 1 in w - w % 2 ^ k

-- The state is BUMP; the result is the address, or none for `OutOfMemory`.
unfoldable pub alloc : ℕ → ℕ → ℕ → ℕ → ℕ × Option ℕ
alloc base size k bump =
    let start = align_up (u64 (base + bump)) k in
    let end = u64 (start + size) in
    if ltb heap_size (sub64 end base) then (bump, none) else (sub64 end base, some start)

unfoldable pub reset : ℕ → ℕ
reset bump = 0

unfoldable pub allocated_bytes : ℕ → ℕ
allocated_bytes bump = bump

-- A sequence of requests (size, k): the last state, and the blocks (address, size) that were given.
unfoldable pub alloc_all : ℕ → List (ℕ × ℕ) → ℕ → ℕ × List (ℕ × ℕ)
alloc_all base [] bump = (bump, [])
alloc_all base ((size, k) ∷ rs) bump =
    let (bump', p) = alloc base size k bump in
    let (z, bs) = alloc_all base rs bump' in (z, elim p [ none ↦ bs | some a ↦ (a, size) ∷ bs ])
