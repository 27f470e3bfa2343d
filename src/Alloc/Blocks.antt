-- ===== src/Alloc/Blocks.antt =====
-- The blocks that the allocator gives.
use nova_exo.Base.{
  ℕ, suc, ◌+◌, ◌-◌, ◌*◌, ◌/◌, ◌%◌, ◌^◌, ◌≤◌, ◌<◌, ◌≡◌, refl, sym, ◌∙◌, ap, Option, none, some, List,
  [], ◌∷◌, arith, ltb, if◌then◌else◌, u64, ltb→lt, ltb→le, Bool-cases,
}
use mathlib.Core.Logic.{inl, inr}
use mathlib.Core.Path.{subst}
use native.Mathlib.Nat.{mod-lt, mul-mod_left, mul-le-mul_right, div-add-mod'}
use nova_exo.Alloc.{heap_size, sub64, align_up, alloc, alloc_all}

-- The next multiple of 2 ^ k.
pub align_up_lem :
    (v k : ℕ)
    → 0 < 2 ^ k
    → v + 2 ^ k < 2 ^ 64
    → align_up v k ≡ v + 2 ^ k - 1 - (v + 2 ^ k - 1) % 2 ^ k
unfolding align_up
align_up_lem v k p h = ap (λ w. w - w % 2 ^ k) (omega arith)

-- The blocks lie between `lo` and `hi`, in their order, and do not overlap.
unfoldable pub Blocks : ℕ → ℕ → List (ℕ × ℕ) → Type 0
Blocks lo hi [] = lo ≤ hi
Blocks lo hi ((a, n) ∷ bs) = (lo ≤ a) × Blocks (a + n) hi bs

le_mul : (a b p : ℕ) → a ≤ b → a * p ≤ b * p
le_mul a b p h = mul-le-mul_right p h

-- Two multiples of p are at least p apart.
mul_gap : (q m p : ℕ) → q * p < m * p → q * p + p ≤ m * p
mul_gap q m p h = elim (Bool-cases (ltb q m)) [
  | inl l ↦ omega (arith, le_mul (suc q) m p (ltb→lt q m l))
  | inr g ↦ absurd (omega (arith, le_mul m q p (ltb→le q m g)))
]

-- The multiple of p that the code computes: at least v, and below every other that is.
round_up : (v p : ℕ) → 0 < p → v ≤ v + p - 1 - (v + p - 1) % p
round_up v p h = omega (arith, mod-lt (v + p - 1) h)

round_up-multiple : (w p : ℕ) → (w - w % p) ≡ w / p * p
round_up-multiple w p = omega (arith, div-add-mod' w p)

round_up-least : (v p a : ℕ) → 0 < p → v ≤ a → a % p ≡ 0 → v + p - 1 - (v + p - 1) % p ≤ a
round_up-least v p a h le e = elim (Bool-cases (ltb a (v + p - 1 - (v + p - 1) % p))) [
  | inl l ↦ absurd (
      omega (
        arith,
        mul_gap (a / p) ((v + p - 1) / p) p
            (omega (arith, ltb→lt _ _ l, div-add-mod' a p, div-add-mod' (v + p - 1) p)),
        ltb→lt _ _ l,
        div-add-mod' a p,
        div-add-mod' (v + p - 1) p,
      ))
  | inr g ↦ ltb→le _ _ g
]

-- An alignment leaves room behind the region's end before the address space ends, and a size is no
-- negative number of a few bytes. The region of the kernel is linked above 0xffffffff80000000, so an
-- end `start + size` may wrap, and the difference to the region's address wraps back.
unfoldable pub Fits : ℕ → ℕ → ℕ → ℕ → Type 0
Fits base size k bump =
    (base + heap_size + 2 ^ k < 2 ^ 64)
    × (size + heap_size + 2 ^ k < 2 ^ 64)
    × (0 < 2 ^ k)
    × (bump ≤ heap_size)

-- What a request promises. A refusal leaves the state, and no aligned place above the last block
-- leaves room; a block is the first aligned place, and the next block starts after it.
unfoldable pub Served : ℕ → ℕ → ℕ → ℕ → ℕ × Option ℕ → Type 0
Served base size k bump (bump', none) =
    (bump' ≡ bump) × ((a : ℕ) → base + bump ≤ a → a % 2 ^ k ≡ 0 → base + heap_size < a + size)
Served base size k bump (bump', some a) =
    (base + bump ≤ a)
    × (a % 2 ^ k ≡ 0)
    × (a + size ≡ base + bump')
    × (bump' ≤ heap_size)
    × ((b : ℕ) → base + bump ≤ b → b % 2 ^ k ≡ 0 → a ≤ b)

align_up-facts :
    (v k : ℕ)
    → 0 < 2 ^ k
    → v + 2 ^ k < 2 ^ 64
    → (v ≤ align_up v k)
      × (align_up v k % 2 ^ k ≡ 0)
      × (align_up v k < v + 2 ^ k)
      × ((b : ℕ) → v ≤ b → b % 2 ^ k ≡ 0 → align_up v k ≤ b)
align_up-facts v k p h = rw (align_up_lem v k p h) (
  round_up v (2 ^ k) p,
  ap (λ x. x % 2 ^ k) (round_up-multiple (v + 2 ^ k - 1) (2 ^ k)) ∙ mul-mod_left _ (2 ^ k),
  omega arith,
  λ b le e. round_up-least v (2 ^ k) b p le e,
)

Served-at :
    (base size k bump start : ℕ)
    → Fits base size k bump
    → (base + bump ≤ start)
      × (start % 2 ^ k ≡ 0)
      × (start < base + bump + 2 ^ k)
      × ((b : ℕ) → base + bump ≤ b → b % 2 ^ k ≡ 0 → start ≤ b)
    → Served base size k bump (
        if ltb heap_size (sub64 (u64 (start + size)) base)
        then (bump, none)
        else (sub64 (u64 (start + size)) base, some start))
unfolding Fits Served
Served-at base size k bump start (f1, f2, f3, f4) (le, al, up, least) =
    elim (Bool-cases (ltb heap_size (sub64 (u64 (start + size)) base))) [
      | inl l ↦ rw l (refl, λ a h e. omega (arith, least a h e, ltb→lt _ _ l))
      | inr g ↦ rw g (le, al, omega (arith), ltb→le _ _ g, least)
    ]

wrap_free :
    (base bump : ℕ) → base + heap_size < 2 ^ 64 → bump ≤ heap_size → u64 (base + bump) ≡ base + bump
wrap_free base bump h l = omega arith

-- For an alignment that leaves room between the end of the region and the end of the address space,
-- and a size that with it and the region's size stays below 2^64, a request
-- is either refused with the state unchanged, when no aligned address above the last block leaves
-- room in the region; or given the least aligned address above the last block, inside the region,
-- and the new offset is the end of the block.
pub alloc-Served :
    (base size k bump : ℕ)
    → Fits base size k bump
    → Served base size k bump (alloc base size k bump)
unfolding Fits alloc
alloc-Served base size k bump (f1, f2, f3, f4) = rw (wrap_free base bump (omega arith) f4) (
    Served-at base size k bump _ (f1, f2, f3, f4) (align_up-facts (base + bump) k f3 (omega arith)))

-- Every request of the list is of the sizes that `Fits` asks for.
unfoldable pub Requests : ℕ → List (ℕ × ℕ) → Type 0
Requests base [] = 0 ≤ 0
Requests base ((size, k) ∷ rs) =
    ((base + heap_size + 2 ^ k < 2 ^ 64) × (size + heap_size + 2 ^ k < 2 ^ 64) × (0 < 2 ^ k))
    × Requests base rs

-- What the list of blocks becomes when a request is answered.
Blocks-step :
    (base size k bump : ℕ) (r : ℕ × Option ℕ) (bs : List (ℕ × ℕ))
    → Served base size k bump r
    → Blocks (base + r.0) (base + heap_size) bs
    → Blocks (base + bump) (base + heap_size) (elim r.1 [ none ↦ bs | some a ↦ (a, size) ∷ bs ])
unfolding Served Blocks
Blocks-step base size k bump (b, none) bs (e, _) h =
    subst (λ x. Blocks (base + x) (base + heap_size) bs) e h
Blocks-step base size k bump (b, some a) bs (le, _, e, lb, _) h =
    (le, subst (λ x. Blocks x (base + heap_size) bs) (sym e) h)

Served-bound :
    (base size k bump : ℕ) (r : ℕ × Option ℕ)
    → bump ≤ heap_size
    → Served base size k bump r
    → r.0 ≤ heap_size
unfolding Served
Served-bound base size k bump (b, none) l (e, _) = omega arith
Served-bound base size k bump (b, some a) l (_, _, _, lb, _) = lb

-- For every sequence of requests whose alignments leave room behind the region and whose sizes, with
-- alignment and region, stay below 2^64, the blocks that are given lie in the region above the first offset, each starting at or after the end of the one
-- before.
pub alloc_all-Blocks :
    (base : ℕ) (rs : List (ℕ × ℕ)) (bump : ℕ)
    → bump ≤ heap_size
    → Requests base rs
    → Blocks (base + bump) (base + heap_size) (alloc_all base rs bump).1
unfolding alloc_all Requests Blocks Fits
alloc_all-Blocks base [] bump l q = omega arith
alloc_all-Blocks base ((size, k) ∷ rs) bump l ((q1, q2, q3), q) =
    let s = alloc-Served base size k bump (q1, q2, q3, l) in
    Blocks-step base size k bump (alloc base size k bump) _ s
      (alloc_all-Blocks base rs _ (Served-bound base size k bump _ l s) q)
