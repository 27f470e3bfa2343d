-- ===== src/Cfc/Recall.antt =====
-- src/cfc.rs: the memory keeps the last sixteen patterns, and a recall finds the most similar.
use nova_exo.Base.{
  ℕ, ◌+◌, ◌%◌, ◌<◌, ◌≤◌, ◌≡◌, refl, arith, false, none, some, List, [], ◌∷◌, ◌++◌, append_assoc,
  append-nil, map, length, length-append, length-replicate, leb, get_or, min,
}
use mathlib.Core.Path.{subst}
use nova_exo.Fp.{Fp}
use nova_exo.Ring.{Holds, empty-Holds, write_map-Holds, read_map-Holds}
use nova_exo.Cfc.Esperienze.{Cells, no_cells}
use nova_exo.Cfc.Pattern.{
  Patterns, pattern_cap, pattern_empty, pattern_store, pattern_get, store_all,
}

abbrev tick_of : ℕ × Cells → ℕ
tick_of r = r.0

abbrev cells_of : ℕ × Cells → Cells
cells_of r = r.1

record Kept (rs : List (ℕ × Cells)) (p : Patterns) : Type 0 where
  count : p.count ≡ min (length rs) pattern_cap
  head : p.head ≡ length rs % pattern_cap
  ticks : Holds pattern_cap 0 (map tick_of rs) p.ticks
  cells : Holds pattern_cap no_cells (map cells_of rs) p.cells

store-Kept :
    (rs : List (ℕ × Cells)) (p : Patterns) (t : ℕ) (c : Cells)
    → Kept rs p
    → Kept (rs ++ ((t, c) ∷ [])) (pattern_store t c p)
unfolding pattern_store
store-Kept rs p t c k = record {
  count = ground (arith, k.count, length-append rs ((t, c) ∷ []));
  head = omega (arith, k.head, length-append rs ((t, c) ∷ []));
  ticks = rw k.head (write_map-Holds pattern_cap tick_of 0 rs p.ticks (t, c) (omega arith) k.ticks);
  cells =
      rw k.head
        (write_map-Holds pattern_cap cells_of no_cells rs p.cells (t, c) (omega arith) k.cells);
}

all-Kept : (rs qs : List (ℕ × Cells)) (p : Patterns) → Kept rs p → Kept (rs ++ qs) (store_all qs p)
unfolding store_all
all-Kept rs [] p k = rw (append-nil rs) k
all-Kept rs ((t, c) ∷ qs) p k =
    subst (λ z. Kept z (store_all qs (pattern_store t c p))) (append_assoc rs ((t, c) ∷ []) qs)
      (all-Kept (rs ++ ((t, c) ∷ [])) qs (pattern_store t c p) (store-Kept rs p t c k))

start-Kept : Kept [] pattern_empty
start-Kept = record {
  count = refl;
  head = refl;
  ticks = empty-Holds pattern_cap 0 _ (length-replicate {A = ℕ} pattern_cap 0);
  cells = empty-Holds pattern_cap no_cells _ (length-replicate pattern_cap no_cells);
}

get_some :
    (rs : List (ℕ × Cells)) (p : Patterns) (i : ℕ)
    → Kept rs p
    → i < length rs
    → length rs ≤ i + pattern_cap
    → pattern_get p (i % pattern_cap) ≡ some (get_or rs i (0, no_cells))
unfolding pattern_get
get_some rs p i k l u =
    let e : leb p.count (i % pattern_cap) ≡ false = ground (arith, k.count, l) in
    let a = read_map-Holds pattern_cap tick_of (0, no_cells) rs p.ticks i k.ticks l u in
    let b = read_map-Holds pattern_cap cells_of (0, no_cells) rs p.cells i k.cells l u in
    rw (e, a, b) refl

get_none :
    (rs : List (ℕ × Cells)) (p : Patterns) (j : ℕ)
    → Kept rs p
    → min (length rs) pattern_cap ≤ j
    → pattern_get p j ≡ none
unfolding pattern_get
get_none rs p j k h = ground (arith, k.count)

-- After any number of stores in an empty memory, each of the last sixteen patterns is got at its
-- number modulo 16, and an index not below the number of stores, or 16, gives nothing.
pub store_all_lem :
    (rs : List (ℕ × Cells)) (i j : ℕ)
    → i < length rs
    → length rs ≤ i + pattern_cap
    → min (length rs) pattern_cap ≤ j
    → (pattern_get (store_all rs pattern_empty) (i % pattern_cap)
        ≡ some (get_or rs i (0, no_cells)))
      × (pattern_get (store_all rs pattern_empty) j ≡ none)
store_all_lem rs i j l u o =
    let k = all-Kept [] rs pattern_empty start-Kept in (get_some rs _ i k l u, get_none rs _ j k o)
