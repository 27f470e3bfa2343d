-- ===== src/Cfc/Pattern.antt =====
-- src/cfc.rs: the memory of the patterns, sixteen states of the network.
use nova_exo.Base.{
  ℕ, zero, suc, ◌+◌, ◌%◌, Bool, false, ◌||◌, Option, none, some, List, [], ◌∷◌, if◌then◌else◌, ltb,
  leb, ◌==◌, set, get_or, replicate,
}
use nova_exo.Base.Int.{ℤ, pos, negsuc, add_ℤ, mul_ℤ}
use nova_exo.Best.{best_from}
use nova_exo.Fp.{Fp}
use nova_exo.Cfc.Esperienze.{Cells, no_cells, total_neurons}

abbrev pub pattern_cap : ℕ
pattern_cap = 16

pub record Patterns : Type 0 where
  pub count : ℕ
  pub head : ℕ
  pub ticks : List ℕ
  pub cells : List Cells

abbrev pub pattern_empty : Patterns
pattern_empty = record {
  count = 0;
  head = 0;
  ticks = replicate pattern_cap 0;
  cells = replicate pattern_cap no_cells;
}

unfoldable pub pattern_clear : Patterns → Patterns
pattern_clear p = record p { count = 0; head = 0 }

unfoldable pub pattern_store : ℕ → Cells → Patterns → Patterns
pattern_store tick cells p = record {
  ticks = set p.ticks p.head tick;
  cells = set p.cells p.head cells;
  count = if ltb p.count pattern_cap then p.count + 1 else p.count;
  head = (p.head + 1) % pattern_cap;
}

unfoldable pub pattern_get : Patterns → ℕ → Option (ℕ × Cells)
pattern_get p idx =
    if leb p.count idx then none else some (get_or p.ticks idx 0, get_or p.cells idx no_cells)

unfoldable pub store_all : List (ℕ × Cells) → Patterns → Patterns
store_all [] p = p
store_all ((t, c) ∷ rs) p = store_all rs (pattern_store t c p)

abbrev pub is_zero : ℤ → Bool
is_zero (pos n) = n == 0
is_zero (negsuc n) = false

-- The sums of products in `i64`, which cannot overflow for 32 products of two i16.
unfoldable pub dot_from : Cells → Cells → ℕ → ℕ → ℤ → ℤ
dot_from a b zero i acc = acc
dot_from a b (suc k) i acc =
    dot_from a b k (i + 1) (add_ℤ acc (mul_ℤ (get_or a i (pos 0)) (get_or b i (pos 0))))

unfoldable pub dot : Cells → Cells → ℤ
dot a b = dot_from a b total_neurons 0 (pos 0)

-- `sqrtf` of src/math.rs is an argument.
module _ (fp : Fp) (sqrtf : fp.F → fp.F) where
  open fp use {F, lit, neg, mul, div, lt, of_int}

  unfoldable pub pattern_similarity : Cells → Cells → F
  unfolding dot
  pattern_similarity a b =
      let na = dot a a in
      let nb = dot b b in
      if is_zero na || is_zero nb
      then lit 0 0
      else div (of_int (dot a b)) (mul (sqrtf (of_int na)) (sqrtf (of_int nb)))

  abbrev pub sim_at : Patterns → Cells → ℕ → F
  sim_at p cells i = pattern_similarity cells (get_or p.cells i no_cells)

  unfoldable pub pattern_recall : Patterns → Cells → Option (ℕ × ℕ × F)
  pattern_recall p cells =
      let r = best_from lt (sim_at p cells) p.count 0 0 (neg (lit 1 0)) in
      if p.count == 0 then none else some (r.0, get_or p.ticks r.0 0, r.1)

  unfoldable pub pattern_recall_full : Patterns → Cells → Option (ℕ × F × Cells)
  pattern_recall_full p cells =
      let r = best_from lt (sim_at p cells) p.count 0 0 (neg (lit 1 0)) in
      if p.count == 0 then none else some (get_or p.ticks r.0 0, r.1, get_or p.cells r.0 no_cells)
