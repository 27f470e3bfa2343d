-- ===== src/Cfc/Recent.antt =====
-- src/cfc.rs: the buffer of the experiences keeps the last 32.
use nova_exo.Base.{ℕ, ◌≡◌, List, map, length, leb}
use nova_exo.Ring.{Holds}
use nova_exo.Cfc.Esperienze.{Cells, no_cells, Esperienze, exp_cap}

abbrev tick_of : ℕ × Cells → ℕ
tick_of r = r.0

abbrev cells_of : ℕ × Cells → Cells
cells_of r = r.1

-- The buffer after the experiences `rs`.
record Kept (rs : List (ℕ × Cells)) (e : Esperienze) : Type 0 where
  idx : e.idx ≡ length rs
  full : e.full ≡ leb exp_cap (length rs)
  ticks : Holds exp_cap 0 (map tick_of rs) e.ticks
  cells : Holds exp_cap no_cells (map cells_of rs) e.cells
