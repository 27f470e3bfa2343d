-- ===== src/Cfc/Esperienze.antt =====
-- src/cfc.rs: the buffer of the experiences and the log, both rings of parallel arrays.
use nova_exo.Base.{
  ℕ, zero, suc, ◌+◌, ◌*◌, ◌%◌, Bool, true, false, List, [], ◌∷◌, if◌then◌else◌, ltb, leb, set,
  get_or, u64, replicate,
}
use nova_exo.Base.Int.{ℤ, pos}
use nova_exo.Fp.{Fp}

abbrev pub neurons_per_cell : ℕ
neurons_per_cell = 8

abbrev pub total_neurons : ℕ
total_neurons = 32

abbrev pub exp_cap : ℕ
exp_cap = 32

abbrev pub log_cap : ℕ
log_cap = 256

-- `[i16; TOTAL_NEURONS]`
abbrev pub Cells : Type 0
Cells = List ℤ

unfoldable pub no_cells : Cells
no_cells = replicate total_neurons (pos 0)

pub record Esperienze : Type 0 where
  pub idx : ℕ
  pub full : Bool
  pub ticks : List ℕ
  pub cells : List Cells

abbrev pub exp_empty : Esperienze
exp_empty = record {
  idx = 0;
  full = false;
  ticks = replicate exp_cap 0;
  cells = replicate exp_cap no_cells;
}

unfoldable pub exp_record : ℕ → Cells → Esperienze → Esperienze
exp_record tick cells e =
    let i = e.idx % exp_cap in
    let n = u64 (e.idx + 1) in
    record {
      idx = n;
      full = if leb exp_cap n then true else e.full;
      ticks = set e.ticks i tick;
      cells = set e.cells i cells;
    }

unfoldable pub exp_len : Esperienze → ℕ
exp_len e = if e.full then exp_cap else e.idx

unfoldable pub exp_tick_at : Esperienze → ℕ → ℕ
exp_tick_at e p = if ltb p exp_cap then get_or e.ticks p 0 else 0

unfoldable pub exp_cells_at : Esperienze → ℕ → Cells
exp_cells_at e p = if ltb p exp_cap then get_or e.cells p no_cells else no_cells

-- The experiences are recorded one after another.
unfoldable pub exp_all : List (ℕ × Cells) → Esperienze → Esperienze
exp_all [] e = e
exp_all ((t, c) ∷ rs) e = exp_all rs (exp_record t c e)

pub record Log : Type 0 where
  pub idx : ℕ
  pub ticks : List ℕ
  pub cells : List Cells

abbrev pub log_empty : Log
log_empty = record { idx = 0; ticks = replicate log_cap 0; cells = replicate log_cap no_cells }

module _ (fp : Fp) where
  open fp use {F, lit, mul, to_i16}

  abbrev pub hundredths : List F → ℕ → ℤ
  hundredths h j = to_i16 (mul (get_or h j (lit 0 0)) (lit 100 0))

  -- One round of the loop over the neurons, for the four cells that are kept.
  unfoldable pub pack_round : (tatto chemio metabol integrat : List F) → ℕ → Cells → Cells
  pack_round t c m g j out =
      set
        (set (set (set out j (hundredths t j)) (neurons_per_cell + j) (hundredths c j))
          (2 * neurons_per_cell + j) (hundredths m j))
        (3 * neurons_per_cell + j) (hundredths g j)

  unfoldable pub pack_from : (tatto chemio metabol integrat : List F) → ℕ → ℕ → Cells → Cells
  pack_from t c m g zero j out = out
  pack_from t c m g (suc k) j out = pack_from t c m g k (j + 1) (pack_round t c m g j out)

  unfoldable pub pack_cells : (tatto chemio metabol integrat : List F) → Cells
  unfolding no_cells
  pack_cells t c m g = pack_from t c m g neurons_per_cell 0 no_cells

  unfoldable pub log_record : ℕ → (tatto chemio metabol integrat : List F) → Log → Log
  log_record tick t c m g l =
      let i = l.idx % log_cap in
      record {
        idx = u64 (l.idx + 1);
        ticks = set l.ticks i tick;
        cells = set l.cells i (pack_from t c m g neurons_per_cell 0 (get_or l.cells i no_cells));
      }

unfoldable pub log_tick_at : Log → ℕ → ℕ
log_tick_at l p = if ltb p log_cap then get_or l.ticks p 0 else 0

unfoldable pub log_cells_at : Log → ℕ → Cells
log_cells_at l p = if ltb p log_cap then get_or l.cells p no_cells else no_cells

unfoldable pub log_len : Log → ℕ
log_len l = if ltb l.idx log_cap then l.idx else log_cap
