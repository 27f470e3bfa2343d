-- ===== src/Executive.antt =====
-- src/executive.rs: the executive, which turns a reading of the body into a desire, and the preference
-- that it learns from the outcomes.
pub mod Cells
pub mod Preference
pub mod Choice
use nova_exo.Base.{
  ℕ, zero, suc, ◌+◌, ◌-◌, Bool, true, false, not, ◌&&◌, ◌||◌, Option, none, some, List, [], ◌∷◌,
  ltb, leb, ◌==◌, if◌then◌else◌, get_or, set, min, replicate, codes, u32,
}
use nova_exo.Base.Int.{pos}
use nova_exo.Fp.{Fp}
use nova_exo.Inference.{Chemio}

abbrev pub n_desires : ℕ
n_desires = 6

abbrev pub n_concetti : ℕ
n_concetti = 5

abbrev pub n_fam : ℕ
n_fam = 2

abbrev pub min_campioni : ℕ
min_campioni = 3

abbrev pub candidati : List ℕ
candidati = 0 ∷ 1 ∷ 3 ∷ 4 ∷ 5 ∷ []

-- `[[[A; N_DESIRES]; N_FAM]; N_CONCETTI]`
abbrev pub Tabella : Type 0 → Type 0
Tabella A = List (List (List A))

unfoldable pub cell : {A : Type 0} → Tabella A → ℕ → ℕ → ℕ → A → A
cell t c f d z = get_or (get_or (get_or t c []) f []) d z

unfoldable pub put : {A : Type 0} → Tabella A → ℕ → ℕ → ℕ → A → Tabella A
put t c f d v =
    let rows = get_or t c [] in let row = get_or rows f [] in set t c (set rows f (set row d v))

abbrev pub filled : {A : Type 0} → A → Tabella A
filled z = replicate n_concetti (replicate n_fam (replicate n_desires z))

unfoldable pub saturating_inc : ℕ → ℕ
saturating_inc n = if ltb n 4294967295 then n + 1 else n

-- The indices that `impara`, `valore` and `mai_provato` clamp to the table.
abbrev pub concetto_of : ℕ → ℕ
concetto_of c = min c (n_concetti - 1)

abbrev pub fam_of : Bool → ℕ
fam_of nuovo = if nuovo then 0 else 1

abbrev pub desire_of : ℕ → ℕ
desire_of d = min d (n_desires - 1)

-- A preference, where it is not what the rule says.
abbrev pub preferred : Option ℕ → ℕ → Option ℕ
preferred none base_id = none
preferred (some d) base_id = if not (d == base_id) then some d else none

module _ (fp : Fp) where
  open fp use {F, lit, neg, abs, add, sub, mul, div, lt, le, max, clamp, of_int}

  pub record Preferenza : Type 0 where
    pub somma : Tabella F
    pub n : Tabella ℕ
    pub cambi : ℕ
    pub esplorazioni : ℕ

  abbrev pub preferenza_new : Preferenza
  preferenza_new = record { somma = filled (lit 0 0); n = filled 0; cambi = 0; esplorazioni = 0 }

  abbrev pub campioni : Preferenza → ℕ → Bool → ℕ → ℕ
  campioni p c nuovo d = cell p.n (concetto_of c) (fam_of nuovo) (desire_of d) 0

  abbrev pub somma_of : Preferenza → ℕ → Bool → ℕ → F
  somma_of p c nuovo d = cell p.somma (concetto_of c) (fam_of nuovo) (desire_of d) (lit 0 0)

  unfoldable pub impara : Preferenza → ℕ → Bool → ℕ → Bool → Preferenza
  impara p c nuovo d utile = record p {
    somma =
        put p.somma (concetto_of c) (fam_of nuovo) (desire_of d)
          (add (somma_of p c nuovo d) (if utile then lit 1 0 else lit 0 0));
    n = put p.n (concetto_of c) (fam_of nuovo) (desire_of d) (u32 (campioni p c nuovo d + 1));
  }

  unfoldable pub valore : Preferenza → ℕ → Bool → ℕ → Option F
  valore p c nuovo d =
      if ltb (campioni p c nuovo d) min_campioni
      then none
      else some (div (somma_of p c nuovo d) (of_int (pos (campioni p c nuovo d))))

  -- One round of the loop over the candidates.
  unfoldable pub better : Option (ℕ × F) → ℕ → Option F → Option (ℕ × F)
  better best d none = best
  better none d (some v) = some (d, v)
  better (some (b, bv)) d (some v) = if lt bv v then some (d, v) else some (b, bv)

  unfoldable pub best_of : Preferenza → ℕ → Bool → List ℕ → Option (ℕ × F) → Option (ℕ × F)
  best_of p c nuovo [] best = best
  best_of p c nuovo (d ∷ ds) best = best_of p c nuovo ds (better best d (valore p c nuovo d))

  unfoldable pub useful : Option (ℕ × F) → Option ℕ
  useful none = none
  useful (some (d, v)) = if le (lit 6 1) v then some d else none

  unfoldable pub migliore : Preferenza → ℕ → Bool → List ℕ → Option ℕ
  unfolding best_of useful
  migliore p c nuovo ds = useful (best_of p c nuovo ds none)

  unfoldable pub mai_provato : Preferenza → ℕ → Bool → List ℕ → Option ℕ
  mai_provato p c nuovo [] = none
  mai_provato p c nuovo (d ∷ ds) =
      let rest = mai_provato p c nuovo ds in
      if campioni p c nuovo d == 0 then some (desire_of d) else rest

  -- What the executive reads of the interpreter's report.
  pub record InterpretReport : Type 0 where
    pub chemio : Chemio F
    pub concept : ℕ
    pub energy : F

  pub record DesireReport : Type 0 where
    pub id : ℕ
    pub intensity : F
    pub changed : Bool

  pub record Executive : Type 0 where
    pub desire_id : ℕ
    pub desire_int : F
    pub desire_ticks : ℕ
    pub stable_ticks : ℕ
    pub last_err : F
    pub err_sum : F
    pub err_count : ℕ
    pub preferenza : Preferenza
    pub esplora_counter : ℕ
    pub esito_pendente : Option (ℕ × ℕ × Bool)

  abbrev pub executive_new : Executive
  executive_new = record {
    desire_id = 0;
    desire_int = lit 0 0;
    desire_ticks = 0;
    stable_ticks = 0;
    last_err = lit 0 0;
    err_sum = lit 0 0;
    err_count = 0;
    preferenza = preferenza_new;
    esplora_counter = 0;
    esito_pendente = none;
  }

  abbrev pub unit_clamp : F → F
  unit_clamp v = clamp v (lit 0 0) (lit 1 0)

  -- The homeostatic rule, in its order of priority.
  unfoldable pub base : Executive → InterpretReport → F → F → ℕ × F
  base x rep pf_err fam =
      let u = rep.chemio.u in
      let p = rep.chemio.p in
      let n = rep.chemio.n in
      if rep.concept == 0
      then (2, unit_clamp (max rep.energy u))
      else if lt (lit 55 2) u
      then (1, unit_clamp u)
      else if lt p (neg (lit 5 1))
      then (3, unit_clamp (neg p))
      else if lt (lit 45 2) n && lt u (lit 5 1)
      then (4, unit_clamp n)
      else if lt u (lit 15 2) && lt n (lit 2 1) && lt pf_err (lit 1 3) && lt (lit 5 1) fam
      then (0, unit_clamp (div (of_int (pos x.stable_ticks)) (lit 2000 0)))
      else (0, lit 1 1)

  -- The desire of a choice that is not the rule's.
  abbrev pub raised : F → F
  raised v = unit_clamp (max v (lit 4 1))

  -- A desire that was never tried, where there is one.
  unfoldable pub explored : Executive → ℕ × F → Option ℕ → Executive × (ℕ × F)
  explored x (base_id, base_int) (some d) =
      let p = x.preferenza in
      (
        record x {
          esplora_counter = 0;
          preferenza = record p { esplorazioni = saturating_inc p.esplorazioni };
        },
        (d, raised base_int),
      )
  explored x b none = (record x { esplora_counter = 0 }, b)

  unfoldable pub explore : Executive → ℕ → Bool → ℕ × F → Executive × (ℕ × F)
  unfolding explored
  explore x concept nuovo b =
      let count = saturating_inc x.esplora_counter in
      if leb 30 count
      then explored x b (mai_provato x.preferenza concept nuovo candidati)
      else (record x { esplora_counter = count }, b)

  -- The preferred desire, where there is one that is not the rule's.
  unfoldable pub follow : Executive → ℕ → Bool → ℕ × F → Option ℕ → Executive × (ℕ × F)
  unfolding explore
  follow x concept nuovo (base_id, base_int) (some d) =
      let p = x.preferenza in
      (record x { preferenza = record p { cambi = saturating_inc p.cambi } }, (d, raised base_int))
  follow x concept nuovo b none = explore x concept nuovo b

  -- The learned choice, which is not asked where the rule flees.
  unfoldable pub choose : Executive → ℕ → Bool → ℕ × F → Executive × (ℕ × F)
  unfolding follow migliore
  choose x concept nuovo b =
      if not (b.0 == 2)
      then follow x concept nuovo b (preferred (migliore x.preferenza concept nuovo candidati) b.0)
      else (x, b)

  -- The end of a step: the new desire and the traces of the error and of the choice.
  unfoldable pub settle : Executive → InterpretReport → F → Bool → ℕ × F → Executive × DesireReport
  settle x rep pf_err nuovo (new_id, new_int) =
      let same = new_id == x.desire_id in
      (
        record x {
          desire_ticks = if same then saturating_inc x.desire_ticks else 0;
          desire_id = new_id;
          desire_int = new_int;
          stable_ticks = if new_id == 0 then saturating_inc x.stable_ticks else 0;
          err_sum = add x.err_sum pf_err;
          err_count = saturating_inc x.err_count;
          esito_pendente = some (rep.concept, new_id, nuovo);
        },
        record {
          id = new_id;
          intensity = new_int;
          changed = not same || lt (lit 15 2) (abs (sub new_int x.desire_int));
        },
      )

  unfoldable pub step : Executive → InterpretReport → F → F → Executive × DesireReport
  unfolding base choose settle
  step x rep pf_err fam =
      let nuovo = lt fam (lit 5 1) in
      let r = choose x rep.concept nuovo (base x rep pf_err fam) in settle r.0 rep pf_err nuovo r.1

  unfoldable pub esito : Executive → F → F → Executive × (Bool × F × ℕ)
  unfolding impara
  esito x cur_err prev_err =
      let utile = lt cur_err prev_err in
      let fallback : ℕ × ℕ × Bool = (0, x.desire_id, false) in
      let (concetto, d, nuovo) : ℕ × ℕ × Bool = elim (x.esito_pendente) [
        | none ↦ fallback
        | some e ↦ e
      ] in
      (
        record x { preferenza = impara x.preferenza concetto nuovo d utile; esito_pendente = none },
        (utile, cur_err, x.desire_id),
      )

  -- The correction that the will makes to the body.
  unfoldable pub modula : Executive → Chemio F
  modula x =
      let int = x.desire_int in
      let z = lit 0 0 in
      let d = x.desire_id in
      if d == 1
      then record { c = z; u = mul (neg (lit 3 2)) int; p = z; n = z }
      else if d == 2
      then record { c = z; u = mul (neg (lit 3 2)) int; p = mul (lit 3 2) int; n = z }
      else if d == 3
      then record { c = z; u = mul (lit 2 2) int; p = mul (lit 5 2) int; n = z }
      else if d == 4
      then record { c = z; u = z; p = z; n = mul (lit 3 2) int }
      else if d == 0
      then record { c = z; u = mul (neg (lit 2 2)) int; p = z; n = mul (neg (lit 3 2)) int }
      else record { c = z; u = z; p = z; n = z }

abbrev desire_names : List (List ℕ)
desire_names =
    codes "RIPOSO"
    ∷ codes "SOLLIEVO"
    ∷ codes "FUGA"
    ∷ codes "CURA"
    ∷ codes "ESPLORA"
    ∷ codes "SONNO"
    ∷ []

unfoldable pub name : ℕ → List ℕ
name id = if ltb id n_desires then get_or desire_names id [] else codes "?"
