-- ===== src/Omeostasi.antt =====
-- src/omeostasi.rs: the register of the actuators and the regulator with hysteresis. A name is its
-- bytes; the f32 of the regulator are a parameter.
pub mod Register
pub mod Band
use nova_exo.Base.{
  ℕ, zero, suc, ◌+◌, ◌≡◌, Bool, true, false, Option, none, some, List, [], ◌∷◌, ltb, leb,
  if◌then◌else◌, get_or, set, replicate, equal,
}

abbrev pub max_attuatori : ℕ
max_attuatori = 8

pub record Attuatore : Type 0 where
  pub id : List ℕ
  pub acceso : Bool

pub record Attuatori : Type 0 where
  pub a : List (Option Attuatore)
  pub n : ℕ

unfoldable pub new : Attuatori
new = record { a = replicate max_attuatori none; n = 0 }

unfoldable pub registra : Attuatori → List ℕ → Bool → Attuatori × Bool
registra r id acceso = if leb max_attuatori r.n then (r, false) else (
  record { a = set r.a r.n (some (record { id = id; acceso = acceso })); n = r.n + 1 },
  true,
)

unfoldable pub get : Attuatori → ℕ → Option Attuatore
get r i = if ltb i r.n then get_or r.a i none else none

-- `if let Some(a) = self.a[i] { if a.id == id`: the actuator of the slot, if it has the name.
unfoldable pub named : List ℕ → Option Attuatore → Option Attuatore
named id none = none
named id (some a) = if equal a.id id then some a else none

-- The loop of `imposta`: `k` rounds from index `i`.
unfoldable pub imposta_from :
    List ℕ → Bool → List (Option Attuatore) → ℕ → ℕ → List (Option Attuatore) × Bool
imposta_from id acceso a i zero = (a, false)
imposta_from id acceso a i (suc k) = elim (named id (get_or a i none)) [
  | none ↦ imposta_from id acceso a (i + 1) k
  | some x ↦ (set a i (some (record x { acceso = acceso })), true)
]

unfoldable pub imposta : Attuatori → List ℕ → Bool → Attuatori × Bool
imposta r id acceso = let (a, b) = imposta_from id acceso r.a 0 r.n in (record r { a = a }, b)

-- The loop of `acceso`.
unfoldable pub acceso_from : List ℕ → List (Option Attuatore) → ℕ → ℕ → Bool
acceso_from id a i zero = false
acceso_from id a i (suc k) = elim (named id (get_or a i none)) [
  | none ↦ acceso_from id a (i + 1) k
  | some x ↦ x.acceso
]

unfoldable pub acceso : Attuatori → List ℕ → Bool
acceso r id = acceso_from id r.a 0 r.n

-- The loop of `conta_accesi`.
unfoldable pub conta_from : List (Option Attuatore) → ℕ → ℕ → ℕ
conta_from a i zero = 0
conta_from a i (suc k) = elim (get_or a i none) [
  | none ↦ conta_from a (i + 1) k
  | some x ↦ (if x.acceso then 1 else 0) + conta_from a (i + 1) k
]

unfoldable pub conta_accesi : Attuatori → ℕ
conta_accesi r = conta_from r.a 0 r.n

-- The operations on f32 that the regulator uses.
pub record Readings : Type 1 where
  pub F32 : Type 0
  pub lt : F32 → F32 → Bool
  pub add : F32 → F32 → F32
  pub sub : F32 → F32 → F32

module _ (rd : Readings) where
  open rd use {F32, lt, add, sub}

  pub record Regolatore : Type 0 where
    pub setpoint : F32
    pub banda : F32
    pub alto : Bool

  -- `v > x` is `x < v`.
  unfoldable pub aggiorna : Regolatore → F32 → Regolatore × Bool
  aggiorna r v =
      let alto' =
        if r.alto
        then if lt v (sub r.setpoint r.banda) then false else true
        else if lt (add r.setpoint r.banda) v
        then true
        else false in
      (record r { alto = alto' }, alto')

  -- A sequence of readings: the last state, and the answers in order.
  unfoldable pub aggiorna_all : Regolatore → List F32 → Regolatore × List Bool
  aggiorna_all r [] = (r, [])
  aggiorna_all r (v ∷ vs) =
      let (r', b) = aggiorna r v in let (z, bs) = aggiorna_all r' vs in (z, b ∷ bs)
