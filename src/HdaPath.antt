-- ===== src/HdaPath.antt =====
-- src/hda_path.rs: the choice of the controller, of the router and of the pin on the capture path of
-- the hearing. A slice has fewer than 2 ^ 64 elements; an index returned as a u8 wraps.
pub mod Choice
use nova_exo.Base.{
  ℕ, ◌+◌, ◌*◌, ◌/◌, ◌%◌, ◌^◌, Bool, true, false, ◌&&◌, ◌||◌, Option, none, some, List, [], ◌∷◌,
  ◌==◌, if◌then◌else◌, or, u8,
}

abbrev pub wid_mixer : ℕ
wid_mixer = 2

abbrev pub wid_selector : ℕ
wid_selector = 3

abbrev pub wid_pin : ℕ
wid_pin = 4

abbrev pub vendor_realtek : ℕ
vendor_realtek = 0x10EC

pub record CandidatoController : Type 0 where
  pub presente : Bool
  pub vendor : ℕ

pub record Sorgente : Type 0 where
  pub id : ℕ
  pub tipo : ℕ
  pub input_cap : Bool
  pub mic : Bool
  pub internal : Bool

-- A loop that returns the index of the first element that passes, from index `i`.
unfoldable pub first_from {ℓ} : {A : Type ℓ} → (A → Bool) → ℕ → List A → Option ℕ
first_from p i [] = none
first_from p i (x ∷ xs) = if p x then some i else first_from p (i + 1) xs

abbrev pub as_u8 : Option ℕ → Option ℕ
as_u8 none = none
as_u8 (some i) = some (u8 i)

unfoldable pub scegli_controller : List CandidatoController → Option ℕ
unfolding first_from
scegli_controller cands =
    elim (first_from (λ c. c.presente && c.vendor == vendor_realtek) 0 cands) [
      | some i ↦ some i
      | none ↦ first_from (λ c. c.presente) 0 cands
    ]

-- `(word >> (8 * (idx & 3))) & 0xFF`
unfoldable pub conn_node : ℕ → ℕ → ℕ
conn_node word idx = word / 2 ^ (8 * (idx % 4)) % 256

unfoldable pub e_instradatore : ℕ → Bool
e_instradatore tipo = tipo == wid_mixer || tipo == wid_selector

unfoldable pub scegli_instradatore : List Sorgente → Option ℕ
unfolding first_from
scegli_instradatore cands = elim (first_from (λ s. s.tipo == wid_mixer) 0 cands) [
  | some i ↦ some (u8 i)
  | none ↦ as_u8 (first_from (λ s. s.tipo == wid_selector) 0 cands)
]

-- The loop of `scegli_pin` from index `i`, with `mic_jack` and `primo`.
unfoldable pub pin_from : ℕ → Option ℕ → Option ℕ → List Sorgente → Option ℕ
pin_from i mic_jack primo [] = or mic_jack primo
pin_from i mic_jack primo (s ∷ ss) =
    let skip = pin_from (i + 1) mic_jack primo ss in
    let jack = pin_from (i + 1) (or mic_jack (some (u8 i))) (or primo (some (u8 i))) ss in
    let input = pin_from (i + 1) mic_jack (or primo (some (u8 i))) ss in
    if s.tipo == wid_pin && s.input_cap
    then if s.mic && s.internal then some (u8 i) else if s.mic then jack else input
    else skip

unfoldable pub scegli_pin : List Sorgente → Option ℕ
scegli_pin cands = pin_from 0 none none cands
