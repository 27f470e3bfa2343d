-- ===== src/Net/Payload.antt =====
-- src/net.rs, `build_payload`: the JSON telemetry.
pub mod Json
pub mod Fields
use nova_exo.Base.{
  ℕ, zero, suc, ◌+◌, ◌/◌, ◌%◌, Bool, true, false, List, [], ◌∷◌, if◌then◌else◌, u32, get_or, codes,
}
use nova_exo.Net.Writer.{Out, push, push_all, write_u32_buf, write_u64_buf, Float, write_f32_buf}

-- The static variables of other parts that the payload reads: `cfc::key_count`, `cfc::key_held`,
-- `kbd::probe` (3 bytes), `acpi::summary` (5), `acpi::ec_summary` (3), `kbd::kbd_id` (4).
pub record Organs : Type 0 where
  pub key_count : ℕ
  pub key_held : ℕ
  pub ps2 : List ℕ
  pub acpi : List ℕ
  pub ec : List ℕ
  pub kid : List ℕ

infixl 5 ◌▷◌
abbrev pub ◌▷◌ : Out → (Out → Out) → Out
o ▷ f = f o

-- The loops over an array: a comma before each element but the first.
unfoldable pub write_sep {ℓ} : {A : Type ℓ} → (A → Out → Out) → Bool → List A → Out → Out
write_sep w first [] o = o
write_sep w first (x ∷ xs) o = write_sep w false xs (w x (if first then o else push b',' o))

-- `HEX[i]`
unfoldable pub hex_char : ℕ → ℕ
hex_char d = get_or (codes "0123456789abcdef") d 0

unfoldable pub write_sig : List ℕ → Out → Out
write_sig [] o = o
write_sig (b ∷ bs) o = write_sig bs (push (hex_char (b % 16)) (push (hex_char (b / 16 % 16)) o))

module _ (fl : Float) where
  open fl use {F32}

  pub record StatoSensi : Type 0 where
    pub n : ℕ
    pub riflessi : ℕ
    pub guasti : ℕ
    pub guasti_mask : ℕ
    pub tatto : F32
    pub chemio : F32
    pub metabol : F32
    pub integrat : F32
    pub udito : F32
    pub mic : F32
    pub adc : ℕ
    pub pin : ℕ
    pub gesto : Bool
    pub hda_vend : ℕ
    pub hda_dev : ℕ
    pub temp_c : F32
    pub via : ℕ
    pub mem_omeo : F32
    pub ventola : Bool
    pub stream_on : Bool
    pub lpib : ℕ

  -- The arguments of `build_payload`. `concept` is a list of bytes; `cells` four lists of 16 values,
  -- `chemio` four values, of which the first is not sent, as fields.
  pub record State : Type 0 where
    pub tick : ℕ
    pub concept : List ℕ
    pub cells : List (List F32)
    pub chemio_u : F32
    pub chemio_p : F32
    pub chemio_n : F32
    pub desire_id : ℕ
    pub desire_int : F32
    pub cambi : ℕ
    pub esplorazioni : ℕ
    pub diag : List ℕ
    pub sig : List ℕ
    pub epoch : ℕ
    pub sen : StatoSensi

  abbrev pub str : List ℕ → Out → Out
  str = push_all

  abbrev pub u : ℕ → Out → Out
  u = write_u32_buf

  abbrev pub f : F32 → Out → Out
  f = write_f32_buf fl

  -- One cell: its values in brackets.
  unfoldable pub write_cell : List F32 → Out → Out
  write_cell cell o = o ▷ push b'[' ▷ write_sep f true cell ▷ push b']'

  abbrev pub flag : Bool → ℕ
  flag b = if b then 1 else 0

  unfoldable pub write_state : State → Out → Out
  write_state s o =
      o
      ▷ str (codes "{\"t\":")
      ▷ write_u64_buf s.tick
      ▷ str (codes ",\"k\":\"")
      ▷ str s.concept
      ▷ str (codes "\",\"c\":[")
      ▷ write_sep write_cell true s.cells
      ▷ str (codes "],\"w\":[")
      ▷ u s.desire_id
      ▷ push b','
      ▷ f s.desire_int
      ▷ str (codes "],\"u\":")
      ▷ f s.chemio_u
      ▷ str (codes ",\"p\":")
      ▷ f s.chemio_p
      ▷ str (codes ",\"n\":")
      ▷ f s.chemio_n
      ▷ str (codes ",\"l\":[")
      ▷ u s.cambi
      ▷ push b','
      ▷ u s.esplorazioni
      ▷ str (codes "],\"r\":[")
      ▷ write_sep u true s.diag
      ▷ str (codes "],\"sig\":\"")
      ▷ write_sig s.sig
      ▷ str (codes "\",\"v\":")
      ▷ u s.epoch

  unfoldable pub write_organs : Organs → Out → Out
  write_organs g o =
      o
      ▷ str (codes ",\"kb\":[")
      ▷ u g.key_count
      ▷ push b','
      ▷ u g.key_held
      ▷ push b']'
      ▷ str (codes ",\"ps2\":[")
      ▷ u (get_or g.ps2 0 0)
      ▷ push b','
      ▷ u (get_or g.ps2 1 0)
      ▷ push b','
      ▷ u (get_or g.ps2 2 0)
      ▷ push b']'
      ▷ str (codes ",\"acpi\":[")
      ▷ u (u32 (get_or g.acpi 0 0))
      ▷ push b','
      ▷ u (u32 (get_or g.acpi 1 0))
      ▷ push b','
      ▷ u (u32 (get_or g.acpi 2 0))
      ▷ push b','
      ▷ u (u32 (get_or g.acpi 3 0))
      ▷ push b','
      ▷ u (u32 (get_or g.acpi 4 0))
      ▷ push b']'
      ▷ str (codes ",\"ec\":[")
      ▷ u (u32 (get_or g.ec 0 0))
      ▷ push b','
      ▷ u (u32 (get_or g.ec 1 0))
      ▷ push b','
      ▷ u (u32 (get_or g.ec 2 0))
      ▷ push b']'
      ▷ str (codes ",\"kbd\":[")
      ▷ u (get_or g.kid 0 0)
      ▷ push b','
      ▷ u (get_or g.kid 1 0)
      ▷ push b','
      ▷ u (get_or g.kid 2 0)
      ▷ push b','
      ▷ u (get_or g.kid 3 0)
      ▷ push b']'

  unfoldable pub write_senses : StatoSensi → Out → Out
  write_senses s o =
      o
      ▷ str (codes ",\"sen\":[")
      ▷ u s.n
      ▷ push b','
      ▷ u s.riflessi
      ▷ push b','
      ▷ u s.guasti
      ▷ push b','
      ▷ u s.guasti_mask
      ▷ push b','
      ▷ f s.tatto
      ▷ push b','
      ▷ f s.chemio
      ▷ push b','
      ▷ f s.metabol
      ▷ push b','
      ▷ f s.integrat
      ▷ push b','
      ▷ f s.udito
      ▷ push b','
      ▷ f s.mic
      ▷ push b','
      ▷ u s.adc
      ▷ push b','
      ▷ u s.pin
      ▷ push b','
      ▷ u (flag s.gesto)
      ▷ push b','
      ▷ u s.hda_vend
      ▷ push b','
      ▷ u s.hda_dev
      ▷ push b','
      ▷ f s.temp_c
      ▷ push b','
      ▷ u s.via
      ▷ push b','
      ▷ f s.mem_omeo
      ▷ push b','
      ▷ u (flag s.ventola)
      ▷ push b','
      ▷ u (flag s.stream_on)
      ▷ push b','
      ▷ u s.lpib
      ▷ push b']'
      ▷ push b'}'

  -- The buffer and the length written.
  unfoldable pub build_payload : List ℕ → State → Organs → Out
  unfolding write_state write_organs write_senses
  build_payload buf s g =
      record { buf = buf; pos = 0 } ▷ write_state s ▷ write_organs g ▷ write_senses s.sen
