-- ===== src/Nucleo.antt =====
-- src/nucleo.rs: the 12-layer brain. This file has its sizes and the reading of its weights.
pub mod Adattatori
pub mod Pack
pub mod Brain
pub mod Cycle
use nova_exo.Base.{
  ℕ, zero, suc, ◌+◌, ◌*◌, ◌/◌, Bool, true, false, not, ◌&&◌, Option, none, some, List, [], ◌∷◌, ltb,
  ◌==◌, if◌then◌else◌, length, get_or, take, drop, slice, equal, codes,
}

abbrev pub dim : ℕ
dim = 512

abbrev pub n_layers : ℕ
n_layers = 12

abbrev pub n_out_q : ℕ
n_out_q = 512

abbrev pub n_out_kv : ℕ
n_out_kv = 128

abbrev pub n_ff : ℕ
n_ff = 1536

abbrev pub chemio_dim : ℕ
chemio_dim = 4

abbrev pub header_bytes : ℕ
header_bytes = 64

abbrev pub norm_bytes : ℕ
norm_bytes = dim * 4

abbrev pub embed_bytes : ℕ
embed_bytes = chemio_dim * dim * 4

abbrev pub head_bytes : ℕ
head_bytes = dim * chemio_dim * 4

abbrev pub q4_k_wq_bytes : ℕ
q4_k_wq_bytes = n_out_q * dim / 256 * 144

abbrev pub q4_k_wk_bytes : ℕ
q4_k_wk_bytes = n_out_kv * dim / 256 * 144

abbrev pub q6_k_wv_bytes : ℕ
q6_k_wv_bytes = n_out_kv * dim / 256 * 210

abbrev pub q4_k_wo_bytes : ℕ
q4_k_wo_bytes = dim * n_out_q / 256 * 144

abbrev pub q4_k_wgate_bytes : ℕ
q4_k_wgate_bytes = n_ff * dim / 256 * 144

abbrev pub q4_k_wup_bytes : ℕ
q4_k_wup_bytes = n_ff * dim / 256 * 144

abbrev pub q4_k_wdown_bytes : ℕ
q4_k_wdown_bytes = dim * n_ff / 256 * 144

abbrev pub layer_bytes : ℕ
layer_bytes =
    norm_bytes + q4_k_wq_bytes + q4_k_wk_bytes + q6_k_wv_bytes + q4_k_wo_bytes + norm_bytes
    + q4_k_wgate_bytes + q4_k_wup_bytes + q4_k_wdown_bytes

abbrev pub total_model_bytes : ℕ
total_model_bytes = header_bytes + embed_bytes + layer_bytes * n_layers + norm_bytes + head_bytes

pub record NucleoLayer (F : Type 0) : Type 0 where
  pub attn_norm : List F
  pub wq : List ℕ
  pub wk : List ℕ
  pub wv : List ℕ
  pub wo : List ℕ
  pub ffn_norm : List F
  pub w_gate : List ℕ
  pub w_up : List ℕ
  pub w_down : List ℕ

pub record NucleoModel (F : Type 0) : Type 0 where
  pub embed : List F
  pub layers : List (NucleoLayer F)
  pub final_norm : List F
  pub head : List F

-- The processor's reading of four bytes as an f32 is a parameter.
module _ {F : Type 0} (of_bytes : List ℕ → F) where
  -- `from_raw_parts(buf.as_ptr().add(offset) as *const f32, n)`
  unfoldable pub floats : ℕ → List ℕ → List F
  floats zero bs = []
  floats (suc n) bs = of_bytes (take 4 bs) ∷ floats n (drop 4 bs)

  unfoldable pub raw_parts : List ℕ → ℕ → ℕ → List F
  raw_parts buf offset n = floats n (drop offset buf)

  -- One round of the loop over the layers: the layer at `offset`.
  unfoldable pub parse_layer : List ℕ → ℕ → NucleoLayer F
  parse_layer buf offset =
      let o1 = offset + norm_bytes in
      let o2 = o1 + q4_k_wq_bytes in
      let o3 = o2 + q4_k_wk_bytes in
      let o4 = o3 + q6_k_wv_bytes in
      let o5 = o4 + q4_k_wo_bytes in
      let o6 = o5 + norm_bytes in
      let o7 = o6 + q4_k_wgate_bytes in
      let o8 = o7 + q4_k_wup_bytes in
      record {
        attn_norm = raw_parts buf offset dim;
        wq = slice o1 q4_k_wq_bytes buf;
        wk = slice o2 q4_k_wk_bytes buf;
        wv = slice o3 q6_k_wv_bytes buf;
        wo = slice o4 q4_k_wo_bytes buf;
        ffn_norm = raw_parts buf o5 dim;
        w_gate = slice o6 q4_k_wgate_bytes buf;
        w_up = slice o7 q4_k_wup_bytes buf;
        w_down = slice o8 q4_k_wdown_bytes buf;
      }

  unfoldable pub parse_layers : List ℕ → ℕ → ℕ → List (NucleoLayer F)
  parse_layers buf zero offset = []
  parse_layers buf (suc k) offset =
      parse_layer buf offset ∷ parse_layers buf k (offset + layer_bytes)

  unfoldable pub parse_body : List ℕ → NucleoModel F
  parse_body buf =
      let o1 = header_bytes + embed_bytes in
      let o2 = o1 + layer_bytes * n_layers in
      record {
        embed = raw_parts buf header_bytes (chemio_dim * dim);
        layers = parse_layers buf n_layers o1;
        final_norm = raw_parts buf o2 dim;
        head = raw_parts buf (o2 + norm_bytes) (dim * chemio_dim);
      }

  unfoldable pub version_of : List ℕ → ℕ
  version_of buf =
      get_or buf 4 0 + get_or buf 5 0 * 256 + get_or buf 6 0 * 65536 + get_or buf 7 0 * 16777216

  unfoldable pub parse : List ℕ → Option (NucleoModel F)
  unfolding version_of parse_body
  parse buf =
      if ltb (length buf) total_model_bytes
      then none
      else if not (equal (slice 0 4 buf) (codes "NUCL"))
      then none
      else if not (version_of buf == 1)
      then none
      else some (parse_body buf)
