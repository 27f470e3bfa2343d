-- ===== src/Tests/Brain.antt =====
-- The brains at concrete inputs.
use nova_exo.Base.{
  ℕ, ◌≡◌, refl, arith, true, false, some, List, [], ◌∷◌, length, length-replicate, replicate,
  get_or,
}
use nova_exo.Fp.Toy.{naturals}
use nova_exo.Inference.{Chemio, StubBrain, new, submit, tick}
use nova_exo.Inference.Contract.{Contract}
use nova_exo.Inference.Reach.{start, next, submitted, ticked, Inv, Reach-Inv}
use nova_exo.Nucleo.{
  NucleoLayer, NucleoModel, parse, q4_k_wq_bytes, q4_k_wk_bytes, q6_k_wv_bytes, q4_k_wo_bytes,
  q4_k_wgate_bytes, dim,
}
use nova_exo.Nucleo.Brain.{Kernels, nucleo}
use nova_exo.Nucleo.Cycle.{nucleo-Contract}
use nova_exo.Nucleo.Pack.{pack, Sized, SizedLayer, SizedLayers, parse-pack}

abbrev body : Chemio ℕ
body = record { c = 1; u = 2; p = 3; n = 4 }

-- Kernels that copy their input, and fail in the attention.
abbrev copying : Kernels ℕ
copying = record {
  R = ℕ;
  M = ℕ;
  rms_norm = λ x w out. (x, true);
  attention = λ l s. (s, false);
  ffn_swiglu = λ l s. (s, true);
  passo = λ l p s e m. m;
  set_corpo = λ m s x. x;
}

nucleo-Contract_example : Contract (nucleo naturals copying) (λ b. 11)
nucleo-Contract_example = nucleo-Contract naturals copying

abbrev asked : StubBrain naturals
asked = (submit naturals (new naturals) body).0

abbrev after_tick : StubBrain naturals
after_tick = (tick naturals asked).0

Reach-Inv_example : Inv naturals after_tick
Reach-Inv_example =
    Reach-Inv naturals after_tick (next (next start (submitted body refl)) (ticked refl))

-- The bytes of a number below 256 in the test, and their reading.
abbrev word_of : List ℕ → ℕ
word_of bs = get_or bs 0 0

abbrev bytes_of_word : ℕ → List ℕ
bytes_of_word x = x ∷ 0 ∷ 0 ∷ 0 ∷ []

unfoldable zeros : ℕ → List ℕ
zeros n = replicate n 0

length-zeros : (n : ℕ) → length (zeros n) ≡ n
unfolding zeros
length-zeros n = length-replicate n 0

abbrev blank_layer : NucleoLayer ℕ
blank_layer = record {
  attn_norm = zeros dim;
  wq = zeros q4_k_wq_bytes;
  wk = zeros q4_k_wk_bytes;
  wv = zeros q6_k_wv_bytes;
  wo = zeros q4_k_wo_bytes;
  ffn_norm = zeros dim;
  w_gate = zeros q4_k_wgate_bytes;
  w_up = zeros q4_k_wgate_bytes;
  w_down = zeros q4_k_wgate_bytes;
}

blank_layer-SizedLayer : SizedLayer blank_layer
unfolding SizedLayer
blank_layer-SizedLayer = (
  length-zeros dim,
  length-zeros _,
  length-zeros _,
  length-zeros _,
  length-zeros _,
  length-zeros dim,
  length-zeros _,
  length-zeros _,
  length-zeros _,
)

abbrev blank : NucleoModel ℕ
blank = record {
  embed = zeros 2048;
  layers = replicate 12 blank_layer;
  final_norm = zeros dim;
  head = zeros 2048;
}

blank-Sized : Sized blank
unfolding Sized SizedLayers
blank-Sized =
    let l = blank_layer-SizedLayer in
    (
      length-zeros 2048,
      refl,
      (l, (l, (l, (l, (l, (l, (l, (l, (l, (l, (l, (l, omega arith)))))))))))),
      length-zeros dim,
      length-zeros 2048,
    )

parse-pack_example : parse word_of (pack bytes_of_word (zeros 56) blank []) ≡ some blank
parse-pack_example =
    parse-pack word_of bytes_of_word (λ x. refl) (λ x. refl) (zeros 56) blank [] (length-zeros 56)
      blank-Sized
