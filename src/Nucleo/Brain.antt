-- ===== src/Nucleo/Brain.antt =====
-- src/nucleo.rs: the brain of twelve layers, which runs one of them a tick.
use nova_exo.Base.{
  ℕ, zero, suc, ◌+◌, ◌-◌, ◌*◌, Bool, true, false, not, Option, none, some, List, [], ◌∷◌, ltb, leb,
  if◌then◌else◌, get_or, replicate, u64,
}
use nova_exo.Fp.{Fp}
use nova_exo.Inference.{BrainState, idle, thinking, output, is_idle, Chemio, InferenceEngine}
use nova_exo.Nucleo.{NucleoLayer, NucleoModel, dim, n_layers, chemio_dim}

pub data Proiezione : Type 0 where
  gate up down wo : Proiezione

-- The buffers of a forward pass that this part reads or writes itself, and `rest`, the ones that only
-- the attention and the network of a layer use.
pub record Scratch (F R : Type 0) : Type 0 where
  pub x : List F
  pub x_norm : List F
  pub out_buf : List F
  pub hidden : List F
  pub y : List F
  pub rest : R

-- What the brain calls: the numerical kernels of a layer, which report success, and the plasticity
-- of the adapters, whose state is `M`.
pub record Kernels (F : Type 0) : Type 1 where
  pub R : Type 0
  pub M : Type 0
  pub rms_norm : List F → List F → List F → List F × Bool
  pub attention : NucleoLayer F → Scratch F R → Scratch F R × Bool
  pub ffn_swiglu : NucleoLayer F → Scratch F R → Scratch F R × Bool
  pub passo : ℕ → Proiezione → Scratch F R → List F → M → M
  pub set_corpo : F → F → M → M

module _ (fp : Fp) where
  open fp use {F, lit, neg, add, sub, mul, clamp}

  -- `sum += a(i) * b(i)` for `k` rounds from `i`
  unfoldable pub sum_from : (ℕ → F) → ℕ → ℕ → F → F
  sum_from term zero i sum = sum
  sum_from term (suc k) i sum = sum_from term k (i + 1) (add sum (term i))

  unfoldable pub tabulate : (ℕ → F) → ℕ → ℕ → List F
  tabulate f zero j = []
  tabulate f (suc k) j = f j ∷ tabulate f k (j + 1)

  abbrev pub at : List F → ℕ → F
  at xs i = get_or xs i (lit 0 0)

  abbrev pub channel : Chemio F → ℕ → F
  channel v zero = v.c
  channel v (suc zero) = v.u
  channel v (suc (suc zero)) = v.p
  channel v (suc (suc (suc i))) = v.n

  -- `x = x + y`, element by element
  unfoldable pub residual : List F → List F → List F
  residual xs ys = tabulate (λ i. add (at xs i) (at ys i)) dim 0

  -- `plasticita::retroproietta_errore_soma`
  unfoldable pub retroproietta : List F → Chemio F → List F
  retroproietta head e =
      tabulate
        (λ j.
          sum_from (λ i. mul (channel e i) (at head (j * chemio_dim + i))) chemio_dim 0 (lit 0 0))
        dim 0

  unfoldable pub embedded : List F → Chemio F → List F
  embedded embed v =
      tabulate
        (λ j. sum_from (λ i. mul (channel v i) (at embed (i * dim + j))) chemio_dim 0 (lit 0 0)) dim
        0

  unfoldable pub projected : List F → List F → ℕ → F
  projected head x i =
      clamp (sum_from (λ j. mul (at x j) (at head (j * chemio_dim + i))) dim 0 (lit 0 0))
        (neg (lit 1 0)) (lit 1 0)

  module _ (ks : Kernels F) where
    open ks use {R, M, rms_norm, attention, ffn_swiglu, passo, set_corpo}

    pub record NucleoBrain : Type 0 where
      pub model : NucleoModel F
      pub scratch : Scratch F R
      pub state : BrainState
      pub current_layer : ℕ
      pub input : Chemio F
      pub answer : Option (Chemio F)
      pub total_think_ticks : ℕ
      pub maestro : Option M
      pub e_som : Chemio F
      pub e_hidden : List F

    abbrev pub zeros : Chemio F
    zeros = let z = lit 0 0 in record { c = z; u = z; p = z; n = z }

    unfoldable pub brain_new : NucleoModel F → Scratch F R → NucleoBrain
    brain_new m s = record {
      model = m;
      scratch = s;
      state = idle;
      current_layer = 0;
      input = zeros;
      answer = none;
      total_think_ticks = 0;
      maestro = none;
      e_som = zeros;
      e_hidden = replicate dim (lit 0 0);
    }

    abbrev pub layer_of : NucleoModel F → ℕ → NucleoLayer F
    layer_of m l = get_or m.layers l (record {
      attn_norm = [];
      wq = [];
      wk = [];
      wv = [];
      wo = [];
      ffn_norm = [];
      w_gate = [];
      w_up = [];
      w_down = [];
    })

    unfoldable pub passo_plastico : ℕ → Proiezione → NucleoBrain → NucleoBrain
    passo_plastico l p b = elim (b.maestro) [
      | none ↦ b
      | some m ↦ record b { maestro = some (passo l p b.scratch b.e_hidden m) }
    ]

    abbrev pub normed : List F → NucleoBrain → NucleoBrain × Bool
    normed w b =
        let r = rms_norm b.scratch.x w b.scratch.x_norm in
        (record b { scratch = record (b.scratch) { x_norm = r.0 } }, r.1)

    abbrev pub add_residual : NucleoBrain → NucleoBrain
    add_residual b = record b {
      scratch = record (b.scratch) { x = residual b.scratch.x b.scratch.y };
    }

    -- A layer; an error of a kernel ends it there, with what was written before.
    unfoldable pub forward_layer : ℕ → NucleoBrain → NucleoBrain × Bool
    forward_layer l b =
        let w = layer_of b.model l in
        let n1 = normed w.attn_norm b in
        let a = attention w n1.0.scratch in
        let b2 = passo_plastico l wo (add_residual (record (n1.0) { scratch = a.0 })) in
        let n2 = normed w.ffn_norm b2 in
        let f = ffn_swiglu w n2.0.scratch in
        let b3 = add_residual (passo_plastico l down (record (n2.0) { scratch = f.0 })) in
        if not n1.1
        then (n1.0, false)
        else if not a.1
        then (record (n1.0) { scratch = a.0 }, false)
        else if not n2.1
        then (n2.0, false)
        else if not f.1
        then (record (n2.0) { scratch = f.0 }, false)
        else (b3, true)

    -- The error of the prediction: the input less the last answer, or zero before the first.
    unfoldable pub somatic : Option (Chemio F) → Chemio F → Chemio F
    somatic none v = zeros
    somatic (some prev) v = record {
      c = sub v.c prev.c;
      u = sub v.u prev.u;
      p = sub v.p prev.p;
      n = sub v.n prev.n;
    }

    unfoldable pub with_error : NucleoBrain → Chemio F → NucleoBrain
    with_error b v = elim (b.maestro) [
      | none ↦ b
      | some m ↦ record b {
        e_som = somatic b.answer v;
        e_hidden = retroproietta b.model.head (somatic b.answer v);
      }
    ]

    unfoldable pub submit : NucleoBrain → Chemio F → NucleoBrain × Bool
    submit b v = if not (is_idle b.state) then (b, false) else (
      record (with_error b v) {
        input = v;
        scratch = record (b.scratch) { x = embedded b.model.embed v };
        current_layer = 0;
        state = thinking n_layers;
      },
      true,
    )

    -- After the last layer: the final norm and the projection on the four channels.
    unfoldable pub finish : NucleoBrain → NucleoBrain
    finish b =
        let r = rms_norm b.scratch.x b.model.final_norm b.scratch.x_norm in
        let out = projected b.model.head r.0 in
        record b {
          scratch = record (b.scratch) { x_norm = r.0 };
          answer = some (record { c = out 0; u = out 1; p = out 2; n = out 3 });
          state = output 2;
        }

    unfoldable pub run_layer : NucleoBrain → NucleoBrain
    run_layer b =
        if ltb b.current_layer n_layers
        then record ((forward_layer b.current_layer b).0) { current_layer = b.current_layer + 1 }
        else b

    unfoldable pub think : NucleoBrain → NucleoBrain × Bool
    think b =
        let r = run_layer (record b { total_think_ticks = u64 (b.total_think_ticks + 1) }) in
        if leb n_layers r.current_layer
        then (finish r, true)
        else (record r { state = thinking (n_layers - r.current_layer) }, false)

    unfoldable pub tick : NucleoBrain → NucleoBrain × Bool
    tick b = elim (b.state) [
      | idle ↦ (b, false)
      | thinking t ↦ think b
      | output t ↦
          (if leb t 1 then record b { state = idle } else record b { state = output (t - 1) }, true)
    ]

    unfoldable pub corpo : F → F → NucleoBrain → NucleoBrain
    corpo m_meta s_som b = elim (b.maestro) [
      | none ↦ b
      | some m ↦ record b { maestro = some (set_corpo m_meta s_som m) }
    ]

    unfoldable pub nucleo : InferenceEngine F
    unfolding submit tick corpo
    nucleo = record {
      S = NucleoBrain;
      submit = submit;
      tick = tick;
      output = λ b. b.answer;
      state = λ b. b.state;
      set_corpo = corpo;
    }
