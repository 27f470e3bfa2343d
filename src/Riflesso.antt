-- ===== src/Riflesso.antt =====
-- src/riflesso.rs: the startle reflex. The f32 energies are a parameter with their order.
pub mod Refractory
use nova_exo.Base.{
  ℕ, ◌+◌, ◌-◌, Bool, true, false, not, ◌&&◌, List, [], ◌∷◌, ltb, ◌==◌, if◌then◌else◌, u32,
}

-- The comparison `<` of two f32 and the value 0.0.
pub record Energies : Type 1 where
  pub F32 : Type 0
  pub lt : F32 → F32 → Bool
  pub ge : F32 → F32 → Bool
  pub zero_f : F32

module _ (en : Energies) where
  open en use {F32, lt, ge, zero_f}

  pub record Riflesso : Type 0 where
    pub soglia : F32
    pub quiete : F32
    pub refrattario : ℕ
    pub resta : ℕ
    pub scatti : ℕ
    pub energia_prec : F32
    pub prima_volta : Bool

  unfoldable pub new : F32 → F32 → ℕ → Riflesso
  new soglia quiete refrattario = record {
    soglia = soglia;
    quiete = quiete;
    refrattario = refrattario;
    resta = 0;
    scatti = 0;
    energia_prec = zero_f;
    prima_volta = true;
  }

  unfoldable pub percepisce : Riflesso → F32 → Riflesso × Bool
  percepisce r energia =
      let scatta =
        not r.prima_volta && r.resta == 0 && lt r.energia_prec r.quiete && ge energia r.soglia in
      let r' = record r { energia_prec = energia; prima_volta = false } in
      if scatta
      then (record r' { resta = r.refrattario; scatti = u32 (r.scatti + 1) }, true)
      else (record r' { resta = if ltb 0 r.resta then r.resta - 1 else r.resta }, false)

  -- A sequence of readings: the last state, and the answers in order.
  unfoldable pub percepisce_all : Riflesso → List F32 → Riflesso × List Bool
  percepisce_all r [] = (r, [])
  percepisce_all r (e ∷ es) =
      let (r', b) = percepisce r e in let (z, bs) = percepisce_all r' es in (z, b ∷ bs)
