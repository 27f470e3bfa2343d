-- ===== src/Fp.antt =====
-- The f32 operations of the source: a parameter of the models that compute with floats.
pub mod Toy
use nova_exo.Base.{ℕ, Bool}
use nova_exo.Base.Int.{ℤ}

-- `lit m d` is the literal m / 10 ^ d; `of_int` and `to_i16` are the casts from an integer and to an i16 or an i32, which saturate.
pub record Fp : Type 1 where
  pub F : Type 0
  pub lit : ℕ → ℕ → F
  pub neg : F → F
  pub abs : F → F
  pub add : F → F → F
  pub sub : F → F → F
  pub mul : F → F → F
  pub div : F → F → F
  pub lt : F → F → Bool
  pub le : F → F → Bool
  pub max : F → F → F
  pub clamp : F → F → F → F
  pub of_int : ℤ → F
  pub to_i16 : F → ℤ
  pub to_i32 : F → ℤ
