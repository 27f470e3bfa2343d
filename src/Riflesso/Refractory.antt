-- ===== src/Riflesso/Refractory.antt =====
-- The rest after a startle, and the count of the startles.
use nova_exo.Base.{
  ℕ, ◌+◌, ◌-◌, ◌≤◌, ◌<◌, ◌≡◌, refl, ap₂, Bool, true, false, List, [], ◌∷◌, if◌then◌else◌, u32,
  arith, length, replicate,
}
use nova_exo.Riflesso.{Energies, Riflesso, percepisce, percepisce_all}

module _ (en : Energies) where
  open en use {F32}

  resting :
      (r : Riflesso en) (e : F32)
      → 0 < r.resta
      → ((percepisce en r e).1 ≡ false) × ((percepisce en r e).0.resta ≡ r.resta - 1)
  unfolding percepisce
  resting r e h = (ground arith, ground arith)

  rest_all :
      (es : List F32) (r : Riflesso en)
      → length es ≤ r.resta
      → (percepisce_all en r es).1 ≡ replicate (length es) false
  unfolding percepisce_all
  rest_all [] r h = refl
  rest_all (e ∷ es) r h =
      ap₂ ◌∷◌ (resting r e (omega arith)).0
        (rest_all es (percepisce en r e).0 (omega (arith, (resting r e (omega arith)).1)))

  fired :
      (r : Riflesso en) (e : F32)
      → (percepisce en r e).1 ≡ true
      → (percepisce en r e).0.resta ≡ r.refrattario
  unfolding percepisce
  fired r e h = ground arith

  -- After a reading that startles, the next readings do not, as many as the refractory count.
  pub percepisce-refractory :
      (r : Riflesso en) (e : F32) (es : List F32)
      → (percepisce en r e).1 ≡ true
      → length es ≤ r.refrattario
      → (percepisce_all en (percepisce en r e).0 es).1 ≡ replicate (length es) false
  percepisce-refractory r e es h l = rest_all es (percepisce en r e).0 (omega (arith, fired r e h))

  -- The answers `true` of a list.
  unfoldable pub startles : List Bool → ℕ
  startles [] = 0
  startles (b ∷ bs) = (if b then 1 else 0) + startles bs

  counted :
      (r : Riflesso en) (e : F32)
      → r.scatti < 4294967296
      → (percepisce en r e).0.scatti ≡ u32 (r.scatti + (if (percepisce en r e).1 then 1 else 0))
  unfolding percepisce
  counted r e h = ground arith

  -- The counter of startles, from a value that is a u32, grows by the answers `true`, and wraps.
  pub scatti-startles :
      (es : List F32) (r : Riflesso en)
      → r.scatti < 4294967296
      → (percepisce_all en r es).0.scatti ≡ u32 (r.scatti + startles (percepisce_all en r es).1)
  unfolding percepisce_all startles
  scatti-startles [] r h = omega arith
  scatti-startles (e ∷ es) r h =
      let c = counted r e h in
      omega (arith, c, scatti-startles es (percepisce en r e).0 (omega (arith, c)))
