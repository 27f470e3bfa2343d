-- ===== src/Omeostasi/Band.antt =====
-- src/omeostasi.rs: the regulator against the readings that left its band.
use nova_exo.Base.{
  ◌≡◌, refl, sym, ◌∙◌, ap, ap₂, Bool, true, false, Option, none, some, List, [], ◌∷◌, arith, or,
  if◌then◌else◌,
}
use mathlib.Core.Path.{subst}
use nova_exo.Omeostasi.{Readings, Regolatore, aggiorna, aggiorna_all}

abbrev pub each {ℓ} : {A B : Type ℓ} → (A → B) → List A → List B
each f [] = []
each f (x ∷ xs) = f x ∷ each f xs

-- The lists that a list begins with, from one element up to the whole.
abbrev pub prefixes {ℓ} : {A : Type ℓ} → List A → List (List A)
prefixes [] = []
prefixes (x ∷ xs) = (x ∷ []) ∷ each (x ∷◌) (prefixes xs)

module _ (rd : Readings) where
  open rd use {F32, lt, add, sub}

  -- The side on which a reading lies outside the band from lo to hi: below is off, above is on.
  unfoldable pub side : F32 → F32 → F32 → Option Bool
  side lo hi v = if lt v lo then some false else if lt hi v then some true else none

  -- The side of the last reading that lies outside, if any does.
  unfoldable pub crossed : F32 → F32 → List F32 → Option Bool
  crossed lo hi [] = none
  crossed lo hi (v ∷ vs) = or (crossed lo hi vs) (side lo hi v)

  -- That side, or what held before where no reading lies outside.
  unfoldable pub settled : F32 → F32 → Bool → List F32 → Bool
  settled lo hi before vs = elim (crossed lo hi vs) [ none ↦ before | some b ↦ b ]

  or_after :
      (a b : Option Bool) (before : Bool)
      → elim (or a b) [ none ↦ before | some x ↦ x ]
        ≡ elim a [ none ↦ elim b [ none ↦ before | some x ↦ x ] | some x ↦ x ]
  or_after none b before = refl
  or_after (some x) b before = refl

  -- A first reading settles what holds before the others.
  settled-cons :
      (lo hi : F32) (before : Bool) (v : F32) (vs : List F32)
      → settled lo hi before (v ∷ vs) ≡ settled lo hi (settled lo hi before (v ∷ [])) vs
  unfolding settled crossed
  settled-cons lo hi before v vs = or_after (crossed lo hi vs) (side lo hi v) before

  each-cons :
      (lo hi : F32) (before : Bool) (v : F32) (ws : List (List F32))
      → each (settled lo hi (settled lo hi before (v ∷ []))) ws
        ≡ each (settled lo hi before) (each (v ∷◌) ws)
  each-cons lo hi before v [] = refl
  each-cons lo hi before v (w ∷ ws) =
      ap₂ ◌∷◌ (sym (settled-cons lo hi before v w)) (each-cons lo hi before v ws)

  -- No reading is below the lower end and above the upper end at once.
  unfoldable pub Proper : F32 → F32 → Type 0
  Proper lo hi = (v : F32) → lt v lo ≡ true → lt hi v ≡ false

  aggiorna_step :
      (r : Regolatore rd) (v : F32)
      → Proper (sub r.setpoint r.banda) (add r.setpoint r.banda)
      → let b = settled (sub r.setpoint r.banda) (add r.setpoint r.banda) r.alto (v ∷ []) in
        aggiorna rd r v ≡ (record r { alto = b }, b)
  unfolding aggiorna settled crossed side Proper
  aggiorna_step r v p = ground (arith, p v)

  -- Where no reading can lie on both sides of the band, after any readings the regulator is on or off
  -- as the last reading outside the band says: off if it was below the setpoint less the band, on if
  -- it was above the setpoint and the band; and as it was before, if none was outside. The setpoint
  -- and the band are kept, and the answer to each reading is the state that holds after it.
  pub aggiorna_all_lem :
      (vs : List F32) (r : Regolatore rd)
      → Proper (sub r.setpoint r.banda) (add r.setpoint r.banda)
      → ((aggiorna_all rd r vs).0
          ≡ record r { alto = settled (sub r.setpoint r.banda) (add r.setpoint r.banda) r.alto vs })
        × ((aggiorna_all rd r vs).1
            ≡ each (settled (sub r.setpoint r.banda) (add r.setpoint r.banda) r.alto) (prefixes vs))
  unfolding aggiorna_all
  aggiorna_all_lem [] r p = (unfold settled crossed in refl, refl)
  aggiorna_all_lem (v ∷ vs) r p =
      let lo = sub r.setpoint r.banda in
      let hi = add r.setpoint r.banda in
      let b = settled lo hi r.alto (v ∷ []) in
      let (last, answers) = aggiorna_all_lem vs (record r { alto = b }) p in
      subst
        (λ z.
          ((aggiorna_all rd z.0 vs).0 ≡ record r { alto = settled lo hi r.alto (v ∷ vs) })
          × ((z.1 ∷ (aggiorna_all rd z.0 vs).1) ≡ each (settled lo hi r.alto) (prefixes (v ∷ vs))))
        (sym (aggiorna_step r v p))
        (
          last ∙ ap (λ (x : Bool). record r { alto = x }) (sym (settled-cons lo hi r.alto v vs)),
          ap (b ∷◌) (answers ∙ each-cons lo hi r.alto v (prefixes vs)),
        )
