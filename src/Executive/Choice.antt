-- ===== src/Executive/Choice.antt =====
-- src/executive.rs: pain is sovereign, and the exploration.
use nova_exo.Base.{
  ◌||◌, ◌≢◌, ℕ, ◌≡◌, ◌≤◌, ◌<◌, refl, sym, ◌∙◌, arith, Bool, true, false, Option, none, some, leb,
  ◌==◌, Bool-cases, ◌⊎◌,
}
use mathlib.Core.Logic.{inl, inr}
use nova_exo.Fp.{Fp}
use nova_exo.Executive.{
  Preferenza, campioni, migliore, best_of, better, useful, mai_provato, InterpretReport, Executive,
  base, choose, explore, explored, follow, settle, step, candidati, preferred, saturating_inc,
}

-- Is it one of the desires that the learning may choose?
unfoldable pub is_candidate : ℕ → Bool
is_candidate d = (d == 0) || (d == 1) || (d == 3) || (d == 4) || (d == 5)

module _ (fp : Fp) where
  open fp use {F}

  abbrev Best : Option (ℕ × F) → Type 0
  Best none = 0 ≤ 0
  Best (some (d, v)) = is_candidate d ≡ true

  abbrev Chosen : Option ℕ → Type 0
  Chosen none = 0 ≤ 0
  Chosen (some d) = is_candidate d ≡ true

  better-Best :
      (best : Option (ℕ × F)) (d : ℕ) (v : Option F)
      → is_candidate d ≡ true
      → Best best
      → Best (better fp best d v)
  unfolding better
  better-Best best d none e h = h
  better-Best none d (some v) e h = e
  better-Best (some (b, bv)) d (some v) e h = elim (Bool-cases (fp.lt bv v)) [
    | inl y ↦ rw y e
    | inr z ↦ rw z h
  ]

  useful-Chosen : (best : Option (ℕ × F)) → Best best → Chosen (useful fp best)
  unfolding useful
  useful-Chosen none h = omega arith
  useful-Chosen (some (d, v)) h = elim (Bool-cases (fp.le (fp.lit 6 1) v)) [
    | inl y ↦ rw y h
    | inr z ↦ rw z (omega arith)
  ]

  migliore-Chosen :
      (p : Preferenza fp) (c : ℕ) (nuovo : Bool) → Chosen (migliore fp p c nuovo candidati)
  unfolding migliore best_of is_candidate
  migliore-Chosen p c nuovo = useful-Chosen _ (
      better-Best _ 5 _ refl (
        better-Best _ 4 _ refl (
          better-Best _ 3 _ refl
            (better-Best _ 1 _ refl (better-Best none 0 _ refl (omega arith))))))

  mai_provato-Chosen :
      (p : Preferenza fp) (c : ℕ) (nuovo : Bool) → Chosen (mai_provato fp p c nuovo candidati)
  unfolding mai_provato is_candidate
  mai_provato-Chosen p c nuovo = ground arith

  -- The rule flees exactly from pain, and its other desires are not the flight.
  base-flight :
      (x : Executive fp) (rep : InterpretReport fp) (pf_err fam : F)
      → ((base fp x rep pf_err fam).0 == 2) ≡ (rep.concept == 0)
  unfolding base
  base-flight x rep pf_err fam = ground arith

  preferred-Chosen : (o : Option ℕ) (b : ℕ) → Chosen o → Chosen (preferred o b)
  preferred-Chosen none b h = h
  preferred-Chosen (some d) b h = elim (Bool-cases (d == b)) [
    | inl y ↦ rw y (omega arith)
    | inr z ↦ rw z h
  ]

  candidate_calm : (d : ℕ) → is_candidate d ≡ true → (d == 2) ≡ false
  unfolding is_candidate
  candidate_calm d h = ground arith

  explored_calm :
      (x : Executive fp) (b : ℕ × F) (o : Option ℕ)
      → (b.0 == 2) ≡ false
      → Chosen o
      → ((explored fp x b o).1.0 == 2) ≡ false
  unfolding explored
  explored_calm x b (some d) h c = candidate_calm d c
  explored_calm x b none h c = h

  explore_calm :
      (x : Executive fp) (c : ℕ) (nuovo : Bool) (b : ℕ × F)
      → (b.0 == 2) ≡ false
      → ((explore fp x c nuovo b).1.0 == 2) ≡ false
  unfolding explore
  explore_calm x c nuovo b h = elim (Bool-cases (leb 30 (saturating_inc x.esplora_counter))) [
    | inl y ↦ rw y (
        explored_calm x b (mai_provato fp x.preferenza c nuovo candidati) h
          (mai_provato-Chosen x.preferenza c nuovo))
    | inr z ↦ rw z h
  ]

  follow_calm :
      (x : Executive fp) (c : ℕ) (nuovo : Bool) (b : ℕ × F) (o : Option ℕ)
      → (b.0 == 2) ≡ false
      → Chosen o
      → ((follow fp x c nuovo b o).1.0 == 2) ≡ false
  unfolding follow
  follow_calm x c nuovo b (some d) h k = candidate_calm d k
  follow_calm x c nuovo b none h k = explore_calm x c nuovo b h

  choose_calm :
      (x : Executive fp) (c : ℕ) (nuovo : Bool) (b : ℕ × F)
      → (b.0 == 2) ≡ false
      → ((choose fp x c nuovo b).1.0 == 2) ≡ false
  unfolding choose
  choose_calm x c nuovo b h = rw h (
      follow_calm x c nuovo b _ h (
        preferred-Chosen (migliore fp x.preferenza c nuovo candidati) b.0
          (migliore-Chosen x.preferenza c nuovo)))

  choose_flight :
      (x : Executive fp) (c : ℕ) (nuovo : Bool) (b : ℕ × F)
      → (b.0 == 2) ≡ true
      → choose fp x c nuovo b ≡ (x, b)
  unfolding choose
  choose_flight x c nuovo b h = rw h refl

  step_unfolds :
      (x : Executive fp) (rep : InterpretReport fp) (pf_err fam : F)
      → step fp x rep pf_err fam ≡ (
          let nuovo = fp.lt fam (fp.lit 5 1) in
          let r = choose fp x rep.concept nuovo (base fp x rep pf_err fam) in
          settle fp r.0 rep pf_err nuovo r.1)
  unfolding step
  step_unfolds x rep pf_err fam = refl

  -- Pain is sovereign: the executive wants the flight exactly when the concept is the pain, whatever
  -- it has learned; in pain it neither explores nor changes the preference.
  pub step_pain :
      (x : Executive fp) (rep : InterpretReport fp) (pf_err fam : F)
      → (((step fp x rep pf_err fam).1.id == 2) ≡ (rep.concept == 0))
        × ((rep.concept ≢ 0)
            ⊎ (((step fp x rep pf_err fam).0.preferenza ≡ x.preferenza)
                × ((step fp x rep pf_err fam).0.esplora_counter ≡ x.esplora_counter)))
  unfolding settle
  step_pain x rep pf_err fam =
      let b = base-flight x rep pf_err fam in
      rw (step_unfolds x rep pf_err fam) (elim (Bool-cases (rep.concept == 0)) [
        | inl y ↦
            rw
              (choose_flight x rep.concept (fp.lt fam (fp.lit 5 1)) (base fp x rep pf_err fam)
                (b ∙ y))
              (b, inr (refl, refl))
        | inr z ↦ (
          choose_calm x rep.concept (fp.lt fam (fp.lit 5 1)) (base fp x rep pf_err fam) (b ∙ z)
              ∙ sym z,
          inl (λ e. absurd (ground (arith, z, e))),
        )
      ])

  -- What the search for an untried desire says.
  abbrev pub Untried : Preferenza fp → ℕ → Bool → Option ℕ → Type 0
  Untried p c nuovo (some d) = (is_candidate d ≡ true) × (campioni fp p c nuovo d ≡ 0)
  Untried p c nuovo none =
      (0 < campioni fp p c nuovo 0)
      × (0 < campioni fp p c nuovo 1)
      × (0 < campioni fp p c nuovo 3)
      × (0 < campioni fp p c nuovo 4)
      × (0 < campioni fp p c nuovo 5)

  -- The desire that the curiosity tries is one of the five candidates and has no outcome yet in the
  -- circumstance; there is none exactly where every candidate has one.
  pub mai_provato_lem :
      (p : Preferenza fp) (c : ℕ) (nuovo : Bool)
      → Untried p c nuovo (mai_provato fp p c nuovo candidati)
  unfolding mai_provato is_candidate
  mai_provato_lem p c nuovo = ground arith
