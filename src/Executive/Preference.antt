-- ===== src/Executive/Preference.antt =====
-- src/executive.rs: what the preference learns from the outcomes.
use nova_exo.Base.{
  ap₂, replicate, get_or-replicate, ℕ, ◌+◌, ◌^◌, ◌≡◌, ◌<◌, refl, ◌∙◌, ap, arith, Bool, true, false,
  ◌&&◌, none, some, List, [], ◌∷◌, ◌==◌, ltb, if◌then◌else◌, length, u32, ==_refl,
}
use nova_exo.Base.Int.{pos}
use nova_exo.Fp.{Fp}
use nova_exo.Executive.{
  filled, n_concetti, n_fam, n_desires, Preferenza, preferenza_new, impara, valore, campioni,
  somma_of, min_campioni, concetto_of, fam_of, desire_of, cell,
}
use nova_exo.Executive.Cells.{
  Sized, cell-put, put-Sized, filled-Sized, concetto_lt, fam_lt, desire_lt,
}

-- Do two circumstances and desires share a cell of the table?
abbrev pub same_cell : ℕ → Bool → ℕ → ℕ → Bool → ℕ → Bool
same_cell c nuovo d c' nuovo' d' =
    concetto_of c' == concetto_of c
    && (fam_of nuovo' == fam_of nuovo && desire_of d' == desire_of d)

empty_cell :
    {A : Type 0} (z : A) (c d : ℕ) (nuovo : Bool)
    → cell (filled z) (concetto_of c) (fam_of nuovo) (desire_of d) z ≡ z
unfolding cell
empty_cell z c d nuovo =
    rw
      (get_or-replicate n_concetti (concetto_of c) (replicate n_fam (replicate n_desires z)) []
        (concetto_lt c))
      (rw (get_or-replicate n_fam (fam_of nuovo) (replicate n_desires z) [] (fam_lt nuovo))
        (get_or-replicate n_desires (desire_of d) z z (desire_lt d)))

module _ (fp : Fp) where
  open fp use {F, lit, add, div, of_int}

  abbrev pub worth : Bool → F
  worth utile = if utile then lit 1 0 else lit 0 0

  unfoldable pub Tables : Preferenza fp → Type 0
  Tables p = Sized p.somma × Sized p.n

  impara-campioni :
      (p : Preferenza fp) (c d c' d' : ℕ) (nuovo nuovo' utile : Bool)
      → Tables p
      → campioni fp (impara fp p c nuovo d utile) c' nuovo' d' ≡ (
          if same_cell c nuovo d c' nuovo' d'
          then u32 (campioni fp p c nuovo d + 1)
          else campioni fp p c' nuovo' d')
  unfolding impara Tables
  impara-campioni p c d c' d' nuovo nuovo' utile (s, t) =
      cell-put p.n (concetto_of c) (fam_of nuovo) (desire_of d) (concetto_of c') (fam_of nuovo')
        (desire_of d') _ 0 t (concetto_lt c) (fam_lt nuovo) (desire_lt d)

  impara-somma :
      (p : Preferenza fp) (c d c' d' : ℕ) (nuovo nuovo' utile : Bool)
      → Tables p
      → somma_of fp (impara fp p c nuovo d utile) c' nuovo' d' ≡ (
          if same_cell c nuovo d c' nuovo' d'
          then add (somma_of fp p c nuovo d) (worth utile)
          else somma_of fp p c' nuovo' d')
  unfolding impara Tables
  impara-somma p c d c' d' nuovo nuovo' utile (s, t) =
      cell-put p.somma (concetto_of c) (fam_of nuovo) (desire_of d) (concetto_of c') (fam_of nuovo')
        (desire_of d') _ (lit 0 0) s (concetto_lt c) (fam_lt nuovo) (desire_lt d)

  pub impara-Tables :
      (p : Preferenza fp) (c d : ℕ) (nuovo utile : Bool)
      → Tables p
      → Tables (impara fp p c nuovo d utile)
  unfolding impara Tables
  impara-Tables p c d nuovo utile (s, t) = (
    put-Sized p.somma _ _ _ _ (concetto_lt c) (fam_lt nuovo) s,
    put-Sized p.n _ _ _ _ (concetto_lt c) (fam_lt nuovo) t,
  )

  -- The outcomes of one desire in one circumstance, in their order.
  unfoldable pub impara_all : Preferenza fp → ℕ → Bool → ℕ → List Bool → Preferenza fp
  impara_all p c nuovo d [] = p
  impara_all p c nuovo d (u ∷ us) = impara_all (impara fp p c nuovo d u) c nuovo d us

  unfoldable pub total : F → List Bool → F
  total s [] = s
  total s (u ∷ us) = total (add s (worth u)) us

  self_cell : (c d : ℕ) (nuovo : Bool) → same_cell c nuovo d c nuovo d ≡ true
  self_cell c d nuovo =
      rw (==_refl (concetto_of c), ==_refl (fam_of nuovo), ==_refl (desire_of d)) refl

  all-campioni :
      (us : List Bool) (p : Preferenza fp) (c d : ℕ) (nuovo : Bool)
      → Tables p
      → campioni fp p c nuovo d + length us < 2 ^ 32
      → campioni fp (impara_all p c nuovo d us) c nuovo d ≡ campioni fp p c nuovo d + length us
  unfolding impara_all
  all-campioni [] p c d nuovo t h = omega arith
  all-campioni (u ∷ us) p c d nuovo t h =
      let e : campioni fp (impara fp p c nuovo d u) c nuovo d ≡ u32 (campioni fp p c nuovo d + 1) =
        impara-campioni p c d c d nuovo nuovo u t ∙ rw (self_cell c d nuovo) refl in
      omega (
        arith,
        e,
        all-campioni us (impara fp p c nuovo d u) c d nuovo (impara-Tables p c d nuovo u t)
            (omega (arith, e)),
      )

  all-somma :
      (us : List Bool) (p : Preferenza fp) (c d : ℕ) (nuovo : Bool)
      → Tables p
      → somma_of fp (impara_all p c nuovo d us) c nuovo d ≡ total (somma_of fp p c nuovo d) us
  unfolding impara_all total
  all-somma [] p c d nuovo t = refl
  all-somma (u ∷ us) p c d nuovo t =
      let e : somma_of fp (impara fp p c nuovo d u) c nuovo d
          ≡ add (somma_of fp p c nuovo d) (worth u) =
        impara-somma p c d c d nuovo nuovo u t ∙ rw (self_cell c d nuovo) refl in
      all-somma us (impara fp p c nuovo d u) c d nuovo (impara-Tables p c d nuovo u t)
      ∙ ap (λ s. total s us) e

  new-Tables : Tables (preferenza_new fp)
  unfolding Tables
  new-Tables = (filled-Sized (lit 0 0), filled-Sized 0)

  -- An outcome is learned in the one cell of its circumstance and desire: the value of every other
  -- circumstance or desire stays as it was, where the table has its sizes.
  pub impara_lem :
      (p : Preferenza fp) (c d c' d' : ℕ) (nuovo nuovo' utile : Bool)
      → Tables p
      → same_cell c nuovo d c' nuovo' d' ≡ false
      → valore fp (impara fp p c nuovo d utile) c' nuovo' d' ≡ valore fp p c' nuovo' d'
  unfolding valore
  impara_lem p c d c' d' nuovo nuovo' utile t h =
      let n : campioni fp (impara fp p c nuovo d utile) c' nuovo' d' ≡ campioni fp p c' nuovo' d' =
        impara-campioni p c d c' d' nuovo nuovo' utile t ∙ rw h refl in
      let s : somma_of fp (impara fp p c nuovo d utile) c' nuovo' d' ≡ somma_of fp p c' nuovo' d' =
        impara-somma p c d c' d' nuovo nuovo' utile t ∙ rw h refl in
      ap₂ (λ k v. if ltb k min_campioni then none else some (div v (of_int (pos k)))) n s

  -- From an empty preference, the value of a desire in a circumstance after fewer than 2^32 of its
  -- outcomes: none before the third, and then the share of the useful ones.
  pub valore_lem :
      (us : List Bool) (c d : ℕ) (nuovo : Bool)
      → length us < 2 ^ 32
      → valore fp (impara_all (preferenza_new fp) c nuovo d us) c nuovo d ≡ (
          if ltb (length us) min_campioni
          then none
          else some (div (total (lit 0 0) us) (of_int (pos (length us)))))
  unfolding valore
  valore_lem us c d nuovo h =
      let p = preferenza_new fp in
      let z : campioni fp p c nuovo d ≡ 0 = empty_cell 0 c d nuovo in
      let w : somma_of fp p c nuovo d ≡ lit 0 0 = empty_cell (lit 0 0) c d nuovo in
      let n : campioni fp (impara_all p c nuovo d us) c nuovo d ≡ length us =
        all-campioni us p c d nuovo new-Tables (omega (arith, z)) ∙ omega (arith, z) in
      let s : somma_of fp (impara_all p c nuovo d us) c nuovo d ≡ total (lit 0 0) us =
        all-somma us p c d nuovo new-Tables ∙ ap (λ v. total v us) w in
      ap₂ (λ k v. if ltb k min_campioni then none else some (div v (of_int (pos k)))) n s
