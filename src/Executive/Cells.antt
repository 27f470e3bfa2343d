-- ===== src/Executive/Cells.antt =====
-- The table of src/executive.rs: a write changes one cell.
use nova_exo.Base.{
  replicate, ℕ, ◌≡◌, ◌<◌, refl, ◌∙◌, ap, arith, Bool, true, false, ◌&&◌, List, [], ◌==◌,
  if◌then◌else◌, get_or, set, length, length-set, get_or-set, get_or-replicate, Bool-cases,
}
use mathlib.Core.Logic.{inl, inr}
use nova_exo.Executive.{
  Tabella, cell, put, filled, n_concetti, n_fam, n_desires, concetto_of, fam_of, desire_of,
}

-- Both sides of a test are as long.
one_length :
    {B : Type 0} (n : ℕ) (xs ys : List B) (b : Bool)
    → length xs ≡ n
    → length ys ≡ n
    → length (if b then xs else ys) ≡ n
one_length n xs ys true e g = e
one_length n xs ys false e g = g

module _ {A : Type 0} where
  unfoldable pub Sized : Tabella A → Type 0
  Sized t =
      (length t ≡ n_concetti)
      × ((c : ℕ) → c < n_concetti → length (get_or t c []) ≡ n_fam)
      × ((c f : ℕ) → c < n_concetti → f < n_fam → length (get_or (get_or t c []) f []) ≡ n_desires)

  pub cell-put :
      (t : Tabella A) (c f d c' f' d' : ℕ) (v z : A)
      → Sized t
      → c < n_concetti
      → f < n_fam
      → d < n_desires
      → cell (put t c f d v) c' f' d' z
        ≡ (if c' == c && (f' == f && d' == d) then v else cell t c' f' d' z)
  unfolding Sized cell put
  cell-put t c f d c' f' d' v z (s0, s1, s2) l m n =
      let row = set (get_or (get_or t c []) f []) d v in
      let rows = set (get_or t c []) f row in
      let e0 = get_or-set t c c' rows [] (omega (arith, s0)) in
      let e1 = get_or-set (get_or t c []) f f' row [] (omega (arith, s1 c l)) in
      let e2 = get_or-set (get_or (get_or t c []) f []) d d' v z (omega (arith, s2 c f l m)) in
      rw e0 (ground (arith, e0, e1, e2))

  pub put-Sized :
      (t : Tabella A) (c f d : ℕ) (v : A)
      → c < n_concetti
      → f < n_fam
      → Sized t
      → Sized (put t c f d v)
  unfolding Sized put
  put-Sized t c f d v l m (s0, s1, s2) =
      let row = set (get_or (get_or t c []) f []) d v in
      let rows = set (get_or t c []) f row in
      (
        length-set t c rows ∙ s0,
        (λ c' l'. rw (get_or-set t c c' rows [] (omega (arith, s0))) (
            one_length n_fam _ _ (c' == c) (length-set (get_or t c []) f row ∙ s1 c l) (s1 c' l'))),
        (λ c' f' l' m'.
            rw (get_or-set t c c' rows [] (omega (arith, s0))) (elim (Bool-cases (c' == c)) [
              | inl y ↦ rw y (
                  rw (get_or-set (get_or t c []) f f' row [] (omega (arith, s1 c l))) (
                    one_length n_desires _ _ (f' == f)
                      (length-set (get_or (get_or t c []) f []) d v ∙ s2 c f l m) (s2 c f' l m')))
              | inr n ↦ rw n (s2 c' f' l' m')
            ])),
      )

  pub filled-Sized : (z : A) → Sized (filled z)
  unfolding Sized
  filled-Sized z = (
    refl,
    (λ c l.
        ap length (get_or-replicate n_concetti c (replicate n_fam (replicate n_desires z)) [] l)),
    (λ c f l m.
        rw (get_or-replicate n_concetti c (replicate n_fam (replicate n_desires z)) [] l)
          (ap length (get_or-replicate n_fam f (replicate n_desires z) [] m))),
  )

pub concetto_lt : (c : ℕ) → concetto_of c < n_concetti
concetto_lt c = omega arith

pub fam_lt : (b : Bool) → fam_of b < n_fam
fam_lt b = ground arith

pub desire_lt : (d : ℕ) → desire_of d < n_desires
desire_lt d = omega arith
