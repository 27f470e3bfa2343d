-- ===== src/Nucleo/Adattatori.antt =====
-- src/nucleo.rs: the buffer of the plastic adapters, cut in the eight matrices of a layer.
use nova_exo.Base.{
  take-add, ℕ, ◌+◌, ◌*◌, ◌≡◌, ◌≤◌, refl, ap, ◌∙◌, sym, arith, Option, none, some, List, ◌++◌, ltb,
  length, take, drop, length-take, length-drop, le→ltb, if◌then◌else◌,
}
use nova_exo.Nucleo.{dim, n_ff}

abbrev pub rango : ℕ
rango = 8

abbrev pub adattatori_layer_floats : ℕ
adattatori_layer_floats = 3 * (n_ff + dim) * rango + 2 * dim * rango

-- The matrices U and V of the four projections, in the order Gate, Up, Down, Wo.
pub record AdattatoriLayer (A : Type 0) : Type 0 where
  pub u0 : List A
  pub u1 : List A
  pub u2 : List A
  pub u3 : List A
  pub v0 : List A
  pub v1 : List A
  pub v2 : List A
  pub v3 : List A

module _ {A : Type 0} where
  -- `split_at_mut`: the first `n` elements, and the rest.
  abbrev pub split_at : ℕ → List A → List A × List A
  split_at n xs = (take n xs, drop n xs)

  unfoldable pub nuovi : List A → Option (AdattatoriLayer A)
  nuovi buf =
      let (u0, r1) = split_at (n_ff * rango) buf in
      let (v0, r2) = split_at (dim * rango) r1 in
      let (u1, r3) = split_at (n_ff * rango) r2 in
      let (v1, r4) = split_at (dim * rango) r3 in
      let (u2, r5) = split_at (dim * rango) r4 in
      let (v2, r6) = split_at (n_ff * rango) r5 in
      let (u3, r7) = split_at (dim * rango) r6 in
      let (v3, r8) = split_at (dim * rango) r7 in
      if ltb (length buf) adattatori_layer_floats
      then none
      else some (record { u0 = u0; u1 = u1; u2 = u2; u3 = u3; v0 = v0; v1 = v1; v2 = v2; v3 = v3 })

  -- The matrices in the order of the buffer.
  unfoldable pub flat : AdattatoriLayer A → List A
  flat a = a.u0 ++ (a.v0 ++ (a.u1 ++ (a.v1 ++ (a.u2 ++ (a.v2 ++ (a.u3 ++ a.v3))))))

  -- The rows of a matrix of each projection are as many as its outputs for U and its inputs for V.
  unfoldable pub Sized : AdattatoriLayer A → Type 0
  Sized a =
      (length a.u0 ≡ n_ff * rango)
      × (length a.u1 ≡ n_ff * rango)
      × (length a.u2 ≡ dim * rango)
      × (length a.u3 ≡ dim * rango)
      × (length a.v0 ≡ dim * rango)
      × (length a.v1 ≡ dim * rango)
      × (length a.v2 ≡ n_ff * rango)
      × (length a.v3 ≡ dim * rango)

  length-piece : (n : ℕ) (xs : List A) → n ≤ length xs → length (take n xs) ≡ n
  length-piece n xs h = omega (arith, length-take n xs)

  length-left : (n m : ℕ) (xs : List A) → n + m ≤ length xs → m ≤ length (drop n xs)
  length-left n m xs h = omega (arith, length-drop n xs)

  -- A buffer of at least 57344 floats is cut in the matrices of a layer, each of its size; put
  -- together in their order they are the first 57344 floats, so that no float is in two or in none.
  pub nuovi_lem :
      (buf : List A)
      → adattatori_layer_floats ≤ length buf
      → (a : AdattatoriLayer A) × (nuovi buf ≡ some a)
        × Sized a
        × (flat a ≡ take adattatori_layer_floats buf)
  unfolding nuovi flat Sized
  nuovi_lem buf h =
      let big = n_ff * rango in
      let small = dim * rango in
      let h1 = length-left big 45056 buf (omega arith) in
      let r1 = drop big buf in
      let h2 = length-left small 40960 r1 h1 in
      let r2 = drop small r1 in
      let h3 = length-left big 28672 r2 h2 in
      let r3 = drop big r2 in
      let h4 = length-left small 24576 r3 h3 in
      let r4 = drop small r3 in
      let h5 = length-left small 20480 r4 h4 in
      let r5 = drop small r4 in
      let h6 = length-left big 8192 r5 h5 in
      let r6 = drop big r5 in
      let h7 = length-left small 4096 r6 h6 in
      let r7 = drop small r6 in
      (
        _,
        rw (le→ltb (length buf) adattatori_layer_floats h) refl,
        (
          length-piece big buf (omega arith),
          length-piece big r2 (omega (arith, h2)),
          length-piece small r4 (omega (arith, h4)),
          length-piece small r6 (omega (arith, h6)),
          length-piece small r1 (omega (arith, h1)),
          length-piece small r3 (omega (arith, h3)),
          length-piece big r5 (omega (arith, h5)),
          length-piece small r7 (omega (arith, h7)),
        ),
        sym (
            take-add big 45056 buf
            ∙ ap (λ z. take big buf ++ z)
                (take-add small 40960 r1
                  ∙ ap (λ z. take small r1 ++ z)
                      (take-add big 28672 r2
                        ∙ ap (λ z. take big r2 ++ z)
                            (take-add small 24576 r3
                              ∙ ap (λ z. take small r3 ++ z)
                                  (take-add small 20480 r4
                                    ∙ ap (λ z. take small r4 ++ z)
                                        (take-add big 8192 r5
                                          ∙ ap (λ z. take big r5 ++ z)
                                              (take-add small 4096 r6))))))),
      )
