-- ===== src/Nucleo/Pack.antt =====
-- The layout of the file of weights: writing a model and reading it back.
use nova_exo.Base.{
  drop-drop, append_assoc, ℕ, zero, suc, ◌+◌, ◌*◌, ◌≡◌, ◌≤◌, refl, sym, ap, ap₂, ◌∙◌, arith, some,
  List, [], ◌∷◌, ◌++◌, length, length-append, take, drop, slice, equal, codes, le→ltb,
}
use nova_exo.Nucleo.{
  NucleoLayer, NucleoModel, floats, raw_parts, parse_layer, parse_layers, parse_body, version_of,
  parse, dim, n_layers, chemio_dim, header_bytes, norm_bytes, embed_bytes, head_bytes,
  q4_k_wq_bytes, q4_k_wk_bytes, q6_k_wv_bytes, q4_k_wo_bytes, q4_k_wgate_bytes, q4_k_wup_bytes,
  q4_k_wdown_bytes, layer_bytes, total_model_bytes,
}

module _ {ℓ} {A : Type ℓ} where
  -- What is left of `buf` from `o` on is `rest`.
  abbrev From : List A → ℕ → List A → Type ℓ
  From buf o rest = drop o buf ≡ rest

  take-front : (xs ys : List A) (n : ℕ) → length xs ≡ n → take n (xs ++ ys) ≡ xs
  take-front [] ys zero e = refl
  take-front [] ys (suc n) e = absurd (omega (arith, e))
  take-front (x ∷ xs) ys zero e = absurd (omega (arith, e))
  take-front (x ∷ xs) ys (suc n) e = rw (take-front xs ys n (omega (arith, e))) refl

  drop-front : (xs ys : List A) (n : ℕ) → length xs ≡ n → drop n (xs ++ ys) ≡ ys
  drop-front [] ys zero e = refl
  drop-front [] ys (suc n) e = absurd (omega (arith, e))
  drop-front (x ∷ xs) ys zero e = absurd (omega (arith, e))
  drop-front (x ∷ xs) ys (suc n) e = drop-front xs ys n (omega (arith, e))

  -- Past a field of `n` elements.
  past :
      (buf : List A) (o : ℕ) (xs rest : List A) (n : ℕ)
      → From buf o (xs ++ rest)
      → length xs ≡ n
      → From buf (o + n) rest
  past buf o xs rest n h e = sym (drop-drop o n buf) ∙ ap (drop n) h ∙ drop-front xs rest n e

  slice-at :
      (buf : List A) (o : ℕ) (xs rest : List A) (n : ℕ)
      → From buf o (xs ++ rest)
      → length xs ≡ n
      → slice o n buf ≡ xs
  slice-at buf o xs rest n h e = ap (take n) h ∙ take-front xs rest n e

module _ {F : Type 0} where
  unfoldable pub SizedLayer : NucleoLayer F → Type 0
  SizedLayer l =
      (length l.attn_norm ≡ dim)
      × (length l.wq ≡ q4_k_wq_bytes)
      × (length l.wk ≡ q4_k_wk_bytes)
      × (length l.wv ≡ q6_k_wv_bytes)
      × (length l.wo ≡ q4_k_wo_bytes)
      × (length l.ffn_norm ≡ dim)
      × (length l.w_gate ≡ q4_k_wgate_bytes)
      × (length l.w_up ≡ q4_k_wup_bytes)
      × (length l.w_down ≡ q4_k_wdown_bytes)

  unfoldable pub SizedLayers : List (NucleoLayer F) → Type 0
  SizedLayers [] = 0 ≤ 0
  SizedLayers (l ∷ ls) = SizedLayer l × SizedLayers ls

  unfoldable pub Sized : NucleoModel F → Type 0
  Sized m =
      (length m.embed ≡ chemio_dim * dim)
      × (length m.layers ≡ n_layers)
      × SizedLayers m.layers
      × (length m.final_norm ≡ dim)
      × (length m.head ≡ dim * chemio_dim)

module _ {F : Type 0} (to_bytes : F → List ℕ) where
  unfoldable pub bytes_of : List F → List ℕ
  bytes_of [] = []
  bytes_of (x ∷ xs) = to_bytes x ++ bytes_of xs

  -- The fields of a layer in the order of the file.
  unfoldable pub pack_layer : NucleoLayer F → List ℕ → List ℕ
  pack_layer l rest =
      bytes_of l.attn_norm
      ++ (l.wq
          ++ (l.wk
              ++ (l.wv
                  ++ (l.wo
                      ++ (bytes_of l.ffn_norm ++ (l.w_gate ++ (l.w_up ++ (l.w_down ++ rest))))))))

  unfoldable pub pack_layers : List (NucleoLayer F) → List ℕ → List ℕ
  pack_layers [] rest = rest
  pack_layers (l ∷ ls) rest = pack_layer l (pack_layers ls rest)

  -- The file of a model: the name, the version, 56 bytes that are not read, and the weights.
  unfoldable pub pack : List ℕ → NucleoModel F → List ℕ → List ℕ
  pack spare m rest =
      codes "NUCL"
      ++ (1
          ∷ 0
          ∷ 0
          ∷ 0
          ∷ (spare
              ++ (bytes_of m.embed
                  ++ pack_layers m.layers (bytes_of m.final_norm ++ (bytes_of m.head ++ rest)))))

module _ {F : Type 0} (of_bytes : List ℕ → F) (to_bytes : F → List ℕ)
    (four : (x : F) → length (to_bytes x) ≡ 4) (back : (x : F) → of_bytes (to_bytes x) ≡ x) where
  length-bytes_of : (xs : List F) (n : ℕ) → length xs ≡ n → length (bytes_of to_bytes xs) ≡ n * 4
  unfolding bytes_of
  length-bytes_of [] n e = omega (arith, e)
  length-bytes_of (x ∷ xs) n e = omega (
    arith,
    e,
    four x,
    length-append (to_bytes x) (bytes_of to_bytes xs),
    length-bytes_of xs (length xs) refl,
  )

  floats-bytes_of :
      (xs : List F) (rest : List ℕ) (n : ℕ)
      → length xs ≡ n
      → floats of_bytes n (bytes_of to_bytes xs ++ rest) ≡ xs
  unfolding floats bytes_of
  floats-bytes_of [] rest zero e = refl
  floats-bytes_of [] rest (suc n) e = absurd (omega (arith, e))
  floats-bytes_of (x ∷ xs) rest zero e = absurd (omega (arith, e))
  floats-bytes_of (x ∷ xs) rest (suc n) e =
      rw (append_assoc (to_bytes x) (bytes_of to_bytes xs) rest) (
        ap₂ ◌∷◌
          (ap of_bytes (take-front (to_bytes x) (bytes_of to_bytes xs ++ rest) 4 (four x)) ∙ back x)
          (ap (floats of_bytes n)
              (drop-front (to_bytes x) (bytes_of to_bytes xs ++ rest) 4 (four x))
            ∙ floats-bytes_of xs rest n (omega (arith, e))))

  raw-at :
      (buf : List ℕ) (o : ℕ) (xs : List F) (rest : List ℕ) (n : ℕ)
      → From buf o (bytes_of to_bytes xs ++ rest)
      → length xs ≡ n
      → raw_parts of_bytes buf o n ≡ xs
  unfolding raw_parts
  raw-at buf o xs rest n h e = ap (floats of_bytes n) h ∙ floats-bytes_of xs rest n e

  parse_layer-pack :
      (buf : List ℕ) (o : ℕ) (l : NucleoLayer F) (rest : List ℕ)
      → SizedLayer l
      → From buf o (pack_layer to_bytes l rest)
      → (parse_layer of_bytes buf o ≡ l) × From buf (o + layer_bytes) rest
  unfolding SizedLayer pack_layer parse_layer
  parse_layer-pack buf o l rest (e0, e1, e2, e3, e4, e5, e6, e7, e8) h0 =
      let h1 =
        past buf o (bytes_of to_bytes l.attn_norm) _ norm_bytes h0
          (length-bytes_of l.attn_norm dim e0) in
      let h2 = past buf _ l.wq _ q4_k_wq_bytes h1 e1 in
      let h3 = past buf _ l.wk _ q4_k_wk_bytes h2 e2 in
      let h4 = past buf _ l.wv _ q6_k_wv_bytes h3 e3 in
      let h5 = past buf _ l.wo _ q4_k_wo_bytes h4 e4 in
      let h6 =
        past buf _ (bytes_of to_bytes l.ffn_norm) _ norm_bytes h5
          (length-bytes_of l.ffn_norm dim e5) in
      let h7 = past buf _ l.w_gate _ q4_k_wgate_bytes h6 e6 in
      let h8 = past buf _ l.w_up _ q4_k_wup_bytes h7 e7 in
      let h9 = past buf _ l.w_down _ q4_k_wdown_bytes h8 e8 in
      (
        λ i. record {
          attn_norm = raw-at buf o l.attn_norm _ dim h0 e0 i;
          wq = slice-at buf _ l.wq _ q4_k_wq_bytes h1 e1 i;
          wk = slice-at buf _ l.wk _ q4_k_wk_bytes h2 e2 i;
          wv = slice-at buf _ l.wv _ q6_k_wv_bytes h3 e3 i;
          wo = slice-at buf _ l.wo _ q4_k_wo_bytes h4 e4 i;
          ffn_norm = raw-at buf _ l.ffn_norm _ dim h5 e5 i;
          w_gate = slice-at buf _ l.w_gate _ q4_k_wgate_bytes h6 e6 i;
          w_up = slice-at buf _ l.w_up _ q4_k_wup_bytes h7 e7 i;
          w_down = slice-at buf _ l.w_down _ q4_k_wdown_bytes h8 e8 i;
        },
        ap (λ k. drop k buf) (omega arith) ∙ h9,
      )

  parse_layers-pack :
      (buf : List ℕ) (o : ℕ) (ls : List (NucleoLayer F)) (k : ℕ) (rest : List ℕ)
      → length ls ≡ k
      → SizedLayers ls
      → From buf o (pack_layers to_bytes ls rest)
      → (parse_layers of_bytes buf k o ≡ ls) × From buf (o + layer_bytes * k) rest
  unfolding SizedLayers pack_layers parse_layers
  parse_layers-pack buf o [] zero rest e s h =
      (refl, let e' : o + layer_bytes * 0 ≡ o = omega arith in ap (λ k. drop k buf) e' ∙ h)
  parse_layers-pack buf o [] (suc k) rest e s h = absurd (omega (arith, e))
  parse_layers-pack buf o (l ∷ ls) zero rest e s h = absurd (omega (arith, e))
  parse_layers-pack buf o (l ∷ ls) (suc k) rest e (s, ss) h =
      let here = parse_layer-pack buf o l _ s h in
      let there = parse_layers-pack buf (o + layer_bytes) ls k rest (omega (arith, e)) ss here.1 in
      let e' : o + layer_bytes * suc k ≡ o + layer_bytes + layer_bytes * k = omega arith in
      (ap₂ ◌∷◌ here.0 there.0, ap (λ k. drop k buf) e' ∙ there.1)

  parse_body-pack :
      (spare : List ℕ) (m : NucleoModel F) (rest : List ℕ)
      → length spare ≡ 56
      → Sized m
      → (parse_body of_bytes (pack to_bytes spare m rest) ≡ m)
        × From (pack to_bytes spare m rest) total_model_bytes rest
  unfolding Sized pack parse_body
  parse_body-pack spare m rest p (e0, e1, es, e2, e3) =
      let buf = pack to_bytes spare m rest in
      let h0 = past buf 8 spare _ 56 refl p in
      let h1 =
        past buf header_bytes (bytes_of to_bytes m.embed) _ embed_bytes h0
          (length-bytes_of m.embed (chemio_dim * dim) e0) in
      let ls = parse_layers-pack buf (header_bytes + embed_bytes) m.layers n_layers _ e1 es h1 in
      let o2 = header_bytes + embed_bytes + layer_bytes * n_layers in
      let h2 =
        past buf o2 (bytes_of to_bytes m.final_norm) _ norm_bytes ls.1
          (length-bytes_of m.final_norm dim e2) in
      let h3 =
        past buf (o2 + norm_bytes) (bytes_of to_bytes m.head) rest head_bytes h2
          (length-bytes_of m.head (dim * chemio_dim) e3) in
      (
        λ i. record {
          embed = raw-at buf header_bytes m.embed _ (chemio_dim * dim) h0 e0 i;
          layers = ls.0 i;
          final_norm = raw-at buf o2 m.final_norm _ dim ls.1 e2 i;
          head = raw-at buf (o2 + norm_bytes) m.head rest (dim * chemio_dim) h2 e3 i;
        },
        h3,
      )

  length-front : (xs ys : List ℕ) (n : ℕ) → length xs ≡ n → length (xs ++ ys) ≡ n + length ys
  length-front xs ys n e = omega (arith, e, length-append xs ys)

  length-pack_layer :
      (l : NucleoLayer F) (rest : List ℕ)
      → SizedLayer l
      → length (pack_layer to_bytes l rest) ≡ layer_bytes + length rest
  unfolding SizedLayer pack_layer
  length-pack_layer l rest (e0, e1, e2, e3, e4, e5, e6, e7, e8) =
      rw
        (
          length-front _ (l.wq ++ _) norm_bytes (length-bytes_of l.attn_norm dim e0),
          length-front _ (l.wk ++ _) q4_k_wq_bytes e1,
          length-front _ (l.wv ++ _) q4_k_wk_bytes e2,
          length-front _ (l.wo ++ _) q6_k_wv_bytes e3,
          length-front _ (bytes_of to_bytes l.ffn_norm ++ _) q4_k_wo_bytes e4,
          length-front _ (l.w_gate ++ _) norm_bytes (length-bytes_of l.ffn_norm dim e5),
          length-front _ (l.w_up ++ _) q4_k_wgate_bytes e6,
          length-front _ (l.w_down ++ _) q4_k_wup_bytes e7,
          length-front _ rest q4_k_wdown_bytes e8,
        )
        (omega arith)

  length-pack_layers :
      (ls : List (NucleoLayer F)) (rest : List ℕ)
      → SizedLayers ls
      → length (pack_layers to_bytes ls rest) ≡ layer_bytes * length ls + length rest
  unfolding SizedLayers pack_layers
  length-pack_layers [] rest s = omega arith
  length-pack_layers (l ∷ ls) rest (s, ss) =
      omega
        (arith, length-pack_layer l (pack_layers to_bytes ls rest) s, length-pack_layers ls rest ss)

  length-pack :
      (spare : List ℕ) (m : NucleoModel F) (rest : List ℕ)
      → length spare ≡ 56
      → Sized m
      → total_model_bytes ≤ length (pack to_bytes spare m rest)
  unfolding Sized pack
  length-pack spare m rest p (e0, e1, es, e2, e3) =
      rw
        (
          length-front _
              (bytes_of to_bytes m.embed
                ++ pack_layers to_bytes m.layers
                    (bytes_of to_bytes m.final_norm ++ (bytes_of to_bytes m.head ++ rest)))
              56 p,
          length-front _
              (pack_layers to_bytes m.layers
                (bytes_of to_bytes m.final_norm ++ (bytes_of to_bytes m.head ++ rest)))
              embed_bytes (length-bytes_of m.embed (chemio_dim * dim) e0),
          length-pack_layers m.layers
              (bytes_of to_bytes m.final_norm ++ (bytes_of to_bytes m.head ++ rest)) es,
          length-front _ (bytes_of to_bytes m.head ++ rest) norm_bytes
              (length-bytes_of m.final_norm dim e2),
          length-front _ rest head_bytes (length-bytes_of m.head (dim * chemio_dim) e3),
          e1,
        )
        (omega arith)

  -- A file that holds the name, version 1 and the fields of a model of the right sizes in their order
  -- is read as that model, whatever the 56 bytes after the version and the bytes after the model are.
  -- The cast of four bytes to an f32 is the processor's: it gives back the f32 whose bytes they are.
  pub parse-pack :
      (spare : List ℕ) (m : NucleoModel F) (rest : List ℕ)
      → length spare ≡ 56
      → Sized m
      → parse of_bytes (pack to_bytes spare m rest) ≡ some m
  unfolding parse version_of
  parse-pack spare m rest p s =
      let b = (parse_body-pack spare m rest p s).0 in
      rw
        (le→ltb (length (pack to_bytes spare m rest)) total_model_bytes
          (length-pack spare m rest p s))
        (unfold pack equal in ap some b)
