-- ===== src/Net/Payload/Fields.antt =====
-- The fields of the telemetry, and that `build_payload` writes the object of them.
use nova_exo.Base.{
  ℕ, ◌/◌, ◌%◌, ◌≡◌, refl, sym, ap, ◌∙◌, Bool, true, false, List, [], ◌∷◌, ◌++◌, u32, get_or, codes,
  take, drop, length, min,
}
use nova_exo.Net.Writer.{Out, push, push_all, write_u32_buf, Float, write_f32_buf}
use nova_exo.Net.Writer.Prefix.{push_all-append, push_all-prefix}
use nova_exo.Net.Writer.Decimal.{decimal, write_u32_buf-decimal, write_u64_buf-decimal}
use nova_exo.Net.Payload.{
  Organs, write_sep, hex_char, write_sig, StatoSensi, State, write_cell, flag, write_state,
  write_organs, write_senses, build_payload,
}
use nova_exo.Net.Payload.Json.{
  Json, num, text, arr, obj, Items, nil, cons, Fields, end, field, render, render_items,
  render_fields, fixed4, write_f32_buf-fixed4,
}

abbrev items {ℓ} : {A : Type ℓ} → (A → Json) → List A → Items
items j [] = nil
items j (x ∷ xs) = cons (j x) (items j xs)

abbrev u : ℕ → Json
u n = num (decimal 12 n)

write_sep-items {ℓ} :
    {A : Type ℓ} (w : A → Out → Out) (j : A → Json)
    → ((x : A) (o : Out) → w x o ≡ push_all (render (j x)) o)
    → (first : Bool) (xs : List A) (o : Out)
    → write_sep w first xs o ≡ push_all (render_items first (items j xs)) o
unfolding write_sep render push_all
write_sep-items w j h first [] o = refl
write_sep-items w j h true (x ∷ xs) o =
    write_sep-items w j h false xs (w x o) ∙ simp (h, push_all-append)
write_sep-items w j h false (x ∷ xs) o =
    write_sep-items w j h false xs (w x (push b',' o)) ∙ simp (h, push_all-append)

-- Two hexadecimal digits for each byte.
pub sig_hex : List ℕ → List ℕ
sig_hex [] = []
sig_hex (b ∷ bs) = hex_char (b / 16 % 16) ∷ hex_char (b % 16) ∷ sig_hex bs

write_sig-hex : (bs : List ℕ) (o : Out) → write_sig bs o ≡ push_all (sig_hex bs) o
unfolding write_sig sig_hex push_all
write_sig-hex [] o = refl
write_sig-hex (b ∷ bs) o = write_sig-hex bs _

u-render : (n : ℕ) (o : Out) → write_u32_buf n o ≡ push_all (render (u n)) o
unfolding render
u-render n o = write_u32_buf-decimal n o

abbrev arr_u : List ℕ → Json
arr_u xs = arr (items u xs)

module _ (fl : Float) where
  open fl use {F32}

  abbrev f : F32 → Json
  f x = num (fixed4 fl x)

  f-render : (x : F32) (o : Out) → write_f32_buf fl x o ≡ push_all (render (f x)) o
  unfolding render
  f-render x o = write_f32_buf-fixed4 fl x o

  abbrev cell : List F32 → Json
  cell c = arr (items f c)

  write_cell-render : (c : List F32) (o : Out) → write_cell fl c o ≡ push_all (render (cell c)) o
  unfolding render write_cell push_all
  write_cell-render c o = simp (write_sep-items (write_f32_buf fl) f f-render, push_all-append)

  unfoldable pub state_fields : State fl → Fields → Fields
  state_fields s rest = field (codes "t") (num (decimal 20 s.tick)) (
      field (codes "k") (text s.concept) (
        field (codes "c") (arr (items cell s.cells)) (
          field (codes "w") (arr (cons (u s.desire_id) (cons (f s.desire_int) nil))) (
            field (codes "u") (f s.chemio_u) (
              field (codes "p") (f s.chemio_p) (
                field (codes "n") (f s.chemio_n) (
                  field (codes "l") (arr_u (s.cambi ∷ s.esplorazioni ∷ [])) (
                    field (codes "r") (arr_u s.diag) (
                      field (codes "sig") (text (sig_hex s.sig))
                        (field (codes "v") (u s.epoch) rest))))))))))

  write_state-fields :
      (s : State fl) (rest : Fields) (o : Out)
      → push_all (render (obj (state_fields s rest))) o
        ≡ push b'}' (push_all (render_fields false rest) (write_state fl s o))
  unfolding state_fields render write_state push_all
  write_state-fields s rest o = simp (
    push_all-append,
    write_sep-items (write_cell fl) cell write_cell-render,
    write_sep-items write_u32_buf u u-render,
    write_u32_buf-decimal,
    write_u64_buf-decimal,
    write_f32_buf-fixed4 fl,
    write_sig-hex,
  )

  unfoldable pub organ_fields : Organs → Fields → Fields
  organ_fields g rest = field (codes "kb") (arr_u (g.key_count ∷ g.key_held ∷ [])) (
      field (codes "ps2") (arr_u (get_or g.ps2 0 0 ∷ get_or g.ps2 1 0 ∷ get_or g.ps2 2 0 ∷ [])) (
        field (codes "acpi")
          (arr_u (
            u32 (get_or g.acpi 0 0)
            ∷ u32 (get_or g.acpi 1 0)
            ∷ u32 (get_or g.acpi 2 0)
            ∷ u32 (get_or g.acpi 3 0)
            ∷ u32 (get_or g.acpi 4 0)
            ∷ []))
          (field (codes "ec")
            (arr_u (u32 (get_or g.ec 0 0) ∷ u32 (get_or g.ec 1 0) ∷ u32 (get_or g.ec 2 0) ∷ []))
            (field (codes "kbd")
              (arr_u
                (get_or g.kid 0 0 ∷ get_or g.kid 1 0 ∷ get_or g.kid 2 0 ∷ get_or g.kid 3 0 ∷ []))
              rest))))

  write_organs-fields :
      (g : Organs) (rest : Fields) (o : Out)
      → push_all (render_fields false (organ_fields g rest)) o
        ≡ push_all (render_fields false rest) (write_organs fl g o)
  unfolding organ_fields render write_organs push_all
  write_organs-fields g rest o = simp (push_all-append, write_u32_buf-decimal)

  unfoldable pub sense_fields : StatoSensi fl → Fields
  sense_fields s =
      field (codes "sen")
        (arr (
          cons (u s.n) (
            cons (u s.riflessi) (
              cons (u s.guasti) (
                cons (u s.guasti_mask) (
                  cons (f s.tatto) (
                    cons (f s.chemio) (
                      cons (f s.metabol) (
                        cons (f s.integrat) (
                          cons (f s.udito) (
                            cons (f s.mic) (
                              cons (u s.adc) (
                                cons (u s.pin) (
                                  cons (u (flag fl s.gesto)) (
                                    cons (u s.hda_vend) (
                                      cons (u s.hda_dev) (
                                        cons (f s.temp_c) (
                                          cons (u s.via) (
                                            cons (f s.mem_omeo) (
                                              cons (u (flag fl s.ventola)) (
                                                cons (u (flag fl s.stream_on))
                                                  (cons (u s.lpib) nil))))))))))))))))))))))
        end

  write_senses-fields :
      (s : StatoSensi fl) (o : Out)
      → push b'}' (push_all (render_fields false (sense_fields s)) o) ≡ write_senses fl s o
  unfolding sense_fields render write_senses push_all
  write_senses-fields s o = simp (push_all-append, write_u32_buf-decimal, write_f32_buf-fixed4 fl)

  -- The telemetry as one JSON object.
  abbrev pub telemetry : State fl → Organs → Json
  telemetry s g = obj (state_fields s (organ_fields g (sense_fields s.sen)))

  write_payload-telemetry :
      (s : State fl) (g : Organs) (o : Out)
      → write_senses fl s.sen (write_organs fl g (write_state fl s o))
        ≡ push_all (render (telemetry s g)) o
  write_payload-telemetry s g o = sym (
      write_state-fields s (organ_fields g (sense_fields s.sen)) o
      ∙ ap (push b'}') (write_organs-fields g (sense_fields s.sen) (write_state fl s o))
      ∙ write_senses-fields s.sen (write_organs fl g (write_state fl s o)))

  -- The payload is the text of the telemetry object, cut where the buffer ends: the bytes behind it
  -- stay, and the length is that of what is written, also when the object does not fit.
  pub build_payload-telemetry :
      (buf : List ℕ) (s : State fl) (g : Organs)
      → let t = render (telemetry s g) in
        build_payload fl buf s g ≡ record {
          buf = take (length buf) t ++ drop (length t) buf;
          pos = min (length t) (length buf);
        }
  unfolding build_payload
  build_payload-telemetry buf s g =
      write_payload-telemetry s g (record { buf = buf; pos = 0 })
      ∙ push_all-prefix (render (telemetry s g)) buf
