-- ===== src/Net/Payload/Json.antt =====
-- The payload as a JSON object.
use nova_exo.Base.{
  ℕ, ◌/◌, ◌%◌, ◌≡◌, refl, Bool, true, false, List, [], ◌∷◌, ◌++◌, arith, if◌then◌else◌, ltb, codes,
}
use nova_exo.Net.Writer.{Out, push, push_all, Float, scaled, pad_zeros, write_f32_buf}
use nova_exo.Net.Writer.Prefix.{push_all-append}
use nova_exo.Net.Writer.Decimal.{decimal, write_u32_buf-decimal}

-- A JSON value: the text of a number, a text without escapes, an array, an object.
mutual
  pub data Json : Type 0 where
    num : List ℕ → Json
    text : List ℕ → Json
    arr : Items → Json
    obj : Fields → Json

  pub data Items : Type 0 where
    nil : Items
    cons : Json → Items → Items

  pub data Fields : Type 0 where
    end : Fields
    field : List ℕ → Json → Fields → Fields

-- The text behind a comma, if it is not the first.
abbrev pub comma : Bool → List ℕ
comma first = if first then [] else b',' ∷ []

unfoldable mutual
  pub render : Json → List ℕ
  render (num t) = t
  render (text t) = b'"' ∷ (t ++ b'"' ∷ [])
  render (arr xs) = b'[' ∷ (render_items true xs ++ b']' ∷ [])
  render (obj fs) = b'{' ∷ (render_fields true fs ++ b'}' ∷ [])

  pub render_items : Bool → Items → List ℕ
  render_items first nil = []
  render_items first (cons x xs) = comma first ++ (render x ++ render_items false xs)

  pub render_fields : Bool → Fields → List ℕ
  render_fields first end = []
  render_fields first (field k v fs) =
      comma first ++ b'"' ∷ (k ++ (b'"' ∷ b':' ∷ (render v ++ render_fields false fs)))

-- The text of an f32 with four decimals.
module _ (fl : Float) where
  open fl use {F32, lt, zero_f}

  unfoldable pub pad : ℕ → List ℕ
  pad frac =
      if ltb frac 10
      then codes "000"
      else if ltb frac 100
      then codes "00"
      else if ltb frac 1000
      then codes "0"
      else []

  unfoldable pub sign : F32 → List ℕ
  sign val = if lt val zero_f then codes "-" else []

  unfoldable pub fixed4 : F32 → List ℕ
  fixed4 val =
      sign val
      ++ (decimal 12 (scaled fl val / 10000)
          ++ (b'.' ∷ (pad (scaled fl val % 10000) ++ decimal 12 (scaled fl val % 10000))))

  pad_zeros-pad : (n : ℕ) (o : Out) → pad_zeros fl n o ≡ push_all (pad n) o
  unfolding pad_zeros pad push_all
  pad_zeros-pad n o = ground arith

  push-sign :
      (val : F32) (o : Out) → (if lt val zero_f then push b'-' o else o) ≡ push_all (sign val) o
  unfolding sign push_all
  push-sign val o = ground arith

  pub push_all-cons : (b : ℕ) (bs : List ℕ) (o : Out) → push_all (b ∷ bs) o ≡ push_all bs (push b o)
  unfolding push_all
  push_all-cons b bs o = refl

  pub write_f32_buf-fixed4 :
      (val : F32) (o : Out) → write_f32_buf fl val o ≡ push_all (fixed4 val) o
  unfolding write_f32_buf fixed4
  write_f32_buf-fixed4 val o =
      simp (push-sign, pad_zeros-pad, write_u32_buf-decimal, push_all-append, push_all-cons)
