-- ===== src/HdaPath/Choice.antt =====
-- What the choices return, against the order of preference.
use nova_exo.Base.{
  ℕ, zero, suc, ◌+◌, ◌-◌, ◌≤◌, length, ◌≡◌, ◌⊎◌, ◌<◌, refl, sym, ◌∙◌, ap, Bool, true, false, ◌&&◌,
  Option, none, some, List, [], ◌∷◌, ◌==◌, if◌then◌else◌, or, u8, arith, Bool-cases, get_elem?,
}
use mathlib.Core.Logic.{inl, inr}
use mathlib.Core.Option.{some-injective}
use nova_exo.HdaPath.{
  Sorgente, CandidatoController, first_from, as_u8, pin_from, scegli_pin, scegli_controller,
  wid_pin, vendor_realtek,
}

abbrev pub input_pin : Sorgente → Bool
input_pin s = s.tipo == wid_pin && s.input_cap

abbrev pub internal_mic : Sorgente → Bool
internal_mic s = input_pin s && s.mic && s.internal

abbrev pub any_mic : Sorgente → Bool
any_mic s = input_pin s && s.mic

-- The result of one round, for the answers of the rest of the list.
round_lem :
    (input mic internal : Bool) (n : ℕ) (m p a b c : Option ℕ)
    → (if input
        then if mic && internal
          then some n
          else if mic
          then or a (or (or (or m (some n)) b) (or (or p (some n)) c))
          else or a (or (or m b) (or (or p (some n)) c))
        else or a (or (or m b) (or p c)))
      ≡ or
          (if input && mic && internal then some n else a)
          (or (or m (if input && mic then some n else b)) (or p (if input then some n else c)))
round_lem false mic internal n m p a b c = refl
round_lem true true true n m p a b c = refl
round_lem true true false n none none a b c = ground arith
round_lem true true false n none (some y) a b c = ground arith
round_lem true true false n (some x) p a b c = refl
round_lem true false internal n none none a b c = refl
round_lem true false internal n none (some y) a b c = refl
round_lem true false internal n (some x) p a b c = refl

as_u8-if :
    (b : Bool) (i : ℕ) (o : Option ℕ)
    → as_u8 (if b then some i else o) ≡ (if b then some (u8 i) else as_u8 o)
as_u8-if true i o = refl
as_u8-if false i o = refl

-- With the accumulators `m` and `p`, what the loop returns.
pin_from_lem :
    (i : ℕ) (m p : Option ℕ) (ss : List Sorgente)
    → pin_from i m p ss
      ≡ or
          (as_u8 (first_from internal_mic i ss))
          (or (or m (as_u8 (first_from any_mic i ss))) (or p (as_u8 (first_from input_pin i ss))))
unfolding pin_from first_from
pin_from_lem i none none [] = refl
pin_from_lem i none (some y) [] = refl
pin_from_lem i (some x) p [] = refl
pin_from_lem i m p (s ∷ ss) =
    rw
      (
        pin_from_lem (i + 1) (or m (some (u8 i))) (or p (some (u8 i))) ss,
        pin_from_lem (i + 1) m (or p (some (u8 i))) ss,
        pin_from_lem (i + 1) m p ss,
        as_u8-if (internal_mic s) i (first_from internal_mic (i + 1) ss),
        as_u8-if (any_mic s) i (first_from any_mic (i + 1) ss),
        as_u8-if (input_pin s) i (first_from input_pin (i + 1) ss),
      )
      (round_lem (input_pin s) s.mic s.internal (u8 i) m p _ _ _)

-- `scegli_pin` returns, as a u8, the index of the first input pin that is an internal microphone;
-- with none, of the first input pin with a microphone; with none, of the first input pin.
pub scegli_pin_lem :
    (ss : List Sorgente)
    → scegli_pin ss
      ≡ or
          (as_u8 (first_from internal_mic 0 ss))
          (or (as_u8 (first_from any_mic 0 ss)) (as_u8 (first_from input_pin 0 ss)))
unfolding scegli_pin
scegli_pin_lem ss = pin_from_lem 0 none none ss

-- What an index into `xs`, counted from `i`, tells: it is that of an element that passes, or none does.
unfoldable pub Found {ℓ} : {A : Type ℓ} → (A → Bool) → ℕ → List A → Option ℕ → Type ℓ
Found {A} p i xs none = (j : ℕ) (x : A) → get_elem? xs j ≡ some x → p x ≡ false
Found {A} p i xs (some j) =
    (x : A) × (get_elem? xs (j - i) ≡ some x) × (p x ≡ true) × (i ≤ j) × (j < i + length xs)

Found-none {ℓ} :
    {A : Type ℓ} (p : A → Bool) (i : ℕ) (x : A) (xs : List A)
    → p x ≡ false
    → Found p (i + 1) xs none
    → Found p i (x ∷ xs) none
unfolding Found
Found-none p i x xs e h zero y f = ap p (sym (some-injective x y f)) ∙ e
Found-none p i x xs e h (suc j) y f = h j y f

Found-next {ℓ} :
    {A : Type ℓ} (p : A → Bool) (i : ℕ) (x : A) (xs : List A) (r : Option ℕ)
    → p x ≡ false
    → Found p (i + 1) xs r
    → Found p i (x ∷ xs) r
unfolding Found
Found-next p i x xs none e h = Found-none p i x xs e h
Found-next p i x xs (some j) e (y, g, t, le, lt) =
    (y, ap (get_elem? (x ∷ xs)) (pred_split j i le) ∙ g, t, omega arith, omega arith)
  where
    pred_split : (j i : ℕ) → i + 1 ≤ j → j - i ≡ suc (j - (i + 1))
    pred_split j i h = omega arith

self_sub : (i : ℕ) → i - i ≡ 0
self_sub i = omega arith

pub first_from-Found {ℓ} :
    {A : Type ℓ} (p : A → Bool) (i : ℕ) (xs : List A) → Found p i xs (first_from p i xs)
unfolding first_from Found
first_from-Found p i [] = λ j x e. absurd cc
first_from-Found p i (x ∷ xs) = elim (Bool-cases (p x)) [
  | inl t ↦ rw t (x, ap (get_elem? (x ∷ xs)) (self_sub i), t, omega arith, omega arith)
  | inr f ↦ rw f (Found-next p i x xs (first_from p (i + 1) xs) f (first_from-Found p (i + 1) xs))
]

sub_zero : (i : ℕ) → i - 0 ≡ i
sub_zero i = omega arith

-- What the choice of the controller promises: a present controller of the list, Realtek's if the
-- list has a present one; none only if no controller is present.
unfoldable pub Controller : List CandidatoController → Option ℕ → Type 0
Controller cs none =
    (j : ℕ) (c : CandidatoController) → get_elem? cs j ≡ some c → c.presente ≡ false
Controller cs (some i) =
    (c : CandidatoController) × (get_elem? cs i ≡ some c)
    × (c.presente ≡ true)
    × (((j : ℕ) (d : CandidatoController)
          → get_elem? cs j ≡ some d
          → (d.presente && d.vendor == vendor_realtek) ≡ false)
        ⊎ (c.vendor ≡ vendor_realtek))

Controller-second :
    (cs : List CandidatoController) (r : Option ℕ)
    → Found (λ c. c.presente && c.vendor == vendor_realtek) 0 cs none
    → Found (λ c. c.presente) 0 cs r
    → Controller cs r
unfolding Found Controller
Controller-second cs none h f = f
Controller-second cs (some i) h (c, g, t, _, _) =
    (c, ap (get_elem? cs) (sym (sub_zero i)) ∙ g, t, inl h)

Controller-first :
    (cs : List CandidatoController) (r : Option ℕ)
    → Found (λ c. c.presente && c.vendor == vendor_realtek) 0 cs r
    → Controller cs (elim r [ some i ↦ some i | none ↦ first_from (λ c. c.presente) 0 cs ])
unfolding Found Controller
Controller-first cs none h =
    Controller-second cs (first_from (λ c. c.presente) 0 cs) h
      (first_from-Found (λ c. c.presente) 0 cs)
Controller-first cs (some i) (c, g, t, _, _) =
    (c, ap (get_elem? cs) (sym (sub_zero i)) ∙ g, ground (arith, t), inr (ground (arith, t)))

-- `scegli_controller` returns the index of a present controller, whose vendor is Realtek unless no
-- present controller is Realtek's, and none only when no controller is present.
pub scegli_controller-Controller :
    (cs : List CandidatoController) → Controller cs (scegli_controller cs)
unfolding scegli_controller
scegli_controller-Controller cs =
    Controller-first cs _ (first_from-Found (λ c. c.presente && c.vendor == vendor_realtek) 0 cs)
