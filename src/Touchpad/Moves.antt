-- ===== src/Touchpad/Moves.antt =====
-- The touchpad's state against the packets of its assembler.
use nova_exo.Base.{
  ℕ, ◌+◌, ◌<◌, ◌≡◌, refl, sym, ◌∙◌, ap, Bool, true, false, Option, none, some, List, [], ◌∷◌,
  if◌then◌else◌, u32, arith, Option-cases,
}
use mathlib.Core.Logic.{inl, inr}
use mathlib.Core.Path.{subst}
use nova_exo.Ps2.{Assemblatore, Pacchetto, push_byte, push_bytes}
use nova_exo.Touchpad.{Touchpad, feed, feed_all, moved}

-- The moves among the packets.
unfoldable pub count_moved : List Pacchetto → ℕ
count_moved [] = 0
count_moved (p ∷ ps) = (if moved p then 1 else 0) + count_moved ps

-- The last packet, or `p` with none.
unfoldable pub last_of : Pacchetto → List Pacchetto → Pacchetto
last_of p [] = p
last_of p (q ∷ qs) = last_of q qs

-- What the state is after the packets `ps`.
abbrev pub After : Touchpad → Assemblatore → List Pacchetto → Touchpad → Type 0
After t ass ps z =
    (z.ass ≡ ass) × (z.ultimo ≡ last_of t.ultimo ps) × (z.mosse ≡ u32 (t.mosse + count_moved ps))

-- The state after a byte that completes the packet `p`.
abbrev packet_in : Touchpad → ℕ → Pacchetto → Touchpad
packet_in t b p = record {
  ass = (push_byte t.ass b).0;
  ultimo = p;
  mosse = if moved p then u32 (t.mosse + 1) else t.mosse;
}

-- The rest of the bytes after the answer to the first.
abbrev answered : List ℕ → Touchpad × Option Pacchetto → Touchpad × List Pacchetto
answered bs r = (
  (feed_all r.0 bs).0,
  elim r.1 [ none ↦ (feed_all r.0 bs).1 | some p ↦ p ∷ (feed_all r.0 bs).1 ],
)

-- One byte: the state after it, for each answer of the assembler.
feed-none :
    (t : Touchpad) (b : ℕ)
    → (push_byte t.ass b).1 ≡ none
    → feed t b ≡ (record t { ass = (push_byte t.ass b).0 }, none)
unfolding feed
feed-none t b e = ground (arith, e)

feed-some :
    (t : Touchpad) (b : ℕ) (p : Pacchetto)
    → (push_byte t.ass b).1 ≡ some p
    → feed t b ≡ (packet_in t b p, some p)
unfolding feed
feed-some t b p e = ground (arith, e)

bytes-none :
    (a : Assemblatore) (b : ℕ) (bs : List ℕ)
    → (push_byte a b).1 ≡ none
    → push_bytes a (b ∷ bs) ≡ push_bytes (push_byte a b).0 bs
unfolding push_bytes
bytes-none a b bs e = ground (arith, e)

bytes-some :
    (a : Assemblatore) (b : ℕ) (bs : List ℕ) (p : Pacchetto)
    → (push_byte a b).1 ≡ some p
    → push_bytes a (b ∷ bs)
      ≡ ((push_bytes (push_byte a b).0 bs).0, p ∷ (push_bytes (push_byte a b).0 bs).1)
unfolding push_bytes
bytes-some a b bs p e = ground (arith, e)

all-none :
    (t : Touchpad) (b : ℕ) (bs : List ℕ)
    → (push_byte t.ass b).1 ≡ none
    → feed_all t (b ∷ bs) ≡ feed_all (record t { ass = (push_byte t.ass b).0 }) bs
unfolding feed_all
all-none t b bs e = ap (answered bs) (feed-none t b e)

all-some :
    (t : Touchpad) (b : ℕ) (bs : List ℕ) (p : Pacchetto)
    → (push_byte t.ass b).1 ≡ some p
    → feed_all t (b ∷ bs)
      ≡ ((feed_all (packet_in t b p) bs).0, p ∷ (feed_all (packet_in t b p) bs).1)
unfolding feed_all
all-some t b bs p e = ap (answered bs) (feed-some t b p e)

moved_step :
    (m k : ℕ) (c : Bool)
    → m < 4294967296
    → u32 ((if c then u32 (m + 1) else m) + k) ≡ u32 (m + ((if c then 1 else 0) + k))
moved_step m k true h = omega arith
moved_step m k false h = omega arith

moved_lt : (m : ℕ) (c : Bool) → m < 4294967296 → (if c then u32 (m + 1) else m) < 4294967296
moved_lt m true h = omega arith
moved_lt m false h = h

-- The packets of the touchpad are those of the assembler, and its state is what they make it.
unfoldable pub Follows :
    Touchpad → Assemblatore × List Pacchetto → Touchpad × List Pacchetto → Type 0
Follows t x y = (y.1 ≡ x.1) × After t x.0 x.1 y.0

Follows-nil :
    (t : Touchpad) → t.mosse < 4294967296 → Follows t (push_bytes t.ass []) (feed_all t [])
unfolding Follows feed_all push_bytes last_of count_moved
Follows-nil t h = (refl, (refl, refl, omega arith))

Follows-none :
    (t : Touchpad) (a : Assemblatore) (x : Assemblatore × List Pacchetto)
    (y : Touchpad × List Pacchetto)
    → Follows (record t { ass = a }) x y
    → Follows t x y
unfolding Follows
Follows-none t a x y f = f

Follows-some :
    (t : Touchpad) (b : ℕ) (p : Pacchetto) (x : Assemblatore × List Pacchetto)
    (y : Touchpad × List Pacchetto)
    → t.mosse < 4294967296
    → Follows (packet_in t b p) x y
    → Follows t (x.0, p ∷ x.1) (y.0, p ∷ y.1)
unfolding Follows last_of count_moved
Follows-some t b p x y h (ps, (a, u, m)) =
    (ap (λ qs. p ∷ qs) ps, (a, u, m ∙ moved_step t.mosse _ (moved p) h))

-- For every sequence of bytes, from a count that is a u32: the packets are those of the assembler,
-- the last of them is `ultimo`, and `mosse` grows by the packets that move, and wraps.
pub feed_all-Follows :
    (bs : List ℕ) (t : Touchpad)
    → t.mosse < 4294967296
    → Follows t (push_bytes t.ass bs) (feed_all t bs)
feed_all-Follows [] t h = Follows-nil t h
feed_all-Follows (b ∷ bs) t h = elim (Option-cases (push_byte t.ass b).1) [
  | inl e ↦
      subst (λ x. Follows t x (feed_all t (b ∷ bs))) (sym (bytes-none t.ass b bs e))
        (subst (λ y. Follows t (push_bytes (push_byte t.ass b).0 bs) y) (sym (all-none t b bs e))
          (Follows-none t _ _ _ (feed_all-Follows bs (record t { ass = (push_byte t.ass b).0 }) h)))
  | inr (p, e) ↦
      subst (λ x. Follows t x (feed_all t (b ∷ bs))) (sym (bytes-some t.ass b bs p e))
        (subst
          (λ y.
            Follows t
              ((push_bytes (push_byte t.ass b).0 bs).0, p ∷ (push_bytes (push_byte t.ass b).0 bs).1)
              y)
          (sym (all-some t b bs p e))
          (Follows-some t b p _ _ h
            (feed_all-Follows bs (packet_in t b p) (moved_lt t.mosse (moved p) h))))
]
