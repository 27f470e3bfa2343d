-- ===== src/Ps2/Stream.antt =====
-- The assembler over a whole stream of bytes.
use nova_exo.Base.{ℕ, ◌+◌, ◌%◌, ◌<◌, ◌≡◌, refl, List, [], ◌∷◌, arith, length, set, length-set}
use nova_exo.Ps2.{Pacchetto, Assemblatore, new, complete, push_byte, push_bytes, cons_some}

pub record IsValid (a : Assemblatore) : Type 0 where
  pub full : length a.buf ≡ 3
  pub index : a.n < 3

pub new-IsValid : IsValid new
unfolding new
new-IsValid = omega arith

-- The array stays of three bytes and the index stays inside it, whatever the byte is.
pub push_byte-IsValid : {a : Assemblatore} (b : ℕ) → IsValid a → IsValid (push_byte a b).0
unfolding push_byte
push_byte-IsValid {a} b v = ground (arith, length-set a.buf a.n b)

push_byte-phase : {a : Assemblatore} (b : ℕ) → IsValid a → (push_byte a b).0.n ≡ (a.n + 1) % 3
unfolding push_byte
push_byte-phase b v = ground arith

-- Whatever the bytes are, the phase only counts them: no byte makes the assembler start anew.
pub push_bytes-phase :
    (bs : List ℕ) {a : Assemblatore}
    → IsValid a
    → IsValid (push_bytes a bs).0 × ((push_bytes a bs).0.n ≡ (a.n + length bs) % 3)
unfolding push_bytes
push_bytes-phase [] v = (v, omega (arith, v.index))
push_bytes-phase (b ∷ bs) {a} v =
    ground (arith, push_bytes-phase bs (push_byte-IsValid b v), push_byte-phase b v)

-- A group of three bytes from phase 0.
pub record Group : Type 0 where
  pub first : ℕ
  pub second : ℕ
  pub third : ℕ

abbrev pub bytes_of : List Group → List ℕ
bytes_of [] = []
bytes_of (g ∷ gs) = g.first ∷ g.second ∷ g.third ∷ bytes_of gs

abbrev pub decode_groups : List Group → List Pacchetto
decode_groups [] = []
decode_groups (g ∷ gs) = cons_some (complete (g.first ∷ g.second ∷ g.third ∷ [])) (decode_groups gs)

set_three :
    (buf : List ℕ) (f s t : ℕ) → length buf ≡ 3 → set (set (set buf 0 f) 1 s) 2 t ≡ f ∷ s ∷ t ∷ []
set_three [] f s t h = absurd (omega arith)
set_three (x ∷ []) f s t h = absurd (omega arith)
set_three (x ∷ y ∷ []) f s t h = absurd (omega arith)
set_three (x ∷ y ∷ z ∷ []) f s t h = refl
set_three (x ∷ y ∷ z ∷ w ∷ r) f s t h = absurd (omega arith)

-- From phase 0 the packets of a stream are those of its groups of three that have the phase bit, in
-- order.
pub push_bytes-bytes_of :
    (gs : List Group) {a : Assemblatore}
    → IsValid a
    → a.n ≡ 0
    → (push_bytes a (bytes_of gs)).1 ≡ decode_groups gs
unfolding push_bytes push_byte
push_bytes-bytes_of [] v e = refl
push_bytes-bytes_of (g ∷ gs) {a} v e = ground (
  arith,
  set_three a.buf g.first g.second g.third v.full,
  push_bytes-bytes_of gs {a = record { buf = g.first ∷ g.second ∷ g.third ∷ []; n = 0 }}
      (omega arith) refl,
)
