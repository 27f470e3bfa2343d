-- ===== src/Serial/Lines.antt =====
-- src/serial.rs: the lines that the reader gives.
use nova_exo.Base.{
  ℕ, zero, suc, ◌+◌, ◌≡◌, ◌≤◌, ◌<◌, refl, ◌∙◌, ap, arith, true, false, ◌||◌, List, [], ◌∷◌, ◌++◌,
  append_assoc, append-nil, leb, set, take, length, length-set, length-append,
}
use mathlib.Core.Path.{subst}
use nova_exo.Serial.{LineReader, line_cap, is_end, push_byte, push_bytes, consume, line}

-- No byte of a line ends it.
unfoldable pub Plain : List ℕ → Type 0
Plain [] = 0 ≤ 0
Plain (b ∷ bs) = (is_end b ≡ false) × Plain bs

module _ {A : Type 0} where
  take-set :
      (xs : List A) (n : ℕ) (v : A)
      → n < length xs
      → take (suc n) (set xs n v) ≡ take n xs ++ (v ∷ [])
  take-set [] n v h = absurd (omega arith)
  take-set (x ∷ xs) zero v h = refl
  take-set (x ∷ xs) (suc n) v h = ap (◌∷◌ x) (take-set xs n v (omega arith))

-- The reader has read `bs` of a line.
record Reading (bs : List ℕ) (r : LineReader) : Type 0 where
  size : length r.buf ≡ line_cap
  len : r.len ≡ length bs
  open_line : r.has_line ≡ false
  text : take r.len r.buf ≡ bs

accepts_byte :
    (r : LineReader) (b : ℕ)
    → r.has_line ≡ false
    → r.len < line_cap
    → is_end b ≡ false
    → push_byte b r ≡ record r { buf = set r.buf r.len b; len = r.len + 1 }
unfolding push_byte
accepts_byte r b h l e = rw (h, e) (ground (arith, l))

push-Reading :
    (bs : List ℕ) (r : LineReader) (b : ℕ)
    → Reading bs r
    → length bs < line_cap
    → is_end b ≡ false
    → Reading (bs ++ (b ∷ [])) (push_byte b r)
push-Reading bs r b k l e = rw (accepts_byte r b k.open_line (omega (arith, k.len)) e) (record {
  size = length-set r.buf r.len b ∙ k.size;
  len = omega (arith, k.len, length-append bs (b ∷ []));
  open_line = k.open_line;
  text = next (r.len) (k.text) (omega (arith, k.len, k.size));
})
  where
    next :
        (n : ℕ)
        → take n r.buf ≡ bs
        → n < length r.buf
        → take (n + 1) (set r.buf n b) ≡ bs ++ (b ∷ [])
    next n e h =
        let s : n + 1 ≡ suc n = omega arith in
        ap (λ m. take m (set r.buf n b)) s ∙ take-set r.buf n b h ∙ ap (λ z. z ++ (b ∷ [])) e

all-Reading :
    (bs qs : List ℕ) (r : LineReader)
    → Reading bs r
    → length bs + length qs ≤ line_cap
    → Plain qs
    → Reading (bs ++ qs) (push_bytes qs r)
unfolding Plain push_bytes
all-Reading bs [] r k l p = rw (append-nil bs) k
all-Reading bs (b ∷ qs) r k l (e, p) =
    subst (λ z. Reading z (push_bytes qs (push_byte b r))) (append_assoc bs (b ∷ []) qs)
      (all-Reading (bs ++ (b ∷ [])) qs (push_byte b r) (push-Reading bs r b k (omega arith) e)
        (omega (arith, length-append bs (b ∷ []))) p)

push_bytes-append :
    (xs ys : List ℕ) (r : LineReader) → push_bytes (xs ++ ys) r ≡ push_bytes ys (push_bytes xs r)
unfolding push_bytes
push_bytes-append [] ys r = refl
push_bytes-append (x ∷ xs) ys r = push_bytes-append xs ys (push_byte x r)

-- A reader that takes no byte takes none of a list.
deaf :
    (bs : List ℕ) (r : LineReader) → (r.has_line || leb line_cap r.len) ≡ true → push_bytes bs r ≡ r
unfolding push_bytes push_byte
deaf [] r h = refl
deaf (b ∷ bs) r h = rw h (deaf bs r h)

ends :
    (r : LineReader) (b : ℕ)
    → r.has_line ≡ false
    → r.len < line_cap
    → is_end b ≡ true
    → push_byte b r ≡ record r { has_line = true }
unfolding push_byte
ends r b h l e = rw (h, e) (ground (arith, l))

-- An empty reader: a new one, or one whose line was consumed.
unfoldable pub Ready : LineReader → Type 0
Ready r = (length r.buf ≡ line_cap) × (r.len ≡ 0) × (r.has_line ≡ false)

Ready-Reading : (r : LineReader) → Ready r → Reading [] r
unfolding Ready
Ready-Reading r (s, l, h) = record {
  size = s;
  len = l;
  open_line = h;
  text = ap (λ n. take n r.buf) l;
}

-- A line of fewer than 64 bytes and its end give an empty reader that line; the bytes after it are
-- dropped until the line is consumed, and then the reader is empty again.
pub push_bytes-line :
    (r : LineReader) (bs : List ℕ) (e : ℕ) (rest : List ℕ)
    → Ready r
    → Plain bs
    → length bs < line_cap
    → is_end e ≡ true
    → ((push_bytes (bs ++ (e ∷ rest)) r).has_line ≡ true)
      × (line (push_bytes (bs ++ (e ∷ rest)) r) ≡ bs)
      × Ready (consume (push_bytes (bs ++ (e ∷ rest)) r))
unfolding line consume Ready
push_bytes-line r bs e rest p q l h =
    let k = all-Reading [] bs r (Ready-Reading r p) (omega arith) q in
    let a = push_bytes bs r in
    let m : push_bytes (e ∷ rest) a ≡ record a { has_line = true } =
      unfold push_bytes in
      (rw (ends a e k.open_line (omega (arith, k.len)) h)
        (deaf rest (record a { has_line = true }) refl)) in
    rw (push_bytes-append bs (e ∷ rest) r) (rw m (refl, k.text, (k.size, refl, refl)))

-- After 64 bytes with no end among them the reader takes no byte more, not even an end: it never has
-- a line, whatever follows, and its text does not change.
pub push_bytes_deaf :
    (r : LineReader) (bs rest : List ℕ)
    → Ready r
    → Plain bs
    → length bs ≡ line_cap
    → ((push_bytes (bs ++ rest) r).has_line ≡ false) × (line (push_bytes (bs ++ rest) r) ≡ bs)
unfolding line
push_bytes_deaf r bs rest p q l =
    let k = all-Reading [] bs r (Ready-Reading r p) (omega arith) q in
    let a = push_bytes bs r in
    let m : push_bytes rest a ≡ a = deaf rest a (rw k.open_line (ground (arith, k.len, l))) in
    rw (push_bytes-append bs rest r) (rw m (k.open_line, k.text))
