-- ===== src/Net/Writer/Prefix.antt =====
-- A sequence of pushes writes the longest prefix of its text that fits, and nothing else.
use nova_exo.Base.{
  ℕ, suc, ◌+◌, ◌≡◌, refl, sym, ap, ◌∙◌, Bool, List, [], ◌∷◌, ◌++◌, append_assoc, arith, le→ltb,
  lt→ltb, if◌then◌else◌, min, length, length-append, set, take, drop, drop-nil,
}
use nova_exo.Net.Writer.{Out, push, push_all}

pub push_all-append : (s t : List ℕ) (o : Out) → push_all (s ++ t) o ≡ push_all t (push_all s o)
unfolding push_all
push_all-append [] t o = refl
push_all-append (b ∷ s) t o = push_all-append s t (push b o)

pub push_all-one : (b : ℕ) (o : Out) → push b o ≡ push_all (b ∷ []) o
unfolding push_all
push_all-one b o = refl

pub push_all-if :
    (t : Bool) (x y : List ℕ) (o : Out)
    → (if t then push_all x o else push_all y o) ≡ push_all (if t then x else y) o
push_all-if t x y o = ground arith

set-append :
    (p : List ℕ) (r b : ℕ) (rs : List ℕ) → set (p ++ r ∷ rs) (length p) b ≡ (p ++ b ∷ []) ++ rs
set-append [] r b rs = refl
set-append (x ∷ p) r b rs = ap (◌∷◌ x) (set-append p r b rs)

-- A buffer that is full from `pos` on takes nothing.
push_all-full : (t : List ℕ) (o : Out) → o.pos ≡ length o.buf → push_all t o ≡ o
unfolding push_all push
push_all-full [] o h = refl
push_all-full (b ∷ t) o h = rw (le→ltb o.pos (length o.buf) (omega arith)) (push_all-full t o h)

abbrev behind : List ℕ → List ℕ → Out
behind p rest = record { buf = p ++ rest; pos = length p }

push-behind :
    (p : List ℕ) (b r : ℕ) (rs : List ℕ) → push b (behind p (r ∷ rs)) ≡ behind (p ++ b ∷ []) rs
unfolding push
push-behind p b r rs =
    rw (lt→ltb (length p) (length (p ++ r ∷ rs)) (omega (arith, length-append p (r ∷ rs))))
      (λ i. record { buf = set-append p r b rs i; pos = grow i })
  where
    grow : length p + 1 ≡ length (p ++ b ∷ [])
    grow = omega (arith, length-append p (b ∷ []))

unwritten :
    (t p : List ℕ)
    → behind p []
      ≡ record { buf = p ++ (take 0 t ++ drop (length t) []); pos = length p + min (length t) 0 }
unwritten t p = λ i. record { buf = p ++ nothing i; pos = at i }
  where
    nothing : ◌≡◌ {A = List ℕ} [] (drop {A = ℕ} (length t) [])
    nothing = sym (drop-nil (length t))

    at : length p ≡ length p + min (length t) 0
    at = omega arith

push_all-behind :
    (t p rest : List ℕ)
    → push_all t (behind p rest) ≡ record {
      buf = p ++ (take (length rest) t ++ drop (length t) rest);
      pos = length p + min (length t) (length rest);
    }
unfolding push_all
push_all-behind t p [] =
    push_all-full t (behind p []) (omega (arith, length-append {A = ℕ} p [])) ∙ unwritten t p
push_all-behind [] p (r ∷ rs) = λ i. record { buf = p ++ r ∷ rs; pos = at i }
  where
    at : length p ≡ length p + min 0 (suc (length rs))
    at = omega arith
push_all-behind (b ∷ t) p (r ∷ rs) =
    ap (push_all t) (push-behind p b r rs) ∙ push_all-behind t (p ++ b ∷ []) rs ∙ λ i. record {
      buf = append_assoc p (b ∷ []) (take (length rs) t ++ drop (length t) rs) i;
      pos = at i;
    }
  where
    at :
        length (p ++ b ∷ []) + min (length t) (length rs)
        ≡ length p + min (suc (length t)) (suc (length rs))
    at = omega (arith, length-append p (b ∷ []))

-- From position 0 the writer leaves the part of the text that fits, then what the buffer held, and
-- the position is the number of bytes written.
pub push_all-prefix :
    (t buf : List ℕ)
    → push_all t (record { buf = buf; pos = 0 }) ≡ record {
      buf = take (length buf) t ++ drop (length t) buf;
      pos = min (length t) (length buf);
    }
push_all-prefix t buf = push_all-behind t [] buf ∙ λ i. record {
  buf = take (length buf) t ++ drop (length t) buf;
  pos = at i;
}
  where
    at : 0 + min (length t) (length buf) ≡ min (length t) (length buf)
    at = omega arith
