-- ===== src/Cfc/Withdraw.antt =====
-- src/cfc.rs: what a withdrawal gives of the events before it.
use nova_exo.Base.{
  ap, ℕ, suc, ◌+◌, ◌<◌, ◌^◌, ◌≡◌, refl, arith, Option, none, some, List, [], ◌∷◌, length,
}
use nova_exo.Cfc.{Senses, SenseEvent, sense_key, sense_pf, sense_gp, take_sense}

pub data Event : Type 0 where
  key : (sc : ℕ) → Event
  pf : (addr err : ℕ) → Event
  gp : (err : ℕ) → Event

unfoldable pub feel : Event → Senses → Senses
unfolding sense_key sense_pf sense_gp
feel (key sc) s = sense_key sc s
feel (pf addr err) s = sense_pf addr err s
feel (gp err) s = sense_gp err s

unfoldable pub feel_all : List Event → Senses → Senses
feel_all [] s = s
feel_all (e ∷ es) s = feel_all es (feel e s)

-- What the last event of each kind said, or the value before where there was none.
unfoldable pub last_key : List Event → ℕ → ℕ
last_key [] k = k
last_key (key sc ∷ es) k = last_key es sc
last_key (pf a r ∷ es) k = last_key es k
last_key (gp r ∷ es) k = last_key es k

unfoldable pub last_pf : List Event → ℕ × ℕ → ℕ × ℕ
last_pf [] p = p
last_pf (key sc ∷ es) p = last_pf es p
last_pf (pf a r ∷ es) p = last_pf es (a, r)
last_pf (gp r ∷ es) p = last_pf es p

unfoldable pub last_gp : List Event → ℕ → ℕ
last_gp [] g = g
last_gp (key sc ∷ es) g = last_gp es g
last_gp (pf a r ∷ es) g = last_gp es g
last_gp (gp r ∷ es) g = last_gp es r

-- What a state would say at a withdrawal.
abbrev pub reading : Senses → SenseEvent
reading s = record { pf_addr = s.pf_addr; pf_err = s.pf_err; gp_err = s.gp_err; key = s.key }

abbrev pub summary : List Event → Senses → SenseEvent
summary es s =
    let p = last_pf es (s.pf_addr, s.pf_err) in
    record { pf_addr = p.0; pf_err = p.1; gp_err = last_gp es s.gp_err; key = last_key es s.key }

feel_all-reading : (es : List Event) (s : Senses) → reading (feel_all es s) ≡ summary es s
unfolding feel_all feel last_key last_pf last_gp
feel_all-reading [] s = refl
feel_all-reading (key sc ∷ es) s = unfold sense_key in feel_all-reading es (sense_key sc s)
feel_all-reading (pf a r ∷ es) s = unfold sense_pf in feel_all-reading es (sense_pf a r s)
feel_all-reading (gp r ∷ es) s = unfold sense_gp in feel_all-reading es (sense_gp r s)

feel_all-counter :
    (es : List Event) (s : Senses)
    → s.counter + length es < 2 ^ 64
    → (feel_all es s).counter ≡ s.counter + length es
unfolding feel_all feel
feel_all-counter [] s h = omega arith
feel_all-counter (key sc ∷ es) s h =
    unfold sense_key in omega (arith, feel_all-counter es (sense_key sc s) (omega arith))
feel_all-counter (pf a r ∷ es) s h =
    unfold sense_pf in omega (arith, feel_all-counter es (sense_pf a r s) (omega arith))
feel_all-counter (gp r ∷ es) s h =
    unfold sense_gp in omega (arith, feel_all-counter es (sense_gp r s) (omega arith))

-- What a withdrawal after these events gives: nothing where there was none.
abbrev pub withdrawn : List Event → Senses → Option SenseEvent
withdrawn [] s = none
withdrawn (e ∷ es) s = some (summary (e ∷ es) s)

take_some :
    (s : Senses) (n : ℕ)
    → s.counter ≡ suc n
    → take_sense s ≡ (record s { counter = 0; key = 0 }, some (reading s))
unfolding take_sense
take_some s n h = ground (arith, h)

take_none : (s : Senses) → s.counter ≡ 0 → take_sense s ≡ (s, none)
unfolding take_sense
take_none s h = ground (arith, h)

-- After fewer than 2^64 events since a withdrawal, the next withdrawal gives the last page fault, the
-- last protection fault and the last key, or nothing where there was no event; the one after it
-- gives nothing; the key is then forgotten, and the faults stay.
pub take_sense_lem :
    (es : List Event) (s : Senses)
    → s.counter ≡ 0
    → s.key ≡ 0
    → length es < 2 ^ 64
    → ((take_sense (feel_all es s)).1 ≡ withdrawn es s)
      × ((take_sense (take_sense (feel_all es s)).0).1 ≡ none)
      × (reading ((take_sense (feel_all es s)).0) ≡ record (summary es s) { key = 0 })
take_sense_lem [] s c k h =
    unfold feel_all last_pf last_gp last_key in
    rw (take_none s c) (refl, rw (take_none s c) refl, ground (arith, k))
take_sense_lem (e ∷ es) s c k h =
    let t = feel_all (e ∷ es) s in
    let n : t.counter ≡ suc (length es) =
      omega (arith, feel_all-counter (e ∷ es) s (omega arith)) in
    let r = feel_all-reading (e ∷ es) s in
    rw (take_some t (length es) n) (
      ap some r,
      ap (λ (p : Senses × Option SenseEvent). p.1)
          (take_none (record t { counter = 0; key = 0 }) refl),
      ap (λ (v : SenseEvent). record v { key = 0 }) r,
    )
