-- ===== src/Cfc/Ticks.antt =====
-- src/cfc.rs: the marks that `tick_passed` sets.
use mathlib.Core.Logic.{inl, inr}
use nova_exo.Base.{
  Bool-cases, ◌↔◌, ap, ℕ, suc, ◌+◌, ◌*◌, ◌/◌, ◌%◌, ◌<◌, ◌≤◌, ◌^◌, ◌≡◌, ◌≢◌, refl, ◌∙◌, arith, true,
  false, leb, ne→==,
}
use native.Mathlib.Nat.{mul-le-mul_right, mod-lt, mul-mod_left, div-add-mod'}
use nova_exo.Cfc.{tick_passed}

fires : (t i n : ℕ) → i ≢ 0 → n ≤ t → t + i < 2 ^ 64 → tick_passed t i n ≡ (t / i * i + i, true)
unfolding tick_passed
fires t i n p h l =
    let e : (t / i + 1) * i ≡ t / i * i + i = grind arith in
    rw (ne→== i 0 p) (rw e (ground (arith, div-add-mod' t i)))

-- A mark is past `t` by at most the interval, and a multiple of it.
pub tick_passed_lem :
    (t i n : ℕ)
    → i ≢ 0
    → n ≤ t
    → t + i < 2 ^ 64
    → ((tick_passed t i n).1 ≡ true)
      × (t < (tick_passed t i n).0)
      × ((tick_passed t i n).0 ≤ t + i)
      × ((tick_passed t i n).0 % i ≡ 0)
tick_passed_lem t i n p h l =
    let d = div-add-mod' t i in
    let m : t % i < i = mod-lt t (omega (arith, p)) in
    let s : t / i * i + i ≡ suc (t / i) * i = grind arith in
    rw (fires t i n p h l)
      (refl, omega (arith, d, m), omega (arith, d), ap (λ x. x % i) s ∙ mul-mod_left _ i)

leb→le : (a b : ℕ) → leb a b ≡ true → a ≤ b
leb→le a b h = ground arith

leb→lt : (a b : ℕ) → leb a b ≡ false → b < a
leb→lt a b h = ground arith

below : (u i q : ℕ) → i ≢ 0 → q * i + i ≤ u → q < u / i
below u i q p h =
    let m : u % i < i = mod-lt u (omega (arith, p)) in
    elim (Bool-cases (leb (u / i) q)) [
      | inl y ↦
          absurd (omega (arith, mul-le-mul_right i (leb→le (u / i) q y), div-add-mod' u i, m, h))
      | inr z ↦ leb→lt (u / i) q z
    ]

above : (u i q : ℕ) → q < u / i → q * i + i ≤ u
above u i q h =
    let s : q * i + i ≡ suc q * i = grind arith in
    omega (arith, s, mul-le-mul_right i h, div-add-mod' u i)

passes : (t u i : ℕ) → i ≢ 0 → ((tick_passed u i (t / i * i + i)).1 ≡ true) ↔ (t / i < u / i)
unfolding tick_passed
passes t u i p = elim (Bool-cases (leb (t / i * i + i) u)) [
  | inl y ↦ rw (ne→== i 0 p, y) ((λ e. below u i (t / i) p (leb→le _ u y)), (λ l. refl))
  | inr z ↦
      rw (ne→== i 0 p, z)
        ((λ e. absurd (cc)), (λ l. absurd (omega (arith, above u i (t / i) l, leb→lt _ u z))))
]

-- After the mark of a tick `t` has passed, a tick `u` passes the next one exactly when it lies in a
-- later interval: a mark passes once in each interval, whatever the steps of the ticks are.
pub tick_passed_again :
    (t u i n : ℕ)
    → i ≢ 0
    → n ≤ t
    → t + i < 2 ^ 64
    → ((tick_passed u i (tick_passed t i n).0).1 ≡ true) ↔ (t / i < u / i)
tick_passed_again t u i n p h l = rw (fires t i n p h l) (passes t u i p)
