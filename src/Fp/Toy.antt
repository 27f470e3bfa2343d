-- ===== src/Fp/Toy.antt =====
-- A small instance of the f32 operations for the tests: natural numbers.
use nova_exo.Base.{ℕ, ◌+◌, ◌-◌, ◌*◌, ◌/◌, ltb, leb, if◌then◌else◌}
use nova_exo.Base.Int.{ℤ, pos, negsuc}
use nova_exo.Fp.{Fp}

abbrev magnitude : ℤ → ℕ
magnitude (pos n) = n
magnitude (negsuc n) = 0

abbrev pub naturals : Fp
naturals = record {
  F = ℕ;
  lit = λ m d. m;
  neg = λ a. a;
  abs = λ a. a;
  add = λ a b. a + b;
  sub = λ a b. a - b;
  mul = λ a b. a * b;
  div = λ a b. a / b;
  lt = λ a b. ltb a b;
  le = λ a b. leb a b;
  max = λ a b. if ltb a b then b else a;
  clamp = λ a lo hi. if ltb a lo then lo else if ltb hi a then hi else a;
  of_int = λ z. magnitude z;
  to_i16 = λ a. pos a;
  to_i32 = λ a. pos a;
}
