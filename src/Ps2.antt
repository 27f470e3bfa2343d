-- ===== src/Ps2.antt =====
-- src/ps2.rs: which device a byte of the 8042 controller comes from, the decoding of a 3-byte mouse
-- packet, and the assembler that groups the bytes of the mouse by three. A byte is a number below
-- 256, an `i16` an integer.
pub mod Decode
pub mod Stream
use nova_exo.Base.{
  ℕ, ◌+◌, ◌-◌, Bool, true, false, not, ◌||◌, Option, none, some, List, [], ◌∷◌, bit, low_bits, ◌==◌,
  if◌then◌else◌, set, get_or,
}
use nova_exo.Base.Int.{ℤ, pos, sub_ℕ}

pub data Porta : Type 0 where
  tastiera mouse : Porta

-- Bit 0 of the status is OBF, bit 5 is AUX.
unfoldable pub destinazione : ℕ → Option Porta
destinazione status =
    if not (bit status 0) then none else if bit status 5 then some mouse else some tastiera

pub record Pacchetto : Type 0 where
  pub dx : ℤ
  pub dy : ℤ
  pub bottoni : ℕ
  pub overflow : Bool

-- `b as i16 - 256` or `b as i16`
abbrev pub signed9 : Bool → ℕ → ℤ
signed9 negative b = if negative then sub_ℕ b 256 else pos b

-- The argument is the array `b: [u8; 3]`. Bits 6 and 7 together are the mask 0xC0.
unfoldable pub decodifica : ℕ → ℕ → ℕ → Pacchetto
decodifica f b1 b2 = record {
  dx = signed9 (bit f 4) b1;
  dy = signed9 (bit f 5) b2;
  bottoni = low_bits f 3;
  overflow = bit f 6 || bit f 7;
}

pub record Assemblatore : Type 0 where
  pub buf : List ℕ
  pub n : ℕ

unfoldable pub new : Assemblatore
new = record { buf = 0 ∷ 0 ∷ 0 ∷ []; n = 0 }

-- The three bytes of a full buffer.
unfoldable pub complete : List ℕ → Option Pacchetto
complete buf =
    if not (bit (get_or buf 0 0) 3)
    then none
    else some (decodifica (get_or buf 0 0) (get_or buf 1 0) (get_or buf 2 0))

-- The method `Assemblatore::byte`. A write out of the array changes nothing here, and a panic there;
-- the invariant of `Stream` rules it out.
unfoldable pub push_byte : Assemblatore → ℕ → Assemblatore × Option Pacchetto
push_byte a b =
    let buf' = set a.buf a.n b in
    if a.n + 1 == 3
    then (record { buf = buf'; n = 0 }, complete buf')
    else (record { buf = buf'; n = a.n + 1 }, none)

-- The assembler over a sequence of bytes: its last state, and the packets in order.
abbrev pub cons_some {ℓ} : {A : Type ℓ} → Option A → List A → List A
cons_some none xs = xs
cons_some (some x) xs = x ∷ xs

unfoldable pub push_bytes : Assemblatore → List ℕ → Assemblatore × List Pacchetto
push_bytes a [] = (a, [])
push_bytes a (b ∷ bs) =
    let (a', p) = push_byte a b in let (z, ps) = push_bytes a' bs in (z, cons_some p ps)
