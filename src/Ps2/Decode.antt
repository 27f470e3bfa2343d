-- ===== src/Ps2/Decode.antt =====
-- Packets as a mouse sends them, and what `decodifica` makes of them.
use nova_exo.Base.{
  ℕ, ◌+◌, ◌*◌, ◌-◌, ◌<◌, ◌≡◌, refl, Bool, true, false, bit, low_bits, arith, if◌then◌else◌,
}
use nova_exo.Base.Int.{ℤ, pos, negsuc}
use nova_exo.Ps2.{Pacchetto, decodifica, signed9}

-- A movement of nine bits, -256 to 255.
abbrev pub InNine : ℤ → Type 0
InNine (pos n) = n < 256
InNine (negsuc n) = n < 256

abbrev pub is_negative : ℤ → Bool
is_negative (pos _) = false
is_negative (negsuc _) = true

-- The low eight bits of a movement.
abbrev pub low_byte : ℤ → ℕ
low_byte (pos n) = n
low_byte (negsuc n) = 255 - n

abbrev b01 : Bool → ℕ
b01 b = if b then 1 else 0

-- The first byte of the packet of the protocol: buttons, the fixed bit 3, signs, overflow.
abbrev pub first_byte : Pacchetto → ℕ
first_byte p =
    p.bottoni + 8 + 16 * b01 (is_negative p.dx) + 32 * b01 (is_negative p.dy) + 64 * b01 p.overflow

pub signed9-low_byte : (z : ℤ) → InNine z → signed9 (is_negative z) (low_byte z) ≡ z
signed9-low_byte (pos n) h = refl
signed9-low_byte (negsuc n) h = ground arith

first_byte_bits :
    (b : ℕ) (x y o : Bool)
    → b < 8
    → let f = b + 8 + 16 * b01 x + 32 * b01 y + 64 * b01 o in
      (bit f 3 ≡ true)
      × (bit f 4 ≡ x)
      × (bit f 5 ≡ y)
      × (bit f 6 ≡ o)
      × (bit f 7 ≡ false)
      × (low_bits f 3 ≡ b)
first_byte_bits b x y o h = ground arith

-- Decoding the three bytes that the protocol assigns to a packet gives the packet back, and their
-- first byte has the phase bit.
pub decodifica-first_byte :
    (p : Pacchetto)
    → InNine p.dx
    → InNine p.dy
    → p.bottoni < 8
    → (decodifica (first_byte p) (low_byte p.dx) (low_byte p.dy) ≡ p)
      × (bit (first_byte p) 3 ≡ true)
unfolding decodifica
decodifica-first_byte p hx hy hb = ground (
  arith,
  first_byte_bits p.bottoni (is_negative p.dx) (is_negative p.dy) p.overflow hb,
  signed9-low_byte p.dx hx,
  signed9-low_byte p.dy hy,
)
