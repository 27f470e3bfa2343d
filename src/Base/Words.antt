-- ===== src/Base/Words.antt =====
-- Machine words as native numbers: a w-bit value is below 2 ^ w and wraps by `%`.
use Prim.Native.Nat.{ℕ, zero, suc, ◌/◌, ◌%◌, ◌^◌, ◌<◌}
use mathlib.Core.Path.{◌≡◌}
use mathlib.Core.Bool.{Bool, true, ◌&&◌}
use native.Mathlib.Omega.{arith}
use nova_exo.Base.Tests.{◌==◌}

-- The casts `as u16` and `as u8`, then those of the wider types.
abbrev pub u16 : ℕ → ℕ
u16 x = x % 65536

abbrev pub u8 : ℕ → ℕ
u8 x = x % 256

abbrev pub u64 : ℕ → ℕ
u64 x = x % 18446744073709551616

abbrev pub u32 : ℕ → ℕ
u32 x = x % 4294967296

-- `x >> k`
abbrev pub shr : ℕ → ℕ → ℕ
shr x k = x / 2 ^ k

-- `x & (2^k - 1)`
abbrev pub low_bits : ℕ → ℕ → ℕ
low_bits x k = x % 2 ^ k

-- `x & (1 << k) != 0`
abbrev pub bit : ℕ → ℕ → Bool
bit x k = x / 2 ^ k % 2 == 1

-- Does `q` hold of every number below `bound`? It is run on the values of a small type.
unfoldable pub holds_below : (ℕ → Bool) → ℕ → Bool
holds_below q zero = true
holds_below q (suc k) = holds_below q k && q k

pub holds_below_at :
    (q : ℕ → Bool) (bound v : ℕ) → v < bound → holds_below q bound ≡ true → q v ≡ true
unfolding holds_below
holds_below_at q zero v small h = absurd (omega arith)
holds_below_at q (suc k) v small h = ground (arith, holds_below_at q k v)
