-- ===== src/Common/Bits.antt =====
-- The bit tests of `IntFlag` values. `bit_and` and `bit_or` are Python's `&` and `|`.
use Prim.Native.Nat.{ℕ, ◌-◌, bit_and}
use mathlib.Core.Bool.{Bool, not}
use nnrp_py.Common.Tests.{◌==◌}

-- `x & ~mask`
abbrev pub bits_outside : ℕ → ℕ → ℕ
bits_outside x mask = x - bit_and x mask

-- `bool(x & flag)`
abbrev pub has_bit : ℕ → ℕ → Bool
has_bit x flag = not (bit_and x flag == 0)
