-- ===== src/Common/Words.antt =====
-- The widths of the rv32 target (ilp32): an `int`, a `size_t` and a pointer have 32 bits, a `char`
-- is an unsigned byte. A value is a number below the modulus; arithmetic wraps.
use Prim.Native.Nat.{ℕ, ◌+◌, ◌-◌, ◌%◌, ◌^◌, ◌<◌}
use mathlib.Core.Path.{◌≡◌}
use mathlib.Core.Bool.{Bool}
use native.Mathlib.Omega.{arith}
use rv32_emulator.Common.Tests.{ltb}

abbrev pub u32_mod : ℕ
u32_mod = 2 ^ 32

abbrev pub u8 : ℕ → ℕ
u8 n = n % 2 ^ 8

abbrev pub u32 : ℕ → ℕ
u32 n = n % 2 ^ 32

unfoldable pub add32 : ℕ → ℕ → ℕ
add32 a b = (a + b) % 2 ^ 32

unfoldable pub sub32 : ℕ → ℕ → ℕ
sub32 a b = (a + 2 ^ 32 - b) % 2 ^ 32

-- `-x` on a word.
unfoldable pub neg32 : ℕ → ℕ
neg32 a = (2 ^ 32 - a) % 2 ^ 32

-- The sign bit of an `int`.
abbrev pub is_negative : ℕ → Bool
is_negative a = ltb (2 ^ 31 - 1) a

pub add32-eq : (a b : ℕ) → a + b < 2 ^ 32 → add32 a b ≡ a + b
unfolding add32
add32-eq a b h = omega arith
