-- ===== src/Common/Bits.antt =====
-- Single bits of a word: `(x >> k) & 1`, `x | 1 << k` and `x & !(1 << k)`.
use Prim.Native.Nat.{ℕ, zero, suc, ◌+◌, ◌*◌, ◌/◌, ◌%◌, ◌^◌, ◌<◌}
use mathlib.Core.Path.{◌≡◌, refl}
use mathlib.Core.Logic.{◌≢◌}
use mathlib.Core.Bool.{Bool, true, false}
use native.Mathlib.Omega.{arith}
use rv32_emulator.Common.Tests.{◌==◌}

unfoldable pub test_bit : ℕ → ℕ → Bool
test_bit zero x = x % 2 == 1
test_bit (suc k) x = test_bit k (x / 2)

unfoldable pub set_bit : ℕ → ℕ → ℕ
set_bit zero x = x / 2 * 2 + 1
set_bit (suc k) x = set_bit k (x / 2) * 2 + x % 2

unfoldable pub clear_bit : ℕ → ℕ → ℕ
clear_bit zero x = x / 2 * 2
clear_bit (suc k) x = clear_bit k (x / 2) * 2 + x % 2

abbrev HalfOf : (y x : ℕ) → Type 0
HalfOf y x = (y * 2 + x % 2) / 2 ≡ y

half : (y x : ℕ) → HalfOf y x
half y x = omega arith

pub test_bit-set_bit_self : (k x : ℕ) → test_bit k (set_bit k x) ≡ true
unfolding test_bit set_bit
test_bit-set_bit_self zero x = ground arith
test_bit-set_bit_self (suc k) x = rw (half (set_bit k (x / 2)) x) (test_bit-set_bit_self k (x / 2))

pub test_bit-clear_bit_self : (k x : ℕ) → test_bit k (clear_bit k x) ≡ false
unfolding test_bit clear_bit
test_bit-clear_bit_self zero x = ground arith
test_bit-clear_bit_self (suc k) x =
    rw (half (clear_bit k (x / 2)) x) (test_bit-clear_bit_self k (x / 2))

pub test_bit-set_bit_other : (j k x : ℕ) → j ≢ k → test_bit j (set_bit k x) ≡ test_bit j x
unfolding test_bit set_bit
test_bit-set_bit_other zero zero x ne = absurd (ne refl)
test_bit-set_bit_other zero (suc k) x ne = ground arith
test_bit-set_bit_other (suc j) zero x ne = let e : (x / 2 * 2 + 1) / 2 ≡ x / 2 = omega arith in rw e
test_bit-set_bit_other (suc j) (suc k) x ne =
    rw (half (set_bit k (x / 2)) x) (test_bit-set_bit_other j k (x / 2) (omega arith))

pub test_bit-clear_bit_other : (j k x : ℕ) → j ≢ k → test_bit j (clear_bit k x) ≡ test_bit j x
unfolding test_bit clear_bit
test_bit-clear_bit_other zero zero x ne = absurd (ne refl)
test_bit-clear_bit_other zero (suc k) x ne = ground arith
test_bit-clear_bit_other (suc j) zero x ne = let e : x / 2 * 2 / 2 ≡ x / 2 = omega arith in rw e
test_bit-clear_bit_other (suc j) (suc k) x ne =
    rw (half (clear_bit k (x / 2)) x) (test_bit-clear_bit_other j k (x / 2) (omega arith))

-- Both keep a word of `w` bits below its bound.
pub set_bit-lt : (w k x : ℕ) → k < w → x < 2 ^ w → set_bit k x < 2 ^ w
unfolding set_bit
set_bit-lt zero k x lt small = absurd (omega arith)
set_bit-lt (suc w) zero x lt small = let e : 2 ^ suc w ≡ 2 ^ w * 2 = omega arith in omega arith
set_bit-lt (suc w) (suc k) x lt small =
    let e : 2 ^ suc w ≡ 2 ^ w * 2 = omega arith in
    omega (arith, set_bit-lt w k (x / 2) (omega arith) (omega arith))

pub test_bit-zero : (x : ℕ) → test_bit 0 x ≡ (x % 2 == 1)
unfolding test_bit
test_bit-zero x = refl
