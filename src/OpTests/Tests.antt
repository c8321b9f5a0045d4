-- ===== src/OpTests/Tests.antt =====
-- The theorems on the operator and register tests, with a test for equality and a unit of two
-- registers.
use Prim.Native.Nat.{bit_or}
use rv32_emulator.Common.{
  ℕ, zero, suc, ◌+◌, ◌*◌, ◌/◌, ◌%◌, ◌≤◌, ◌≡◌, refl, arith, true, false, ◌==◌, if◌then◌else◌,
}
use rv32_emulator.OpTests.{
  Csr, mtvec, satp, CsrOp, csrrw, csrrs, csrrc, bit, CsrUnit, test_csrs, test_csrs_lem,
}

-- `x` with the lowest bits of `v` cleared, and without the bits behind them.
clear : (width x v : ℕ) → ℕ
clear zero x v = 0
clear (suc width) x v = (if v % 2 == 1 then 0 else x % 2) + 2 * clear width (x / 2) (v / 2)

bit_zero : (k : ℕ) → bit k 0 ≡ 0
bit_zero zero = refl
bit_zero (suc k) = bit_zero k

bit-clear : (width x v k : ℕ) → bit k v ≡ 1 → bit k (clear width x v) ≡ 0
unfolding clear
bit-clear zero x v k h = bit_zero k
bit-clear (suc width) x v zero h = ground (arith, h)
bit-clear (suc width) x v (suc k) h =
    let low = (if v % 2 == 1 then 0 else x % 2) in
    let small : low ≤ 1 = ground arith in
    let half : (low + 2 * clear width (x / 2) (v / 2)) / 2 ≡ clear width (x / 2) (v / 2) =
      omega (arith, small) in
    rw half (bit-clear width (x / 2) (v / 2) k h)

-- The two registers.
abbrev Registers : Type 0
Registers = ℕ × ℕ

abbrev get : Csr → Registers → ℕ
get mtvec s = s.0
get satp s = s.1

abbrev put : Csr → ℕ → Registers → Registers
put mtvec v s = (v, s.1)
put satp v s = (s.0, v)

abbrev written : CsrOp → ℕ → ℕ → ℕ
written csrrw x v = v
written csrrs x v = bit_or x v
written csrrc x v = clear 32 x v

abbrev registers : CsrUnit
registers = record {
  State = Registers;
  value = get;
  execute = λ op r v s. (get r s, put r (written op (get r s) v) s);
  old = λ op r v s. refl;
  write_zero = λ s. refl;
  write_five = λ s. refl;
  set_five = λ s h. rw h refl;
  clear_bits = λ v s k h. bit-clear 32 s.1 v k h;
}

test_csrs_run :
    ((test_csrs (λ a b. a == b) registers (7, 7)).0 ≡ true)
    × ((test_csrs (λ a b. a == b) registers (7, 7)).1 ≡ true)
    × ((test_csrs (λ a b. a == b) registers (7, 7)).2 ≡ false)
test_csrs_run = test_csrs_lem (λ a b. a == b) registers (7, 7) (λ a b. refl)
