-- ===== src/OpTests.antt =====
-- c_test/op_tests.c: the tables of operations on `int`s with their expected values, and the test of
-- the control registers. `assert_eq`, which no file declares, and the unit that executes the register
-- instructions are parameters.
mod Tests
use Prim.Native.Nat.{bit_and, bit_or, bit_xor}
use rv32_emulator.Common.{
  ℕ, zero, suc, ◌+◌, ◌-◌, ◌*◌, ◌/◌, ◌%◌, ◌^◌, ◌≤◌, ◌<◌, ◌≡◌, ◌≢◌, refl, ◌∙◌, ap, arith, add32,
  sub32, neg32, u32, Bool, true, false, not, ◌&&◌, ◌||◌, List, [], ◌∷◌, ltb, leb, ◌==◌,
  if◌then◌else◌, is_negative,
}

pub data BinaryOp : Type 0 where
  plus minus times divide remainder xor and or shift_left shift_right : BinaryOp
  logical_and logical_or equal not_equal less greater less_equal greater_equal : BinaryOp

pub data UnaryOp : Type 0 where
  negate complement logical_not : UnaryOp

-- The absolute value of an `int`, and an `int` with a sign.
abs32 : ℕ → ℕ
abs32 a = if is_negative a then neg32 a else a

sign32 : Bool → ℕ → ℕ
sign32 negative a = if negative then neg32 a else a

abbrev to_bit : Bool → ℕ
to_bit b = if b then 1 else 0

differ : Bool → Bool → Bool
differ a b = if a then not b else b

less_int : ℕ → ℕ → Bool
less_int a b = ltb ((a + 2 ^ 31) % 2 ^ 32) ((b + 2 ^ 31) % 2 ^ 32)

-- `x op y` on `int`s: quotients are cut towards zero, the remainder has the sign of `x`, a division
-- by zero is as the target's `div` and `rem` have it, and `>>` keeps the sign.
pub apply_binary : BinaryOp → ℕ → ℕ → ℕ
unfolding abs32 sign32 differ less_int
apply_binary plus x y = add32 x y
apply_binary minus x y = sub32 x y
apply_binary times x y = u32 (x * y)
apply_binary divide x y =
    if y == 0
    then 2 ^ 32 - 1
    else sign32 (differ (is_negative x) (is_negative y)) (abs32 x / abs32 y)
apply_binary remainder x y = if y == 0 then x else sign32 (is_negative x) (abs32 x % abs32 y)
apply_binary xor x y = bit_xor x y
apply_binary and x y = bit_and x y
apply_binary or x y = bit_or x y
apply_binary shift_left x y = u32 (x * 2 ^ (y % 32))
apply_binary shift_right x y =
    if is_negative x then 2 ^ 32 - 1 - (2 ^ 32 - 1 - x) / 2 ^ (y % 32) else x / 2 ^ (y % 32)
apply_binary logical_and x y = to_bit (not (x == 0) && not (y == 0))
apply_binary logical_or x y = to_bit (not (x == 0) || not (y == 0))
apply_binary equal x y = to_bit (x == y)
apply_binary not_equal x y = to_bit (not (x == y))
apply_binary less x y = to_bit (less_int x y)
apply_binary greater x y = to_bit (less_int y x)
apply_binary less_equal x y = to_bit (not (less_int y x))
apply_binary greater_equal x y = to_bit (not (less_int x y))

pub apply_unary : UnaryOp → ℕ → ℕ
apply_unary negate x = neg32 x
apply_unary complement x = 2 ^ 32 - 1 - x
apply_unary logical_not x = to_bit (x == 0)

-- `TEST(op, expected, x, y)` and `TEST_UN(op, expected, x)`
pub data Row : Type 0 where
  test : BinaryOp → (expected x y : ℕ) → Row
  test_un : UnaryOp → (expected x : ℕ) → Row

abbrev pub bin_op_rows : List Row
bin_op_rows =
    test plus 10 5 5
    ∷ test minus 0 5 5
    ∷ test times 25 5 5
    ∷ test divide 2 10 5
    ∷ test remainder 0 5 5
    ∷ test xor 1 5 4
    ∷ test and 4 5 4
    ∷ test or 5 5 4
    ∷ test shift_left 10 5 1
    ∷ test shift_right 2 5 1
    ∷ test logical_and 1 1 1
    ∷ test logical_or 1 1 0
    ∷ test equal 1 1 1
    ∷ test not_equal 1 1 0
    ∷ test less 1 1 2
    ∷ test greater 1 2 1
    ∷ test less_equal 1 1 2
    ∷ test greater_equal 1 2 1
    ∷ []

abbrev pub un_op_rows : List Row
un_op_rows =
    test_un negate (2 ^ 32 - 5) 5 ∷ test_un complement (2 ^ 32 - 6) 5 ∷ test_un logical_not 0 1 ∷ []

module _ (assert_eq : ℕ → ℕ → Bool) where
  -- One row: what the operation gives is handed over with the expected value.
  pub run_row : Row → Bool
  run_row (test op expected x y) = assert_eq (apply_binary op x y) expected
  run_row (test_un op expected x) = assert_eq (apply_unary op x) expected

  -- The rows in order, up to the first that fails.
  pub run_rows : List Row → Bool
  run_rows [] = true
  run_rows (r ∷ rs) = run_row r && run_rows rs

  -- If `assert_eq` accepts equal numbers, all tests of the binary and of the unary operators pass.
  pub op_tests-pass :
      ((a : ℕ) → assert_eq a a ≡ true)
      → (run_rows bin_op_rows ≡ true) × (run_rows un_op_rows ≡ true)
  unfolding run_rows run_row apply_binary apply_unary add32 sub32 neg32
  op_tests-pass accepts = (
    ground (arith, accepts 10, accepts 0, accepts 25, accepts 2, accepts 1, accepts 4, accepts 5),
    ground (arith, accepts 0, accepts (2 ^ 32 - 5), accepts (2 ^ 32 - 6)),
  )

pub data Csr : Type 0 where
  mtvec satp : Csr

pub data CsrOp : Type 0 where
  csrrw csrrs csrrc : CsrOp

-- Bit `k` of a word.
abbrev pub bit : ℕ → ℕ → ℕ
bit zero x = x % 2
bit (suc k) x = bit k (x / 2)

-- What the tests rely on of the register instructions: each gives the old value; on `mtvec`, `csrrw`
-- writes the operands 0 and 5, and `csrrs` of 5 on the value 0 leaves 5; on `satp`, `csrrc` leaves the
-- bits of its operand zero. Nothing is taken of other values, which a register may restrict. An
-- operand that is the register `zero` is the word 0.
pub record CsrUnit : Type 1 where
  pub State : Type 0
  pub value : Csr → State → ℕ
  pub execute : CsrOp → Csr → ℕ → State → ℕ × State
  pub old : (op : CsrOp) (r : Csr) (v : ℕ) (s : State) → (execute op r v s).0 ≡ value r s
  pub write_zero : (s : State) → value mtvec (execute csrrw mtvec 0 s).1 ≡ 0
  pub write_five : (s : State) → value mtvec (execute csrrw mtvec 5 s).1 ≡ 5
  pub set_five : (s : State) → value mtvec s ≡ 0 → value mtvec (execute csrrs mtvec 5 s).1 ≡ 5
  pub clear_bits :
      (v : ℕ) (s : State) (k : ℕ) → bit k v ≡ 1 → bit k (value satp (execute csrrc satp v s).1) ≡ 0

module _ (assert_eq : ℕ → ℕ → Bool) (u : CsrUnit) where
  open u use {State, value, execute, old, write_zero, write_five, set_five, clear_bits}

  -- `TEST_CSR(csr, v, name)`: the value is pushed, and what is popped is handed over with it.
  pub test_csr : CsrOp → ℕ → Csr → State → Bool × State
  test_csr op v r s =
      let s1 = (execute op r v s).1 in let (x, s2) = execute op r 0 s1 in (assert_eq x v, s2)

  pub test_csrs : State → Bool × Bool × Bool
  unfolding test_csr
  test_csrs s =
      let (first, s1) = test_csr csrrw 5 mtvec s in
      let (second, s2) = test_csr csrrs 5 mtvec s1 in
      let (third, s3) = test_csr csrrc 5 satp s2 in (first, second, third)

  -- With an `assert_eq` that accepts equal numbers and no others, the tests of `csrrw` and, behind it,
  -- of `csrrs` on `mtvec` pass. That of `csrrc` fails in every state: it clears the bits of 5 in
  -- `satp` and expects to read 5 back.
  pub test_csrs_lem :
      (s : State)
      → ((a b : ℕ) → assert_eq a b ≡ (a == b))
      → ((test_csrs s).0 ≡ true) × ((test_csrs s).1 ≡ true) × ((test_csrs s).2 ≡ false)
  unfolding test_csrs
  test_csrs_lem s compares =
      let s1 = (execute csrrw mtvec 5 s).1 in
      let s2 = (execute csrrw mtvec 0 s1).1 in
      let s3 = (execute csrrs mtvec 5 s2).1 in
      let s4 = (execute csrrs mtvec 0 s3).1 in
      let s5 = (execute csrrc satp 5 s4).1 in
      (
        rw (old csrrw mtvec 0 s1) (rw (write_five s) (compares 5 5)),
        rw (old csrrs mtvec 0 s3) (rw (set_five s2 (write_zero s1)) (compares 5 5)),
        rw (old csrrc satp 0 s5)
            (compares _ 5 ∙ (let even = clear_bits 5 s4 0 refl in ground (arith, even))),
      )
