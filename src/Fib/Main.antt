-- ===== src/Fib/Main.antt =====
-- `main` of fib.c from the serial port to the three numbers that it prints.
use rv32_emulator.Common.{
  ℕ, zero, suc, ◌+◌, ◌/◌, leb, leb→le, Bool-cases, inl, inr, ◌%◌, ◌^◌, ◌≤◌, ◌<◌, ◌≡◌, ◌≢◌, arith,
  some, false, List, [], ◌∷◌, length, All,
}
use rv32_emulator.Alloc.{Machine, heap_limit, free}
use rv32_emulator.CString.Content.{Holds}
use rv32_emulator.Uart.{Poll}
use rv32_emulator.Str.Room.{Ready, Clear}
use rv32_emulator.Standard.{number}
use rv32_emulator.Standard.Decimal.{decimal, decimal_rounds, str2int-decimal}
use rv32_emulator.Standard.Line.{Brings, get_string-Holds}
use rv32_emulator.Fib.{max_input, is_null, read_result, asks_again, get_input, run_main}
use rv32_emulator.Fib.Agree.{fibonacci, fibonacci-fits, lt_int-eq, fib_agree}

taken : (n : ℕ) → n ≤ max_input → asks_again (number n) n ≡ false
unfolding asks_again is_null
taken n h = ground (arith, lt_int-eq max_input n (omega arith) (omega arith))

one_digit : (rounds n : ℕ) → n ≤ 9 → decimal_rounds (suc rounds) n ≡ (48 + n) ∷ []
unfolding decimal_rounds
one_digit rounds n h = ground arith

two_digits : (n : ℕ) → 9 < n → n ≤ max_input → decimal n ≡ (48 + n / 10) ∷ (48 + n % 10) ∷ []
unfolding decimal_rounds
two_digits zero lo hi = absurd (omega arith)
two_digits (suc n) lo hi =
    let first = one_digit n (suc n / 10) (omega arith) in
    let several : leb (suc n) 9 ≡ false = ground arith in rw several (rw first)

small_decimal : (n : ℕ) → n ≤ max_input → (length (decimal n) ≤ 2) × All (λ c. c ≢ 0) (decimal n)
small_decimal n h = elim (Bool-cases (leb n 9)) [
  | inl one ↦ rw (one_digit n n (leb→le n 9 one)) (omega arith)
  | inr two ↦ rw (two_digits n (ground arith) h) (omega arith)
]

-- `get_input` returns the number whose decimal form arrives, at its first round.
pub get_input-decimal :
    {ps : List Poll} {rest : List Poll} (rounds fuel empty e n : ℕ) (s : Machine)
    → n ≤ max_input
    → 45 ≤ fuel
    → Brings ps (decimal n) rest
    → Ready s e
    → Holds s.bytes empty []
    → Clear empty 0 e
    → e + 130 < heap_limit
    → (t : Machine) × (get_input (suc rounds) (suc (suc fuel)) empty ps s ≡ some (n, rest, t))
unfolding get_input read_result
get_input-decimal {rest} rounds fuel empty e n s small enough brings ready blank clear fits =
    let (short, nonzero) = small_decimal n small in
    let (t, d, line, held) =
      get_string-Holds fuel empty e s brings nonzero ready blank clear (omega arith) in
    let parsed =
      str2int-decimal (suc (suc fuel)) d t.bytes n false (omega arith) (omega arith) held in
    (free d t, rw line (rw parsed (rw (taken n small))))

-- If the polls bring the decimal form of a number of at most 45 and a newline, and the heap, live or
-- not yet in use, has room for a block of some hundred bytes, the program prints the Fibonacci number
-- of that index three times, with no overflow. The first line is enough, and so is fuel for 47 rounds
-- or nested calls.
pub run_main-fibonacci :
    {ps : List Poll} {rest : List Poll} (rounds fuel empty e n : ℕ) (s : Machine)
    → n ≤ max_input
    → 45 ≤ fuel
    → Brings ps (decimal n) rest
    → Ready s e
    → Holds s.bytes empty []
    → Clear empty 0 e
    → e + 130 < heap_limit
    → run_main (suc rounds) (suc (suc fuel)) empty ps s
      ≡ some (fibonacci n, fibonacci n, fibonacci n)
unfolding run_main
run_main-fibonacci {rest} rounds fuel empty e n s small enough brings ready blank clear fits =
    let (t, run) =
      get_input-decimal rounds fuel empty e n s small enough brings ready blank clear fits in
    let (fast, cursed, plain) = fib_agree (suc (suc fuel)) n (omega arith) (omega arith) in
    let exact : fibonacci n % 2 ^ 32 ≡ fibonacci n = omega (arith, fibonacci-fits n small) in
    rw run (rw (fast, cursed, plain) (rw exact))
