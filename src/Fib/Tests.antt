-- ===== src/Fib/Tests.antt =====
-- Runs of the Fibonacci program, and the theorems at them.
use rv32_emulator.Common.{
  ℕ, ◌-◌, ◌^◌, ◌%◌, ◌≡◌, ◌≢◌, ◌⊎◌, refl, inr, arith, some, none, List, [], ◌∷◌,
}
use rv32_emulator.Alloc.{Machine, heap_start}
use rv32_emulator.Alloc.Samples.{fresh, fresh-IsFresh}
use rv32_emulator.Uart.{Poll}
use rv32_emulator.Standard.Decimal.{decimal, decimal_rounds}
use rv32_emulator.Standard.Line.{Brings, idle, char, newline}
use rv32_emulator.Fib.{fast_fib, cursed_fib, fib, get_input, run_main}
use rv32_emulator.Fib.Agree.{fibonacci, fib_agree}
use rv32_emulator.Fib.Ends.{fast_fib-ends}
use rv32_emulator.Fib.Main.{get_input-decimal, run_main-fibonacci}

abbrev key : ℕ → Poll
key c = record { status = 1; received = c }

-- "10" and a newline, after an idle poll.
abbrev ten : List Poll
ten = record { status = 0; received = 0 } ∷ key b'1' ∷ key b'0' ∷ key b'\n' ∷ []

ten-Brings : Brings ten (decimal 10) []
unfolding decimal_rounds
ten-Brings =
    idle refl (char refl refl (omega arith) (char refl refl (omega arith) (newline refl refl)))

fib_agree_example :
    (fast_fib 21 20 ≡ some (fibonacci 20 % 2 ^ 32))
    × (cursed_fib 21 20 ≡ some (fibonacci 20 % 2 ^ 32))
    × (fib 21 20 ≡ some (fibonacci 20 % 2 ^ 32))
fib_agree_example = fib_agree 21 20 (omega arith) (omega arith)

fast_fib-ends_example :
    ((2 ^ 31 - 1 ≢ 2 ^ 31 - 1) × ((v : ℕ) × (fast_fib (2 ^ 31) (2 ^ 31 - 1) ≡ some v)))
    ⊎ ((2 ^ 31 - 1 ≡ 2 ^ 31 - 1) × ((more : ℕ) → fast_fib more (2 ^ 31 - 1) ≡ none))
fast_fib-ends_example = fast_fib-ends (2 ^ 31) (2 ^ 31 - 1) (omega arith) (omega arith)

run_main-fibonacci_example :
    run_main 1 47 100 ten fresh ≡ some (fibonacci 10, fibonacci 10, fibonacci 10)
run_main-fibonacci_example =
    run_main-fibonacci 0 45 100 heap_start 10 fresh (omega arith) (omega arith) ten-Brings
      (inr (fresh-IsFresh, refl)) (omega arith) (omega arith) (omega arith)

ten-taken : (t : Machine) × (get_input 1 47 100 ten fresh ≡ some (10, [], t))
ten-taken =
    get_input-decimal 0 45 100 heap_start 10 fresh (omega arith) (omega arith) ten-Brings
      (inr (fresh-IsFresh, refl)) (omega arith) (omega arith) (omega arith)
