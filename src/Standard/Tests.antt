-- ===== src/Standard/Tests.antt =====
-- The theorems on input at short lines and strings.
use rv32_emulator.Common.{ℕ, ◌-◌, ◌^◌, ◌≡◌, refl, inr, arith, true, some, List, [], ◌∷◌, neg32}
use rv32_emulator.Memory.{store8}
use rv32_emulator.Memory.Samples.{blank, place}
use rv32_emulator.Alloc.{Machine, heap_start}
use rv32_emulator.Alloc.Samples.{fresh, fresh-IsFresh}
use rv32_emulator.CString.Content.{Holds}
use rv32_emulator.Uart.{Poll}
use rv32_emulator.Memory.{Bytes}
use rv32_emulator.Standard.{number, str2int, get_string}
use rv32_emulator.Standard.Decimal.{decimal_rounds, str2int-decimal}
use rv32_emulator.Standard.Number.{str2int-number}
use rv32_emulator.Standard.Line.{Brings, idle, char, newline, get_string-Holds}

abbrev key : ℕ → Poll
key c = record { status = 1; received = c }

-- "ok" and a newline, with an idle poll between, and a further key.
abbrev polls : List Poll
polls = key b'o' ∷ record { status = 2; received = 0 } ∷ key b'k' ∷ key b'\n' ∷ key b'x' ∷ []

polls-Brings : Brings polls (b'o' ∷ b'k' ∷ []) (key b'x' ∷ [])
polls-Brings =
    char refl refl (omega arith) (idle refl (char refl refl (omega arith) (newline refl refl)))

get_string-Holds_example :
    (t : Machine) × (d : ℕ) × (get_string 2 100 polls fresh ≡ some (d, key b'x' ∷ [], t))
    × Holds t.bytes d (b'o' ∷ b'k' ∷ [])
get_string-Holds_example =
    get_string-Holds 0 100 heap_start fresh polls-Brings (omega arith) (inr (fresh-IsFresh, refl))
      (omega arith) (omega arith) (omega arith)

-- "4-2", "7x" and "-12".
abbrev inputs : Bytes
inputs =
    place (b'-' ∷ b'1' ∷ b'2' ∷ []) 120
      (place (b'7' ∷ b'x' ∷ []) 110 (place (b'4' ∷ b'-' ∷ b'2' ∷ []) 100 blank))

str2int-number_example : str2int 4 100 10 inputs ≡ some (number (2 ^ 32 - 42))
unfolding store8 neg32
str2int-number_example =
    str2int-number 4 100 10 inputs (b'4' ∷ b'-' ∷ b'2' ∷ []) (omega arith) (omega arith)
      (refl, (refl, (refl, tt)))

str2int-decimal_example : str2int 4 120 10 inputs ≡ some (number (neg32 12))
unfolding store8 decimal_rounds
str2int-decimal_example =
    str2int-decimal 4 120 inputs 12 true (omega arith) (omega arith) (omega arith)
