-- ===== src/Standard.antt =====
-- c_test/standard.c: `str2int`, `get_string`, and the standard functions that do nothing.
pub mod Calls
pub mod Number
pub mod Decimal
pub mod Line
mod Tests
use rv32_emulator.Common.{
  and_then, ℕ, zero, suc, ◌+◌, ◌-◌, ◌*◌, ◌%◌, ◌^◌, add32, sub32, neg32, u32, Bool, true, false,
  ◌&&◌, List, [], ◌∷◌, Option, none, some, leb, ◌==◌, if◌then◌else◌,
}
use rv32_emulator.Memory.{Bytes}
use rv32_emulator.Alloc.{Machine, free}
use rv32_emulator.Uart.{Poll, is_idle}
use rv32_emulator.Str.{string_new, string_append_char, string_shrink, string_data}

-- `ch - '0'`
unfoldable pub char2int : ℕ → ℕ
char2int ch = sub32 ch b'0'

-- What `str2int` returns: a pointer to its static variable, with the value that it has put there,
-- or NULL, after a message that prints the input from `at` on.
pub data Parsed : Type 0 where
  number : ℕ → Parsed
  rejected : (at : ℕ) → Parsed

-- The loop, with its two variables. `none` says that the fuel did not reach to the terminator.
unfoldable pub parse_loop :
    (fuel input base : ℕ) → (negative : Bool) → (value : ℕ) → Bytes → Option Parsed
unfolding char2int
parse_loop zero input base negative value m = none
parse_loop (suc fuel) input base negative value m =
    let skip = parse_loop fuel (add32 input 1) base true value m in
    let step =
      parse_loop fuel (add32 input 1) base negative
        (add32 (u32 (value * base)) (char2int (m input))) m in
    if m input == 0
    then some (number (if negative then neg32 value else value))
    else if m input == b'-'
    then skip
    else if leb b'0' (m input) && leb (m input) b'9'
    then step
    else some (rejected input)

unfoldable pub str2int : (fuel input base : ℕ) → Bytes → Option Parsed
unfolding parse_loop
str2int fuel input base m = parse_loop fuel input base false 0 m

-- The loop of `get_string` over the polls of the serial port; `none` says that the polls ended in
-- front of a newline, where the program still waits, or that a walk of `malloc` did not end.
pub read_line : (fuel str : ℕ) → List Poll → Machine → Option (List Poll × Machine)
read_line fuel str [] s = none
read_line fuel str (p ∷ ps) s =
    let wait = read_line fuel str ps s in
    let more =
      and_then (string_append_char fuel str p.received s) (λ s'. read_line fuel str ps s') in
    if is_idle p then wait else if p.received == b'\n' then some (ps, s) else more

-- Behind the loop: the object is shrunk, its data are terminated once more, and the object is freed.
unfoldable pub finish_line : (fuel str : ℕ) → Machine → Option (ℕ × Machine)
finish_line fuel str s =
    and_then (string_shrink fuel str s)
      λ s1. and_then (string_data fuel str s1) λ (d, s2). some (d, free str s2)

-- `empty` is the address of the literal "".
unfoldable pub get_string :
    (fuel empty : ℕ) → List Poll → Machine → Option (ℕ × List Poll × Machine)
unfolding read_line
get_string fuel empty ps s = and_then (string_new fuel empty s) λ (str, s1).
    and_then (read_line fuel str ps s1)
      λ (rest, s2). and_then (finish_line fuel str s2) λ (d, s3). some (d, rest, s3)
