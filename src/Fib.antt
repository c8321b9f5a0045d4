-- ===== src/Fib.antt =====
-- c_test/fib.c: three ways to a Fibonacci number, and the loop that asks for its index. An `int` is
-- its bit pattern; the recursions take the depth of calls as fuel, the loops their rounds.
pub mod Agree
pub mod Ends
pub mod Input
pub mod Main
mod Tests
use rv32_emulator.Common.{
  and_then, ℕ, zero, suc, ◌+◌, ◌-◌, ◌%◌, ◌^◌, add32, sub32, is_negative, Bool, true, false, ◌&&◌,
  ◌||◌, not, Option, none, some, List, [], ◌∷◌, ltb, ◌==◌, if◌then◌else◌,
}
use rv32_emulator.Memory.Word.{load32}
use rv32_emulator.Alloc.{Machine, null, free}
use rv32_emulator.Uart.{Poll}
use rv32_emulator.Standard.{Parsed, number, rejected, str2int, get_string}

-- `a < b` and `a <= b` on `int`s: the order of the bit patterns with the sign bit turned over.
unfoldable pub lt_int : ℕ → ℕ → Bool
lt_int a b = ltb ((a + 2 ^ 31) % 2 ^ 32) ((b + 2 ^ 31) % 2 ^ 32)

abbrev pub le_int : ℕ → ℕ → Bool
le_int a b = not (lt_int b a)

pub cursed_fib : (depth n : ℕ) → Option ℕ
cursed_fib zero n = none
cursed_fib (suc depth) n =
    let calls =
      and_then (cursed_fib depth (sub32 n 1))
        λ a. and_then (cursed_fib depth (sub32 n 2)) λ b. some (add32 a b) in
    if lt_int n 1 then some 0 else if lt_int n 2 then some 1 else calls

-- `for (i = 2; i <= n; i++) { c = a + b; a = b; b = c; }`, then `return b`.
pub fast_loop : (rounds i n a b : ℕ) → Option ℕ
fast_loop zero i n a b = none
fast_loop (suc rounds) i n a b =
    let rest = fast_loop rounds (add32 i 1) n b (add32 a b) in if le_int i n then rest else some b

pub fast_fib : (rounds n : ℕ) → Option ℕ
unfolding fast_loop
fast_fib rounds n = if n == 0 then some 0 else fast_loop rounds 2 n 0 1

pub fib : (depth n : ℕ) → Option ℕ
fib zero n = none
fib (suc depth) n =
    let calls =
      and_then (fib depth (sub32 n 1))
        λ a. and_then (fib depth (sub32 n 2)) λ b. some (add32 a b) in
    if n == 0 then some 0 else if n == 1 then some 1 else calls

abbrev pub max_input : ℕ
max_input = 45

-- What `*res` reads: the value that `str2int` stored, or, behind the NULL of a refused input, the
-- word at address 0.
pub read_result : Parsed → Machine → ℕ
read_result (number v) s = v
read_result (rejected at) s = load32 s.bytes null

pub is_null : Parsed → Bool
is_null (number v) = false
is_null (rejected at) = true

-- `!res || input > MAX_INPUT || input < 0`
pub asks_again : Parsed → ℕ → Bool
asks_again r input = is_null r || (lt_int max_input input || is_negative input)

-- The loop of `get_input`: each round reads a line, parses it, frees it and tests the number.
pub get_input : (rounds fuel empty : ℕ) → List Poll → Machine → Option (ℕ × List Poll × Machine)
get_input zero fuel empty ps s = none
get_input (suc rounds) fuel empty ps s = and_then (get_string fuel empty ps s) λ (buffer, rest, s1).
    and_then (str2int fuel buffer 10 s1.bytes) λ r.
      let s2 = free buffer s1 in
      let input = read_result r s2 in
      let again = get_input rounds fuel empty rest s2 in
      if asks_again r input then again else some (input, rest, s2)

-- The three values that `main` prints.
pub run_main : (rounds fuel empty : ℕ) → List Poll → Machine → Option (ℕ × ℕ × ℕ)
unfolding get_input cursed_fib fast_fib fib
run_main rounds fuel empty ps s = and_then (get_input rounds fuel empty ps s) λ (n, rest, s1).
    and_then (fast_fib fuel n)
      λ a. and_then (cursed_fib fuel n) λ b. and_then (fib fuel n) λ c. some (a, b, c)
