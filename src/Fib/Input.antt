-- ===== src/Fib/Input.antt =====
-- `get_input` keeps the numbers in range.
use rv32_emulator.Common.{
  ℕ, zero, suc, ◌-◌, ◌^◌, ◌≤◌, ◌<◌, ◌≡◌, refl, ◌∙◌, ap, inl, inr, arith, add32, neg32, u32, ◌*◌,
  and_then-some, Bool, true, false, Bool-cases, some, List, ltb,
}
use rv32_emulator.Alloc.{Machine, free}
use rv32_emulator.Uart.{Poll}
use rv32_emulator.Memory.{Bytes}
use rv32_emulator.Standard.{Parsed, number, rejected, char2int, parse_loop, str2int, get_string}
use rv32_emulator.Fib.{is_null, max_input, read_result, asks_again, get_input}
use rv32_emulator.Fib.Agree.{lt_int-eq}

asks_again-le :
    (r : Parsed) (input : ℕ) → input < 2 ^ 32 → asks_again r input ≡ false → input ≤ max_input
unfolding asks_again
asks_again-le r input word h = elim (Bool-cases (ltb (2 ^ 31 - 1) input)) [
  | inl neg ↦ ground (arith, neg)
  | inr pos ↦ ground (arith, lt_int-eq max_input input (omega arith) (ground arith))
]

parse_loop-lt :
    (fuel p base : ℕ) (neg : Bool) (v : ℕ) (m : Bytes) (r : ℕ)
    → v < 2 ^ 32
    → parse_loop fuel p base neg v m ≡ some (number r)
    → r < 2 ^ 32
unfolding parse_loop
parse_loop-lt zero p base neg v m r small run = cc
parse_loop-lt (suc fuel) p base neg v m r small run =
    let step = add32 (u32 (v * base)) (char2int (m p)) in
    let word : step < 2 ^ 32 = unfold add32 in omega arith in
    let flipped : neg32 v < 2 ^ 32 = unfold neg32 in omega arith in
    ground (
      arith,
      parse_loop-lt fuel (add32 p 1) base true v m r small,
      parse_loop-lt fuel (add32 p 1) base neg step m r word,
    )

asked :
    (r : Parsed) (s : Machine)
    → asks_again r (read_result r s) ≡ false
    → ((v : ℕ) → r ≡ number v → v < 2 ^ 32)
    → read_result r s ≤ max_input
unfolding read_result is_null
asked (number v) s h word = asks_again-le (number v) v (word v refl) h
asked (rejected at) s h word = unfold asks_again in cc

-- A number that `get_input` returns is at most 45, and so not negative, whatever the polls bring and
-- whatever the machine's memory holds at address 0.
pub get_input-le :
    (rounds fuel empty : ℕ) (ps : List Poll) (s : Machine) {n : ℕ} {rest : List Poll} {t : Machine}
    → get_input rounds fuel empty ps s ≡ some (n, rest, t)
    → n ≤ max_input
unfolding get_input
get_input-le zero fuel empty ps s run = cc
get_input-le (suc rounds) fuel empty ps s run =
    let ((buffer, rest, s1), line, run1) = and_then-some (get_string fuel empty ps s) _ run in
    let (r, parsed, run2) = and_then-some (str2int fuel buffer 10 s1.bytes) _ run1 in
    let s2 = free buffer s1 in
    let word : (v : ℕ) → r ≡ number v → v < 2 ^ 32 = λ v e.
      parse_loop-lt fuel buffer 10 false 0 s1.bytes v (omega arith)
        (unfold str2int in parsed ∙ ap some e) in
    elim (Bool-cases (asks_again r (read_result r s2))) [
      | inl again ↦ get_input-le rounds fuel empty rest s2 (rw again at run2)
      | inr taken ↦
          let bound = asked r s2 taken word in let found = rw taken at run2 in ground (arith, found)
    ]
