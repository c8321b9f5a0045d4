-- ===== src/Emulator/Command.antt =====
-- The lines that the step mode of src/main.rs reads, as lists of code points.
pub mod Line
use rv32_emulator.Common.{
  ℕ, ◌+◌, ◌-◌, ◌*◌, ◌^◌, ◌<◌, ◌≤◌, ◌≡◌, refl, ap, arith, Bool, true, false, ◌&&◌, ◌||◌, Option,
  none, some, List, [], ◌∷◌, ◌++◌, map, ltb, ◌==◌, if◌then◌else◌,
}
use rv32_emulator.Devices.{Outcome, done, and_done, in_range}
use rv32_emulator.Devices.Virtio.Disk.{or_panic}

-- `char::is_whitespace`
abbrev pub is_whitespace : ℕ → Bool
is_whitespace c =
    in_range 9 13 c
    || c == 32
    || c == 0x85
    || c == 0xa0
    || c == 0x1680
    || in_range 0x2000 0x200a c
    || in_range 0x2028 0x2029 c
    || c == 0x202f
    || c == 0x205f
    || c == 0x3000

abbrev is_empty : List ℕ → Bool
is_empty [] = true
is_empty (x ∷ xs) = false

abbrev equal : List ℕ → List ℕ → Bool
equal [] [] = true
equal [] (y ∷ ys) = false
equal (x ∷ xs) [] = false
equal (x ∷ xs) (y ∷ ys) = x == y && equal xs ys

abbrev starts_with : (prefix : List ℕ) → List ℕ → Bool
starts_with [] ys = true
starts_with (x ∷ xs) [] = false
starts_with (x ∷ xs) (y ∷ ys) = x == y && starts_with xs ys

abbrev trim_start : List ℕ → List ℕ
trim_start [] = []
trim_start (x ∷ xs) = let rest = trim_start xs in if is_whitespace x then rest else x ∷ xs

abbrev trim_end : List ℕ → List ℕ
trim_end [] = []
trim_end (x ∷ xs) =
    let rest = trim_end xs in if is_whitespace x && is_empty rest then [] else x ∷ rest

unfoldable pub trim : List ℕ → List ℕ
trim xs = trim_end (trim_start xs)

-- The two parts of a text at its first whitespace.
abbrev word : List ℕ → List ℕ
word [] = []
word (x ∷ xs) = let rest = word xs in if is_whitespace x then [] else x ∷ rest

abbrev behind_word : List ℕ → List ℕ
behind_word [] = []
behind_word (x ∷ xs) = let rest = behind_word xs in if is_whitespace x then x ∷ xs else rest

-- `next` of `split_whitespace`: the word, and what is left of the text.
unfoldable pub next_part : List ℕ → Option (List ℕ) × List ℕ
next_part xs =
    let ys = trim_start xs in (if is_empty ys then none else some (word ys), behind_word ys)

unfoldable pub to_digit : ℕ → Option ℕ
to_digit c =
    if in_range b'0' b'9' c
    then some (c - b'0')
    else if in_range b'a' b'f' c
    then some (c - b'a' + 10)
    else if in_range b'A' b'F' c
    then some (c - b'A' + 10)
    else none

-- The digits behind those whose value is `acc`, with the tests of overflow.
unfoldable pub parse_digits : List ℕ → (acc : ℕ) → Option ℕ
unfolding to_digit
parse_digits [] acc = some acc
parse_digits (c ∷ cs) acc = elim (to_digit c) [
  | none ↦ none
  | some d ↦
      let rest = parse_digits cs (acc * 16 + d) in
      if ltb (acc * 16 + d) (2 ^ 32) then rest else none
]

-- `u32::from_str_radix(text, 16)`
unfoldable pub from_hex : List ℕ → Option ℕ
unfolding parse_digits
from_hex [] = none
from_hex (c ∷ []) = if c == b'+' then none else parse_digits (c ∷ []) 0
from_hex (c ∷ c' ∷ cs) =
    if c == b'+' then parse_digits (c' ∷ cs) 0 else parse_digits (c ∷ c' ∷ cs) 0

-- The second word of the line, as an address.
unfoldable pub address : List ℕ → Outcome ℕ
unfolding next_part from_hex
address input =
    and_done (or_panic (next_part (next_part input).1).0) λ part. or_panic (from_hex part)

pub data Command : Type 0 where
  exit dump nothing : Command
  show : ℕ → Command
  continue_to : ℕ → Command

-- The tests of the line, in order.
unfoldable pub command : List ℕ → Outcome Command
unfolding trim address
command input =
    if equal (trim input) (b'e' ∷ b'x' ∷ b'i' ∷ b't' ∷ [])
    then done exit
    else if equal (trim input) (b'd' ∷ b'u' ∷ b'm' ∷ b'p' ∷ [])
    then done dump
    else if starts_with (b's' ∷ b'h' ∷ b'o' ∷ b'w' ∷ []) input
    then and_done (address input) (λ a. done (show a))
    else if starts_with (b'c' ∷ b'o' ∷ b'n' ∷ []) input
    then and_done (address input) (λ a. done (continue_to a))
    else done nothing
