-- ===== src/Emulator/Command/Line.antt =====
-- What a user types in the step mode, and the command that it is.
use rv32_emulator.Common.{
  ℕ, ◌+◌, ◌-◌, ◌*◌, ◌^◌, ◌<◌, ◌≤◌, ◌≡◌, refl, ap, arith, true, false, some, List, [], ◌∷◌, ◌++◌,
  map, ltb, ◌==◌, if◌then◌else◌,
}
use rv32_emulator.Devices.{done}
use rv32_emulator.Emulator.Command.{
  is_whitespace, word, next_part, to_digit, parse_digits, from_hex, address, trim, show,
  continue_to, command,
}

-- The line that a user types for an address, which has the digits of `ds`, the first the highest.
abbrev pub digit_char : ℕ → ℕ
digit_char d = if ltb d 10 then b'0' + d else b'a' + (d - 10)

abbrev pub value_of : List ℕ → (acc : ℕ) → ℕ
value_of [] acc = acc
value_of (d ∷ ds) acc = value_of ds (acc * 16 + d)

abbrev pub AreDigits : List ℕ → Type 0
AreDigits [] = Unit {0}
AreDigits (d ∷ ds) = (d < 16) × AreDigits ds

value_of-grows : (ds : List ℕ) (acc : ℕ) → acc ≤ value_of ds acc
value_of-grows [] acc = omega arith
value_of-grows (d ∷ ds) acc = let ih = value_of-grows ds (acc * 16 + d) in omega (arith, ih)

to_digit-char : (d : ℕ) → d < 16 → to_digit (digit_char d) ≡ some d
unfolding to_digit
to_digit-char d lt = ground arith

digit-plain : (d : ℕ) → d < 16 → is_whitespace (digit_char d) ≡ false
digit-plain d lt = ground arith

digit-not_plus : (d : ℕ) → d < 16 → (digit_char d == b'+') ≡ false
digit-not_plus d lt = ground arith

parse_digits-map :
    (ds : List ℕ) (acc : ℕ)
    → AreDigits ds
    → value_of ds acc < 2 ^ 32
    → parse_digits (map digit_char ds) acc ≡ some (value_of ds acc)
unfolding parse_digits
parse_digits-map [] acc are small = refl
parse_digits-map (d ∷ ds) acc (lt, are) small =
    let grows = value_of-grows ds (acc * 16 + d) in
    let fits : ltb (acc * 16 + d) (2 ^ 32) ≡ true = ground (arith, grows, small) in
    rw (parse_digits, to_digit-char d lt) (rw fits (parse_digits-map ds (acc * 16 + d) are small))

word-map : (ds : List ℕ) → AreDigits ds → word (map digit_char ds ++ 10 ∷ []) ≡ map digit_char ds
word-map [] are = refl
word-map (d ∷ ds) (lt, are) = rw (digit-plain d lt) (rw (word-map ds are) refl)

from_hex-map :
    (d : ℕ) (ds : List ℕ)
    → AreDigits (d ∷ ds)
    → value_of (d ∷ ds) 0 < 2 ^ 32
    → from_hex (map digit_char (d ∷ ds)) ≡ some (value_of (d ∷ ds) 0)
unfolding from_hex
from_hex-map d [] (lt, are) small =
    rw (digit-not_plus d lt) (parse_digits-map (d ∷ []) 0 (lt, are) small)
from_hex-map d (d' ∷ ds) (lt, are) small =
    rw (digit-not_plus d lt) (parse_digits-map (d ∷ d' ∷ ds) 0 (lt, are) small)

abbrev pub exit_line : List ℕ
exit_line = b'e' ∷ b'x' ∷ b'i' ∷ b't' ∷ 10 ∷ []

-- The lines "con " and "show " with an address.
abbrev pub con_line : List ℕ → List ℕ
con_line ds = b'c' ∷ b'o' ∷ b'n' ∷ b' ' ∷ (map digit_char ds ++ 10 ∷ [])

abbrev pub show_line : List ℕ → List ℕ
show_line ds = b's' ∷ b'h' ∷ b'o' ∷ b'w' ∷ b' ' ∷ (map digit_char ds ++ 10 ∷ [])

part-line :
    (d : ℕ) (ds : List ℕ)
    → AreDigits (d ∷ ds)
    → (next_part (b' ' ∷ (map digit_char (d ∷ ds) ++ 10 ∷ []))).0 ≡ some (map digit_char (d ∷ ds))
unfolding next_part
part-line d ds (lt, are) =
    rw (digit-plain d lt)
      (rw (digit-plain d lt) (ap (λ (w : List ℕ). some (digit_char d ∷ w)) (word-map ds are)))

address-line :
    (first : List ℕ) (d : ℕ) (ds : List ℕ)
    → AreDigits (d ∷ ds)
    → value_of (d ∷ ds) 0 < 2 ^ 32
    → (next_part first).1 ≡ b' ' ∷ (map digit_char (d ∷ ds) ++ 10 ∷ [])
    → address first ≡ done (value_of (d ∷ ds) 0)
unfolding address
address-line first d ds are small left =
    rw (left, part-line d ds are) (rw (from_hex-map d ds are small) refl)

-- At least one hexadecimal digit of a number below 2 ^ 32 behind "con " or "show ", with the end of
-- the line: the command has that number as its address.
pub command-lines :
    (d : ℕ) (ds : List ℕ)
    → AreDigits (d ∷ ds)
    → value_of (d ∷ ds) 0 < 2 ^ 32
    → (command (con_line (d ∷ ds)) ≡ done (continue_to (value_of (d ∷ ds) 0)))
      × (command (show_line (d ∷ ds)) ≡ done (show (value_of (d ∷ ds) 0)))
unfolding command trim next_part
command-lines d ds are small = (
  rw (address-line (con_line (d ∷ ds)) d ds are small refl) refl,
  rw (address-line (show_line (d ∷ ds)) d ds are small refl) refl,
)
