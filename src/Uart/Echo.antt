-- ===== src/Uart/Echo.antt =====
-- What `echo_out` writes.
use rv32_emulator.Common.{
  ℕ, ◌+◌, ◌≤◌, ◌<◌, ◌≡◌, refl, ◌⊎◌, inl, inr, arith, Bool-cases, List, [], ◌∷◌, map, if◌then◌else◌,
}
use rv32_emulator.Uart.{Poll, is_idle, echo_char, echo}

-- The characters that the polls find, in order.
abbrev pub found : List Poll → List ℕ
found [] = []
found (p ∷ ps) = if is_idle p then found ps else p.received ∷ found ps

-- A small letter becomes the capital with the same place in the alphabet, and any other byte stays:
-- no byte comes out as a small letter.
pub echo_char_lem :
    (c : ℕ)
    → c < 256
    → (((97 ≤ c) × (c ≤ 122) × (echo_char c + 32 ≡ c))
        ⊎ (((c < 97) ⊎ (122 < c)) × (echo_char c ≡ c)))
      × ((echo_char c < 97) ⊎ (122 < echo_char c))
unfolding echo_char
echo_char_lem c h = ground arith

-- A byte in upper case: a small letter gives the capital with the same place in the alphabet, and
-- any other byte gives itself.
abbrev pub IsUpperCase : (from to : ℕ) → Type 0
IsUpperCase c d = ((97 ≤ c) × (c ≤ 122) × (d + 32 ≡ c)) ⊎ (((c < 97) ⊎ (122 < c)) × (d ≡ c))

-- Byte by byte.
abbrev pub AreUpperCase : (from to : List ℕ) → Type 0
AreUpperCase [] [] = Unit {0}
AreUpperCase [] (d ∷ ds) = ⊥
AreUpperCase (c ∷ cs) [] = ⊥
AreUpperCase (c ∷ cs) (d ∷ ds) = IsUpperCase c d × AreUpperCase cs ds

echo_char-IsUpperCase : (c : ℕ) → IsUpperCase c (echo_char c)
unfolding echo_char
echo_char-IsUpperCase c = ground arith

-- The program writes the characters that its polls find in upper case.
pub echo-AreUpperCase : (ps : List Poll) → AreUpperCase (found ps) (echo ps)
unfolding echo
echo-AreUpperCase [] = tt
echo-AreUpperCase (p ∷ ps) = elim (Bool-cases (is_idle p)) [
  | inl idle ↦ rw idle (echo-AreUpperCase ps)
  | inr ready ↦ rw ready (echo_char-IsUpperCase p.received, echo-AreUpperCase ps)
]

-- The program writes one byte for each character that its polls find, in the order in which they
-- arrive, in upper case: idle polls lose and repeat nothing, however many there are.
pub echo-found : (ps : List Poll) → echo ps ≡ map echo_char (found ps)
unfolding echo
echo-found [] = refl
echo-found (p ∷ ps) = elim (Bool-cases (is_idle p)) [
  | inl idle ↦ rw idle (echo-found ps)
  | inr ready ↦ rw ready (rw (echo-found ps))
]
