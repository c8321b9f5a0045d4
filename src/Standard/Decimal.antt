-- ===== src/Standard/Decimal.antt =====
-- `str2int` reads back the decimal form of a number.
use rv32_emulator.Common.{
  ℕ, zero, suc, ◌+◌, ◌-◌, ◌*◌, ◌/◌, ◌%◌, ◌^◌, ◌<◌, ◌≡◌, refl, ◌∙◌, inl, inr, arith, neg32, Bool,
  true, false, Bool-cases, some, leb, List, [], ◌∷◌, ◌++◌, length, All, ◌==◌, if◌then◌else◌,
}
use rv32_emulator.Memory.{Bytes}
use rv32_emulator.CString.Content.{Holds}
use rv32_emulator.Standard.{number, str2int}
use rv32_emulator.Standard.Number.{accepted, signed, digits_value, str2int-number}

-- The decimal form of a number, its first digit first; `n + 1` rounds are enough.
unfoldable pub decimal_rounds : (rounds n : ℕ) → List ℕ
decimal_rounds zero n = []
decimal_rounds (suc rounds) n =
    let more = decimal_rounds rounds (n / 10) ++ (48 + n % 10) ∷ [] in
    if leb n 9 then (48 + n) ∷ [] else more

abbrev pub decimal : ℕ → List ℕ
decimal n = decimal_rounds (suc n) n

digits_value-snoc :
    (base v d : ℕ) (cs : List ℕ)
    → (d == b'-') ≡ false
    → digits_value base v (cs ++ d ∷ []) ≡ digits_value base v cs * base + (d - 48)
digits_value-snoc base v d [] plain = rw plain
digits_value-snoc base v d (c ∷ cs) plain =
    digits_value-snoc base (if c == b'-' then v else v * base + (c - b'0')) d cs plain

pub decimal_lem :
    (rounds n : ℕ)
    → n < rounds
    → (digits_value 10 0 (decimal_rounds rounds n) ≡ n)
      × All (λ c. accepted c ≡ true) (decimal_rounds rounds n)
      × (signed (decimal_rounds rounds n) ≡ false)
unfolding decimal_rounds
decimal_lem zero n h = elim h [ ]
decimal_lem (suc rounds) n h = elim (Bool-cases (leb n 9)) [
  | inl one ↦ rw one (ground arith, (ground arith, tt), ground arith)
  | inr several ↦
      let (value, good, plain) = decimal_lem rounds (n / 10) (ground arith) in
      rw several (
        rw (digits_value-snoc 10 0 (48 + n % 10) (decimal_rounds rounds (n / 10)) (ground arith))
            (rw value (omega arith)),
        All-snoc (decimal_rounds rounds (n / 10)) (48 + n % 10) good (ground arith),
        signed-snoc (decimal_rounds rounds (n / 10)) (48 + n % 10) plain (ground arith),
      )
]
  where
    All-snoc :
        (cs : List ℕ) (d : ℕ)
        → All (λ c. accepted c ≡ true) cs
        → accepted d ≡ true
        → All (λ c. accepted c ≡ true) (cs ++ d ∷ [])
    All-snoc [] d a e = (e, tt)
    All-snoc (c ∷ cs) d a e = (a.0, All-snoc cs d a.1 e)

    signed-snoc :
        (cs : List ℕ) (d : ℕ)
        → signed cs ≡ false
        → (d == b'-') ≡ false
        → signed (cs ++ d ∷ []) ≡ false
    signed-snoc [] d a e = rw e
    signed-snoc (c ∷ cs) d a e = elim (Bool-cases (c == b'-')) [
      | inl minus ↦ rw minus (rw minus at a)
      | inr other ↦ rw other (signed-snoc cs d (rw other at a) e)
    ]

-- `str2int` reads back the decimal form of each number below 2 ^ 32, and, behind a minus sign, gives
-- its negative as an `int`. Fuel for two rounds more than the digits is enough.
pub str2int-decimal :
    (fuel input : ℕ) (m : Bytes) (n : ℕ) (negative : Bool)
    → n < 2 ^ 32
    → length (decimal n) + 1 < fuel
    → Holds m input (if negative then b'-' ∷ decimal n else decimal n)
    → str2int fuel input 10 m ≡ some (number (if negative then neg32 n else n))
str2int-decimal fuel input m n false small enough h =
    let (value, good, plain) = decimal_lem (suc n) n (omega arith) in
    let word : n % 2 ^ 32 ≡ n = omega arith in
    str2int-number fuel input 10 m (decimal n) (omega arith) h good ∙ rw (plain, value) (rw word)
str2int-decimal fuel input m n true small enough h =
    let (value, good, plain) = decimal_lem (suc n) n (omega arith) in
    let word : n % 2 ^ 32 ≡ n = omega arith in
    str2int-number fuel input 10 m (b'-' ∷ decimal n) (omega arith) h (refl, good)
    ∙ rw value (rw word)
