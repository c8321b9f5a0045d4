-- ===== src/Standard/Number.antt =====
-- What `str2int` makes of a string.
use rv32_emulator.Common.{
  ℕ, zero, suc, ◌+◌, ◌-◌, ◌*◌, ◌/◌, ◌%◌, ◌^◌, ◌≤◌, ◌<◌, ◌≡◌, refl, ◌∙◌, sym, ap, inl, inr, arith,
  add32, sub32, neg32, add32-eq, u32, Bool, true, false, ◌&&◌, ◌||◌, Bool-cases, some, leb, List,
  [], ◌∷◌, ◌++◌, length, All, ◌==◌, if◌then◌else◌,
}
use rv32_emulator.Memory.{Bytes}
use rv32_emulator.CString.Content.{Holds}
use rv32_emulator.Standard.{number, rejected, parse_loop, str2int}

abbrev pub is_digit : ℕ → Bool
is_digit c = leb b'0' c && leb c b'9'

abbrev pub accepted : ℕ → Bool
accepted c = c == b'-' || is_digit c

-- Whether there is a minus sign, wherever it stands.
abbrev pub signed : List ℕ → Bool
signed [] = false
signed (c ∷ cs) = c == b'-' || signed cs

-- The value of the digits behind `value`, minus signs left out, with no bound on its size.
abbrev pub digits_value : (base value : ℕ) → List ℕ → ℕ
digits_value base value [] = value
digits_value base value (c ∷ cs) =
    digits_value base (if c == b'-' then value else value * base + (c - b'0')) cs

mul_mod :
    (v w base c : ℕ) → v % 2 ^ 32 ≡ w % 2 ^ 32 → (v * base + c) % 2 ^ 32 ≡ (w * base + c) % 2 ^ 32
mul_mod v w base c h =
    let qv = v / 2 ^ 32 in
    let qw = w / 2 ^ 32 in
    let r = v % 2 ^ 32 in
    let ev : v ≡ qv * 2 ^ 32 + r = omega arith in
    let ew : w ≡ qw * 2 ^ 32 + r = omega arith in
    let split : (q : ℕ) → ((q * 2 ^ 32 + r) * base + c) % 2 ^ 32 ≡ (r * base + c) % 2 ^ 32 =
      λ q. omega arith in
    ap (λ (x : ℕ). (x * base + c) % 2 ^ 32) ev
    ∙ split qv
    ∙ sym (split qw)
    ∙ ap (λ (x : ℕ). (x * base + c) % 2 ^ 32) (sym ew)

value_mod :
    (base v w : ℕ) (cs : List ℕ)
    → v % 2 ^ 32 ≡ w % 2 ^ 32
    → digits_value base v cs % 2 ^ 32 ≡ digits_value base w cs % 2 ^ 32
value_mod base v w [] h = h
value_mod base v w (c ∷ cs) h = elim (Bool-cases (c == b'-')) [
  | inl minus ↦ rw minus (value_mod base v w cs h)
  | inr digit ↦ rw digit (
      value_mod base (v * base + (c - b'0')) (w * base + (c - b'0')) cs
        (mul_mod v w base (c - b'0') h))
]

-- One digit of the loop, by the digits' value.
digit_step :
    (value base c : ℕ)
    → 48 ≤ c
    → c ≤ 57
    → add32 (u32 (value * base)) (sub32 c 48) ≡ (value * base + (c - 48)) % 2 ^ 32
unfolding add32 sub32
digit_step value base c lo hi = omega arith

parse_loop-number :
    (fuel p base : ℕ) (neg : Bool) (v w : ℕ) (m : Bytes) (cs : List ℕ)
    → length cs < fuel
    → Holds m p cs
    → All (λ c. accepted c ≡ true) cs
    → v % 2 ^ 32 ≡ w % 2 ^ 32
    → v < 2 ^ 32
    → parse_loop fuel p base neg v m
      ≡ some (
          number (
            if neg || signed cs
            then neg32 (digits_value base w cs % 2 ^ 32)
            else digits_value base w cs % 2 ^ 32))
unfolding parse_loop
parse_loop-number zero p base neg v w m cs enough h ok same small = elim enough [ ]
parse_loop-number (suc fuel) p base neg v w m [] enough h ok same small =
    let e : v ≡ w % 2 ^ 32 = omega arith in rw e (ground arith)
parse_loop-number (suc fuel) p base neg v w m (c ∷ cs) enough h ok same small =
    rw (add32-eq p 1 h.2) (elim (Bool-cases (c == b'-')) [
      | inl minus ↦ ground (
        arith,
        minus,
        parse_loop-number fuel (p + 1) base true v w m cs (omega arith) h.3 ok.1 same small,
      )
      | inr plain ↦
          let lo : 48 ≤ c = ground (arith, ok.0) in
          let hi : c ≤ 57 = ground (arith, ok.0) in
          let v' = (v * base + (c - 48)) % 2 ^ 32 in
          let rest =
            parse_loop-number fuel (p + 1) base neg v' (w * base + (c - 48)) m cs (omega arith) h.3
              ok.1 (omega (arith, mul_mod v w base (c - 48) same)) (omega arith) in
          rw (h.0) (rw (digit_step v base c lo hi) (ground (arith, plain, rest)))
    ])

-- Of a string of digits and minus signs, `str2int` returns the number that the digits form in the
-- base, modulo 2 ^ 32, and its negative as an `int` if there is a minus sign anywhere: also behind
-- or between the digits, or more than one. Fuel for one round more than the characters is enough.
pub str2int-number :
    (fuel input base : ℕ) (m : Bytes) (cs : List ℕ)
    → length cs < fuel
    → Holds m input cs
    → All (λ c. accepted c ≡ true) cs
    → str2int fuel input base m
      ≡ some (
          number (
            if signed cs
            then neg32 (digits_value base 0 cs % 2 ^ 32)
            else digits_value base 0 cs % 2 ^ 32))
unfolding str2int
str2int-number fuel input base m cs enough h ok =
    parse_loop-number fuel input base false 0 0 m cs enough h ok refl (omega arith)

parse_loop-rejected :
    (fuel p base : ℕ) (neg : Bool) (v : ℕ) (m : Bytes) (front : List ℕ) (c : ℕ) (back : List ℕ)
    → length front < fuel
    → Holds m p (front ++ c ∷ back)
    → All (λ d. accepted d ≡ true) front
    → accepted c ≡ false
    → parse_loop fuel p base neg v m ≡ some (rejected (p + length front))
unfolding parse_loop
parse_loop-rejected zero p base neg v m front c back enough h ok bad = elim enough [ ]
parse_loop-rejected (suc fuel) p base neg v m [] c back enough h ok bad =
    let e : p + 0 ≡ p = omega arith in rw e (ground (arith, bad))
parse_loop-rejected (suc fuel) p base neg v m (d ∷ front) c back enough h ok bad =
    let e : p + suc (length front) ≡ p + 1 + length front = omega arith in
    let rest = λ (neg' : Bool) (v' : ℕ).
      parse_loop-rejected fuel (p + 1) base neg' v' m front c back (omega arith) h.3 ok.1 bad in
    rw (add32-eq p 1 h.2, e)
      (ground (arith, ok.0, rest true v, rest neg (add32 (u32 (v * base)) (sub32 (m p) 48))))

-- A string with a character that is neither a digit nor a minus sign is refused: `str2int` returns
-- NULL, and its message names the input from the first such character on.
pub str2int-rejected :
    (fuel input base : ℕ) (m : Bytes) (front : List ℕ) (c : ℕ) (back : List ℕ)
    → length front < fuel
    → Holds m input (front ++ c ∷ back)
    → All (λ d. accepted d ≡ true) front
    → accepted c ≡ false
    → str2int fuel input base m ≡ some (rejected (input + length front))
unfolding str2int
str2int-rejected fuel input base m front c back enough h ok bad =
    parse_loop-rejected fuel input base false 0 m front c back enough h ok bad
