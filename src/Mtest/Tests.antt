-- ===== src/Mtest/Tests.antt =====
-- A run of `main` of mtest.c.
use rv32_emulator.Common.{
  ℕ, ◌+◌, ◌-◌, ◌^◌, ◌<◌, ◌≡◌, refl, inl, inr, arith, Bool, true, false, some, ltb, List, [], ◌∷◌,
  ◌++◌, length, ◌==◌, if◌then◌else◌,
}
use rv32_emulator.Memory.{Bytes}
use rv32_emulator.Memory.Range.{IsBytes}
use rv32_emulator.Alloc.{Machine, null, heap_start}
use rv32_emulator.Alloc.Live.{IsLive}
use rv32_emulator.Alloc.Frame.{SameFrom}
use rv32_emulator.CString.Content.{Holds}
use rv32_emulator.Mtest.{Ended, Literals, main}
use rv32_emulator.Mtest.Text
use rv32_emulator.Mtest.Runs.{Literal, Shows}
use rv32_emulator.Mtest.Main.{Stands, all_texts, main-Shows}

-- A decision of `Holds`, for concrete memories.
abbrev is_held : Bytes → ℕ → List ℕ → Bool
is_held m p [] = if m p == 0 then ltb p (2 ^ 32) else false
is_held m p (c ∷ cs) =
    let rest = is_held m (p + 1) cs in
    if m p == c
    then if c == 0 then false else if ltb (p + 1) (2 ^ 32) then rest else false
    else false

is_held-Holds : (m : Bytes) (p : ℕ) (cs : List ℕ) → is_held m p cs ≡ true → Holds m p cs
is_held-Holds m p [] h = (ground arith, ground arith)
is_held-Holds m p (c ∷ cs) h =
    (ground arith, ground arith, ground arith, is_held-Holds m (p + 1) cs (ground arith))

-- The texts from 100 on, each with its terminator.
abbrev literals : Literals
literals = record {
  hey_there = 100;
  hey_where = 111;
  doom = 122;
  test_text = 140;
  have_you = 155;
  prayed_today = 164;
  test_again = 140;
  batman = 178;
}

abbrev zero_end : List ℕ → List ℕ → List ℕ
zero_end cs rest = cs ++ 0 ∷ rest

abbrev image : List ℕ
image = zero_end Text.hey_there (
    zero_end Text.hey_where (
      zero_end Text.doom (
        zero_end Text.test_text
          (zero_end Text.have_you (zero_end Text.prayed_today (zero_end Text.batman []))))))

abbrev byte_at : ℕ → List ℕ → ℕ
byte_at n [] = 0
byte_at n (c ∷ cs) = let rest = byte_at (n - 1) cs in if n == 0 then c else rest

abbrev loaded : Machine
loaded = record {
  bytes = λ a. if ltb a 100 then 0 else byte_at (a - 100) image;
  heap_end = 0;
  mem_head = null;
}

abbrev are_bytes : List ℕ → Bool
are_bytes [] = true
are_bytes (c ∷ cs) = let rest = are_bytes cs in if ltb c 256 then rest else false

byte_at-small : (n : ℕ) (cs : List ℕ) → are_bytes cs ≡ true → byte_at n cs < 256
byte_at-small n [] h = omega arith
byte_at-small n (c ∷ cs) h = ground (arith, byte_at-small (n - 1) cs (ground arith))

loaded-IsBytes : IsBytes loaded.bytes
loaded-IsBytes a = ground (arith, byte_at-small (a - 100) image refl)

loaded-Literal :
    (p : ℕ) (cs : List ℕ)
    → is_held loaded.bytes p cs ≡ true
    → p < 1000
    → length cs < 1000
    → Literal loaded.bytes p cs
loaded-Literal p cs h low short = (is_held-Holds loaded.bytes p cs h, inl (omega arith))

loaded-Stands : Stands loaded.bytes literals
loaded-Stands = record {
  hey_there = loaded-Literal 100 Text.hey_there refl (omega arith) (omega arith);
  hey_where = loaded-Literal 111 Text.hey_where refl (omega arith) (omega arith);
  doom = loaded-Literal 122 Text.doom refl (omega arith) (omega arith);
  test_text = loaded-Literal 140 Text.test_text refl (omega arith) (omega arith);
  have_you = loaded-Literal 155 Text.have_you refl (omega arith) (omega arith);
  prayed_today = loaded-Literal 164 Text.prayed_today refl (omega arith) (omega arith);
  test_again = loaded-Literal 140 Text.test_text refl (omega arith) (omega arith);
  batman = loaded-Literal 178 Text.batman refl (omega arith) (omega arith);
}

main-Shows_example :
    (r : Ended) × (main 18 literals loaded ≡ some r)
    × (r.status ≡ 0)
    × Shows r.shown all_texts
    × IsLive r.machine
    × (r.machine.heap_end ≡ heap_start + 420)
    × SameFrom heap_start loaded r.machine
main-Shows_example =
    main-Shows 18 heap_start loaded literals (omega arith)
      (inr (record { are_bytes = loaded-IsBytes; no_head = refl; no_end = refl }, refl))
      (omega arith) loaded-Stands
