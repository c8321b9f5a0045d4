-- ===== src/CString/Tests.antt =====
-- Runs of the functions on terminated strings, and the theorems at them.
use rv32_emulator.Common.{ℕ, ◌<◌, ◌^◌, ◌≡◌, ◌≢◌, ◌⊎◌, add32, none, arith, some}
use rv32_emulator.Memory.{Bytes, store8}
use rv32_emulator.Memory.Samples.{abc, abd, texts, texts-IsBytes}
use rv32_emulator.CString.{strlen, strcmp}
use rv32_emulator.CString.Content.{Holds}
use rv32_emulator.CString.Length.{Ordered, strcmp-Ordered}
use rv32_emulator.CString.Ends.{strlen-ends}

abc-Holds : Holds texts 100 abc
unfolding store8
abc-Holds = omega arith

abd-Holds : Holds texts 110 abd
unfolding store8
abd-Holds = omega arith

-- A memory without a zero byte.
abbrev full : Bytes
full a = 1

strlen-ends_example :
    ((n : ℕ) × (strlen (2 ^ 32) 100 full ≡ some n)
      × (n < 2 ^ 32)
      × (full (add32 100 n) ≡ 0)
      × ((j : ℕ) → j < n → full (add32 100 j) ≢ 0))
    ⊎ ((strlen (2 ^ 32) 100 full ≡ none) × ((a : ℕ) → a < 2 ^ 32 → full a ≢ 0))
strlen-ends_example = strlen-ends (2 ^ 32) 100 full (omega arith) (omega arith)

strcmp-Ordered_example : (r : ℕ) × (strcmp 4 100 110 texts ≡ some r) × Ordered abc abd r
strcmp-Ordered_example =
    strcmp-Ordered 4 100 110 texts abc abd texts-IsBytes (omega arith) abc-Holds abd-Holds
