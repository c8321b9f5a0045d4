-- ===== src/Memory/Tests.antt =====
-- Runs of the memory functions, and the theorems at them.
use rv32_emulator.Common.{ℕ, ◌+◌, ◌-◌, ◌≡◌, arith, if◌then◌else◌}
use rv32_emulator.Memory.{memmove}
use rv32_emulator.Memory.Range.{within}
use rv32_emulator.Memory.Copy.{memmove_lem}
use rv32_emulator.Memory.Samples.{texts, texts-IsBytes}

memmove_lem_example :
    ((memmove 101 100 3 texts).0 ≡ 101)
    × ((a : ℕ)
        → (memmove 101 100 3 texts).1 a
          ≡ (if within 101 3 a then texts (100 + (a - 101)) else texts a))
memmove_lem_example = memmove_lem 101 100 3 texts texts-IsBytes (omega arith) (omega arith)
