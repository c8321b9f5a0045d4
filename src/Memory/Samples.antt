-- ===== src/Memory/Samples.antt =====
-- Memories for the tests: all zero, and with a row of bytes at an address.
use rv32_emulator.Common.{ℕ, ◌+◌, arith, List, [], ◌∷◌}
use rv32_emulator.Memory.{Bytes, store8}
use rv32_emulator.Memory.Range.{IsBytes, store8-IsBytes}

abbrev pub blank : Bytes
blank a = 0

abbrev pub place : List ℕ → ℕ → Bytes → Bytes
place [] p m = m
place (c ∷ cs) p m = place cs (p + 1) (store8 m p c)

pub blank-IsBytes : IsBytes blank
blank-IsBytes a = omega arith

pub place-IsBytes : (cs : List ℕ) (p : ℕ) (m : Bytes) → IsBytes m → IsBytes (place cs p m)
place-IsBytes [] p m h = h
place-IsBytes (c ∷ cs) p m h = place-IsBytes cs (p + 1) (store8 m p c) (store8-IsBytes m p c h)

-- "abc", "abd" and "bc", each with its terminator.
abbrev pub abc : List ℕ
abc = b'a' ∷ b'b' ∷ b'c' ∷ []

abbrev pub abd : List ℕ
abd = b'a' ∷ b'b' ∷ b'd' ∷ []

abbrev pub bc : List ℕ
bc = b'b' ∷ b'c' ∷ []

abbrev pub texts : Bytes
texts = place bc 120 (place abd 110 (place abc 100 blank))

pub texts-IsBytes : IsBytes texts
texts-IsBytes =
    place-IsBytes bc 120 _ (place-IsBytes abd 110 _ (place-IsBytes abc 100 _ blank-IsBytes))
