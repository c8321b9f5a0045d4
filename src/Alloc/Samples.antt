-- ===== src/Alloc/Samples.antt =====
-- Machines for the tests: before the first call, with one block, and with a list of two free blocks.
use rv32_emulator.Common.{ℕ, ◌≡◌, refl, arith, add32, List, [], ◌∷◌}
use rv32_emulator.Memory.{Bytes, store8}
use rv32_emulator.Memory.Range.{IsBytes}
use rv32_emulator.Memory.Word.{load32, store32, store32-IsBytes}
use rv32_emulator.Memory.Samples.{blank, blank-IsBytes}
use rv32_emulator.Alloc.{Machine, null, heap_start, get_next, get_size}
use rv32_emulator.Alloc.Live.{IsLive, IsFresh, started, started-IsLive}
use rv32_emulator.Alloc.Reuse.{Chain}

abbrev pub fresh : Machine
fresh = record { bytes = blank; heap_end = 0; mem_head = null }

pub fresh-IsFresh : IsFresh fresh
fresh-IsFresh = record { are_bytes = blank-IsBytes; no_head = refl; no_end = refl }

-- Behind a first `malloc(8)`.
abbrev pub used : Machine
used = started 2 8 fresh

pub used-IsLive : IsLive used
used-IsLive = started-IsLive 2 8 fresh fresh-IsFresh (omega arith)

-- A free block of 8 bytes that leads to one of 40, at 1000 and 1024.
abbrev pub free_bytes : Bytes
free_bytes =
    store32 (store32 (store32 (store32 (store32 blank 1000 1024) 1008 8) 1012 1) 1032 40) 1036 1

pub free_bytes-IsBytes : IsBytes free_bytes
free_bytes-IsBytes = store32-IsBytes _ _ _ (
    store32-IsBytes _ _ _ (
      store32-IsBytes _ _ _
        (store32-IsBytes _ _ _ (store32-IsBytes blank 1000 1024 blank-IsBytes))))

abbrev pub listed : Machine
listed = record { bytes = free_bytes; heap_end = heap_start; mem_head = 1000 }

abbrev pub both : List ℕ
both = 1000 ∷ 1024 ∷ []

pub both-Chain : Chain free_bytes 1000 both
unfolding get_next load32 store32 store8 add32
both-Chain = (refl, omega arith, (refl, omega arith, refl))

pub second-size : get_size free_bytes 1024 ≡ 40
unfolding get_size load32 store32 store8 add32
second-size = refl
