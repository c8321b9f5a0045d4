-- ===== src/Alloc/Frame.antt =====
-- What the allocator and its clients leave as it was: the memory outside the heap.
use rv32_emulator.Common.{ℕ, ◌+◌, ◌-◌, ◌≤◌, ◌<◌, ◌≡◌, ◌≢◌, refl, ◌∙◌, ap, ◌⊎◌, arith}
use rv32_emulator.Memory.{store8}
use rv32_emulator.Memory.Range.{store8_lem}
use rv32_emulator.Alloc.{Machine, heap_start, free}
use rv32_emulator.Alloc.Live.{IsLive}
use rv32_emulator.Alloc.Free.{free-data}
use rv32_emulator.Alloc.Trace.{store8-IsLive}

-- No byte has changed below `lo`, or above the heap as it is afterwards.
abbrev pub SameFrom : (lo : ℕ) → (s t : Machine) → Type 0
SameFrom lo s t = (a : ℕ) → (a < lo) ⊎ (t.heap_end ≤ a) → t.bytes a ≡ s.bytes a

abbrev pub SameOutside : (s t : Machine) → Type 0
SameOutside s t = SameFrom heap_start s t

pub SameFrom-trans :
    (s t u : Machine) (lo mid : ℕ)
    → lo ≤ mid
    → t.heap_end ≤ u.heap_end
    → SameFrom lo s t
    → SameFrom mid t u
    → SameFrom lo s u
SameFrom-trans s t u lo mid below grows st tu a out = tu a (omega arith) ∙ st a (omega arith)

-- A pointer to a block of a live heap: the first block, or one behind its header.
abbrev pub IsBlock : (p : ℕ) → Machine → Type 0
IsBlock p s = ((p ≡ s.mem_head + 13) ⊎ (s.mem_head + 29 ≤ p)) × (p ≤ s.heap_end)

-- `free` of such a pointer writes one byte, and the heap stays live.
module _ (p : ℕ) (s : Machine) (live : IsLive s) (block : IsBlock p s) where
  free-store : free p s ≡ record s { bytes = store8 s.bytes (p - 13 + 9) 1 }
  free-store =
      let e : p ≡ p - 13 + 13 = omega arith in
      ap (λ (q : ℕ). free q s) e
      ∙ free-data (p - 13) s (omega (arith, live.head_above)) (omega (arith, live.end_below))

  pub free-IsLive : IsLive (free p s)
  free-IsLive = rw free-store (store8-IsLive (p - 13 + 9) 1 s live (omega arith) (omega arith))

  pub free-kept : (a : ℕ) → a ≢ p - 4 → (free p s).bytes a ≡ s.bytes a
  free-kept a ne =
      rw free-store (store8_lem s.bytes (p - 13 + 9) 1 a ∙ ground (arith, live.head_above))

  pub free-ends : ((free p s).heap_end ≡ s.heap_end) × ((free p s).mem_head ≡ s.mem_head)
  free-ends = rw free-store (refl, refl)

  pub free-SameOutside : SameOutside s (free p s)
  free-SameOutside a out =
      free-kept a (omega (arith, free-ends.0, live.head_above, live.head_below))
