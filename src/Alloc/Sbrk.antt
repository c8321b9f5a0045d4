-- ===== src/Alloc/Sbrk.antt =====
-- `sbrk` on every branch.
use rv32_emulator.Common.{
  ℕ, ◌+◌, ◌^◌, ◌≤◌, ◌<◌, ◌≡◌, refl, ◌⊎◌, inl, inr, arith, add32-eq, leb, ◌==◌, if◌then◌else◌,
  Bool-cases,
}
use rv32_emulator.Alloc.{Machine, heap_start, heap_limit, sbrk_failed, sbrk}

-- The end of the heap before a call: the start of the heap, if no call has been made.
abbrev pub current_end : Machine → ℕ
current_end s = if s.heap_end == 0 then heap_start else s.heap_end

abbrev pub EndInHeap : Machine → Type 0
EndInHeap s = (heap_start ≤ current_end s) × (current_end s < heap_limit)

pub sbrk-ok :
    (increment : ℕ) (s : Machine)
    → current_end s + increment < heap_limit
    → sbrk increment s ≡ (current_end s, record s { heap_end = current_end s + increment })
unfolding sbrk
sbrk-ok increment s room = rw (add32-eq (current_end s) increment (omega arith)) (ground arith)

pub sbrk-full :
    (increment : ℕ) (s : Machine)
    → heap_limit ≤ current_end s + increment
    → current_end s + increment < 2 ^ 32
    → sbrk increment s ≡ (sbrk_failed, record s { heap_end = current_end s })
unfolding sbrk
sbrk-full increment s full fits = rw (add32-eq (current_end s) increment fits) (ground arith)

-- For an increment below 2 GB, and an end of the heap inside the heap, `sbrk` either returns the
-- old end, moves the end up by exactly the increment and stays below the limit, or there is no
-- room, it returns -1 and the end stays; the end is inside the heap afterwards.
pub sbrk_bounds :
    (increment : ℕ) (s : Machine)
    → increment < 2 ^ 30
    → EndInHeap s
    → EndInHeap (sbrk increment s).1
      × (((sbrk increment s).0 ≡ current_end s)
            × ((sbrk increment s).1.heap_end ≡ current_end s + increment)
            × (current_end s + increment < heap_limit)
          ⊎ ((sbrk increment s).0 ≡ sbrk_failed)
            × ((sbrk increment s).1.heap_end ≡ current_end s)
            × (heap_limit ≤ current_end s + increment))
sbrk_bounds increment s small inside =
    elim (Bool-cases (leb heap_limit (current_end s + increment))) [
      | inl full ↦
          rw (sbrk-full increment s (ground arith) (omega arith))
            (ground arith, inr (refl, refl, ground arith))
      | inr room ↦
          rw (sbrk-ok increment s (ground arith)) (ground arith, inl (refl, refl, ground arith))
    ]
