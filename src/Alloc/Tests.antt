-- ===== src/Alloc/Tests.antt =====
-- Runs of the allocator, and the theorems at them.
use rv32_emulator.Common.{
  ℕ, ◌+◌, ◌*◌, ◌<◌, ◌≤◌, ◌≡◌, ◌≢◌, refl, ◌⊎◌, inl, arith, add32, some, true, [], ◌∷◌, if◌then◌else◌,
  ◌==◌,
}
use rv32_emulator.Memory.{store8}
use rv32_emulator.Memory.Word.{load32, store32}
use rv32_emulator.Alloc.{
  Machine, null, heap_start, get_next, get_size, is_free, sbrk, init_block, malloc, malloc_found,
  find_free, malloc_new, malloc_reuse, split_block, free, calloc,
}
use rv32_emulator.Alloc.Live.{IsLive, Taken, Refused, malloc-IsLive}
use rv32_emulator.Alloc.Free.{free-misses_flag}
use rv32_emulator.Alloc.Trace.{Reach, here, next, allocate, release, IsTraced, Reach-IsTraced}
use rv32_emulator.Alloc.Reuse.{FirstFit, malloc-FirstFit, split_block_lem}
use rv32_emulator.Alloc.Calloc.{calloc_lem}
use rv32_emulator.Alloc.Samples.{
  used, used-IsLive, free_bytes, free_bytes-IsBytes, listed, both, both-Chain, second-size,
}

malloc-IsLive_example :
    (t : Machine) × (p : ℕ) × (malloc 2 100 used ≡ some (p, t))
    × IsLive t
    × (t.mem_head ≡ used.mem_head)
    × (Taken 100 used p t ⊎ Refused 100 used p t)
malloc-IsLive_example = malloc-IsLive 0 100 used used-IsLive (omega arith)

free-misses_flag_example :
    (is_free (free (heap_start + 13) used).bytes heap_start ≡ is_free used.bytes heap_start)
    × ((free (heap_start + 13) used).bytes (heap_start + 9) ≡ 1)
    × ((a : ℕ) → a ≢ heap_start + 9 → (free (heap_start + 13) used).bytes a ≡ used.bytes a)
free-misses_flag_example = free-misses_flag heap_start used (omega arith) (omega arith)

used_header :
    (used.bytes (heap_start + 5) ≡ 0)
    × (used.bytes (heap_start + 6) ≡ 0)
    × (used.bytes (heap_start + 7) ≡ 0)
    × (used.bytes (heap_start + 8) ≡ 8)
unfolding init_block store32 store8 add32
used_header = (refl, refl, refl, refl)

abbrev second_block : ℕ
second_block = used.heap_end + 13

abbrev second : Machine
second = record used {
  heap_end = used.heap_end + (16 + 100);
  bytes = init_block used.bytes used.heap_end 100;
}

malloc-second : malloc 2 100 used ≡ some (second_block, second)
unfolding malloc malloc_found find_free malloc_new sbrk init_block get_next is_free load32 store32
    store8 add32
malloc-second = refl

-- An allocation, and the release of its block.
used_and_released : Reach 0 used (free second_block second) ((second_block, 100) ∷ [])
used_and_released =
    next (next here (allocate 100 second_block (omega arith) malloc-second (omega arith)))
      (release second_block 100 (inl (refl, refl)))

Reach-IsTraced_example :
    IsTraced used.mem_head (free second_block second) ((second_block, 100) ∷ [])
Reach-IsTraced_example = Reach-IsTraced used-IsLive used_and_released

malloc-FirstFit_example :
    (r : ℕ) × FirstFit free_bytes 16 both r
    × (malloc 3 16 listed
        ≡ some (if r == null then malloc_new 16 listed else malloc_reuse 16 r listed))
malloc-FirstFit_example = malloc-FirstFit 3 16 listed both (omega arith) (omega arith) both-Chain

split_block_lem_example :
    let m' = split_block 16 1024 free_bytes in
    (get_size m' 1024 ≡ 16)
    × (get_size m' (1024 + (16 + 16)) + 16 + 16 ≡ get_size free_bytes 1024)
    × (get_next m' 1024 ≡ 1024 + (16 + 16))
    × (get_next m' (1024 + (16 + 16)) ≡ get_next free_bytes 1024)
    × (is_free m' 1024 ≡ is_free free_bytes 1024)
    × (is_free m' (1024 + (16 + 16)) ≡ true)
    × ((a : ℕ)
        → (a < 1024) ⊎ (1024 + 12 ≤ a)
        → (a < 1024 + (16 + 16)) ⊎ (1024 + (16 + 16) + 13 ≤ a)
        → m' a ≡ free_bytes a)
split_block_lem_example =
    split_block_lem free_bytes 1024 16 free_bytes-IsBytes (omega (arith, second-size))
      (omega (arith, second-size))

calloc_lem_example :
    (t : Machine) × (p : ℕ) × (calloc 2 3 4 used ≡ some (p, t))
    × (((p ≡ used.heap_end + 13)
          × (t.heap_end ≡ used.heap_end + (16 + 3 * 4))
          × ((i : ℕ) → i < 3 * 4 → t.bytes (p + i) ≡ 0)
          × ((a : ℕ) → a < used.heap_end → t.bytes a ≡ used.bytes a))
        ⊎ Refused (3 * 4) used p t)
calloc_lem_example = calloc_lem 0 3 4 used used-IsLive (omega arith)
