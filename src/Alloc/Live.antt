-- ===== src/Alloc/Live.antt =====
-- The states that the program's own calls of the allocator lead to: the block list is the first
-- block alone, and it is in use.
use rv32_emulator.Common.{
  ℕ, suc, ◌+◌, ◌^◌, ◌≤◌, ◌<◌, ◌≡◌, ◌≢◌, refl, ◌∙◌, ◌⊎◌, inl, inr, false, some, arith, add32-eq, leb,
  Bool-cases,
}
use rv32_emulator.Memory.{Bytes}
use rv32_emulator.Memory.Range.{IsBytes}
use rv32_emulator.Alloc.{
  Machine, null, heap_start, heap_limit, sbrk_failed, get_next, get_size, is_free, init_block,
  find_free, malloc_first, malloc_new, malloc_found, malloc,
}
use rv32_emulator.Alloc.Block.{
  get_next_ext, is_free_ext, init_block-outside, init_block-IsBytes, init_block-in_use,
  get_next-init_block, get_size-init_block,
}
use rv32_emulator.Alloc.Sbrk.{sbrk-ok, sbrk-full}

pub record IsLive (s : Machine) : Type 0 where
  pub are_bytes : IsBytes s.bytes
  pub head_above : heap_start ≤ s.mem_head
  pub head_below : s.mem_head + 16 ≤ s.heap_end
  pub end_below : s.heap_end < heap_limit
  pub alone : get_next s.bytes s.mem_head ≡ null
  pub in_use : is_free s.bytes s.mem_head ≡ false

-- Before the first call: both static variables are zero.
pub record IsFresh (s : Machine) : Type 0 where
  pub are_bytes : IsBytes s.bytes
  pub no_head : s.mem_head ≡ null
  pub no_end : s.heap_end ≡ 0

-- A new block at `block`, at the end of the heap.
abbrev pub bumped : (block size : ℕ) → Machine → Machine
bumped block size s = record s {
  heap_end = block + (16 + size);
  bytes = init_block s.bytes block size;
}

-- The new block is taken at the end of the heap, and nothing but its header has changed.
abbrev pub Taken : (size : ℕ) → Machine → (p : ℕ) → Machine → Type 0
Taken size s p t =
    (p ≡ s.heap_end + 13)
    × (t.heap_end ≡ s.heap_end + (16 + size))
    × (get_size t.bytes s.heap_end ≡ size)
    × ((a : ℕ) → (a < s.heap_end) ⊎ (s.heap_end + 13 ≤ a) → t.bytes a ≡ s.bytes a)

-- There is no room, and nothing has changed.
abbrev pub Refused : (size : ℕ) → Machine → (p : ℕ) → Machine → Type 0
Refused size s p t = (p ≡ null) × (t ≡ s) × (heap_limit ≤ s.heap_end + (16 + size))

find_free-alone :
    (fuel size block : ℕ) (m : Bytes)
    → block ≢ null
    → get_next m block ≡ null
    → is_free m block ≡ false
    → find_free (suc (suc fuel)) size block m ≡ some null
unfolding find_free
find_free-alone fuel size block m ne last used = ground (arith, last, used)

module _ (fuel size : ℕ) (s : Machine) where
  pub malloc-new : IsLive s → malloc (suc (suc fuel)) size s ≡ some (malloc_new size s)
  unfolding malloc malloc_found
  malloc-new live =
      rw (find_free-alone fuel size s.mem_head s.bytes (omega arith) live.alone live.in_use)
        (ground arith)

  pub malloc-bumped :
      IsLive s
      → s.heap_end + (16 + size) < heap_limit
      → malloc (suc (suc fuel)) size s ≡ some (s.heap_end + 13, bumped s.heap_end size s)
  unfolding malloc_new
  malloc-bumped live room =
      malloc-new live
      ∙ rw (add32-eq 16 size (omega arith), sbrk-ok (16 + size) s (ground arith))
          (ground (arith, add32-eq s.heap_end 13 (omega arith)))

  pub bumped-IsLive :
      IsLive s → s.heap_end + (16 + size) < heap_limit → IsLive (bumped s.heap_end size s)
  bumped-IsLive live room = record {
    are_bytes = init_block-IsBytes s.bytes s.heap_end size (omega arith) live.are_bytes;
    head_above = live.head_above;
    head_below = omega arith;
    end_below = room;
    alone =
        get_next_ext s.bytes s.mem_head (omega arith) _ (λ a lo hi. kept a (omega arith))
        ∙ live.alone;
    in_use = is_free_ext s.bytes s.mem_head (omega arith) _ (kept _ (omega arith)) ∙ live.in_use;
  }
    where
      kept : (a : ℕ) → a < s.heap_end → init_block s.bytes s.heap_end size a ≡ s.bytes a
      kept a below = init_block-outside s.bytes s.heap_end size (omega arith) a (inl below)

  -- Where the heap has no room for the header and `size` bytes, below 1 GB, `malloc` returns NULL
  -- and changes nothing.
  pub malloc-full :
      IsLive s
      → size < 2 ^ 30
      → heap_limit ≤ s.heap_end + (16 + size)
      → malloc (suc (suc fuel)) size s ≡ some (null, s)
  unfolding malloc_new
  malloc-full live small full =
      malloc-new live
      ∙ rw (add32-eq 16 size (omega arith), sbrk-full (16 + size) s (ground arith) (ground arith))
          (ground arith)

  -- In a live state, and below 1 GB, `malloc` either takes the new block at the end of the heap,
  -- which moves up by the header and the size: it returns the place 13 bytes behind, the rest of
  -- memory is as before, the size is on record, and the state stays live; or the heap has no room,
  -- and it returns NULL and changes nothing. Two rounds of the walk are enough.
  pub malloc-IsLive :
      IsLive s
      → size < 2 ^ 30
      → (t : Machine) × (p : ℕ) × (malloc (suc (suc fuel)) size s ≡ some (p, t))
        × IsLive t
        × (t.mem_head ≡ s.mem_head)
        × (Taken size s p t ⊎ Refused size s p t)
  malloc-IsLive live small = elim (Bool-cases (leb heap_limit (s.heap_end + (16 + size)))) [
    | inl full ↦
        (s, null, malloc-full live small (ground arith), live, refl, inr (refl, refl, ground arith))
    | inr room ↦ (
      bumped s.heap_end size s,
      s.heap_end + 13,
      malloc-bumped live (ground arith),
      bumped-IsLive live (ground arith),
      refl,
      inl (
        refl,
        refl,
        get_size-init_block s.bytes s.heap_end size (omega arith) (omega arith),
        init_block-outside s.bytes s.heap_end size (omega arith),
      ),
    )
  ]

module _ (fuel size : ℕ) (s : Machine) where
  abbrev pub started : Machine
  started = record {
    bytes = init_block s.bytes heap_start size;
    heap_end = heap_start + (16 + size);
    mem_head = heap_start;
  }

  pub malloc-started :
      IsFresh s
      → heap_start + (16 + size) < heap_limit
      → malloc fuel size s ≡ some (heap_start + 13, started)
  unfolding malloc malloc_first
  malloc-started fresh room =
      rw (add32-eq 16 size (omega arith), sbrk-ok (16 + size) s (ground arith))
        (ground (arith, add32-eq heap_start 13 (omega arith)))

  pub started-IsLive : IsFresh s → heap_start + (16 + size) < heap_limit → IsLive started
  started-IsLive fresh room = record {
    are_bytes = init_block-IsBytes s.bytes heap_start size (omega arith) fresh.are_bytes;
    head_above = omega arith;
    head_below = omega arith;
    end_below = room;
    alone = get_next-init_block s.bytes heap_start size (omega arith);
    in_use = init_block-in_use s.bytes heap_start size (omega arith);
  }

  -- A first call that finds no room, below 1 GB, returns NULL and leaves -1 as the head of the
  -- block list.
  pub malloc-poisoned :
      IsFresh s
      → size < 2 ^ 30
      → heap_limit ≤ heap_start + (16 + size)
      → malloc fuel size s ≡ some (null, record s { heap_end = heap_start; mem_head = sbrk_failed })
  unfolding malloc malloc_first
  malloc-poisoned fresh small full =
      rw (add32-eq 16 size (omega arith), sbrk-full (16 + size) s (ground arith) (ground arith))
        (ground arith)
