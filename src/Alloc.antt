-- ===== src/Alloc.antt =====
-- The allocator of c_test/mem.c: `sbrk`, `malloc`, `free`, `realloc`, `calloc` and `debug_heap`.
-- Its state is the memory and the two static variables `heap_end` and `mem_head`. The loop of
-- `malloc` over the block list takes fuel: `none` says that the walk did not end within it.
pub mod Block
pub mod Sbrk
pub mod Live
pub mod Free
pub mod Trace
pub mod Frame
pub mod Reuse
pub mod Report
pub mod Calloc
pub mod Samples
mod Tests
use rv32_emulator.Common.{
  ℕ, zero, suc, ◌+◌, ◌-◌, ◌*◌, ◌%◌, ◌^◌, add32, sub32, u32, and_then, Bool, true, false, not, ◌&&◌,
  Option, none, some, List, [], ◌∷◌, ltb, leb, ◌==◌, if◌then◌else◌,
}
use rv32_emulator.Memory.{Bytes, store8, memset, memcpy}
use rv32_emulator.Memory.Word.{load32, store32}

pub record Machine : Type 0 where
  pub bytes : Bytes
  pub heap_end : ℕ
  pub mem_head : ℕ

abbrev pub null : ℕ
null = 0

-- `(void*)-1`
abbrev pub sbrk_failed : ℕ
sbrk_failed = 2 ^ 32 - 1

abbrev pub heap_start : ℕ
heap_start = 0x8000_0000

abbrev pub heap_limit : ℕ
heap_limit = heap_start + 4 * 1024 * 1024

-- `struct mem_block` on the target: `next` at 0, `prev` at 4, `size` at 8, `free` at 12. The
-- flexible array `data` of bytes follows at 13, while `sizeof` is rounded up to the alignment.
abbrev pub sizeof_mem_block : ℕ
sizeof_mem_block = 16

abbrev pub offsetof_data : ℕ
offsetof_data = 13

unfoldable pub get_next : Bytes → ℕ → ℕ
get_next m block = load32 m block

unfoldable pub get_size : Bytes → ℕ → ℕ
get_size m block = load32 m (add32 block 8)

-- `block->free` as a test.
unfoldable pub is_free : Bytes → ℕ → Bool
is_free m block = not (m (add32 block 12) == 0)

unfoldable pub set_next : Bytes → ℕ → ℕ → Bytes
set_next m block v = store32 m block v

unfoldable pub set_prev : Bytes → ℕ → ℕ → Bytes
set_prev m block v = store32 m (add32 block 4) v

unfoldable pub set_size : Bytes → ℕ → ℕ → Bytes
set_size m block v = store32 m (add32 block 8) v

unfoldable pub set_free : Bytes → ℕ → ℕ → Bytes
set_free m block v = store8 m (add32 block 12) v

-- The sum is an `int` that wraps, and it is compared as an unsigned number, since the limit is one.
unfoldable pub sbrk : ℕ → Machine → ℕ × Machine
sbrk increment s =
    let start = if s.heap_end == 0 then heap_start else s.heap_end in
    if leb heap_limit (add32 start increment)
    then (sbrk_failed, record s { heap_end = start })
    else (start, record s { heap_end = add32 start increment })

-- The four assignments to a new block.
unfoldable pub init_block : Bytes → ℕ → ℕ → Bytes
unfolding set_next set_prev set_size set_free
init_block m block size =
    set_free (set_size (set_prev (set_next m block null) block null) block size) block 0

-- The first call: the block becomes the head of the list.
unfoldable pub malloc_first : ℕ → Machine → ℕ × Machine
malloc_first size s =
    let (block, s') = sbrk (add32 sizeof_mem_block size) s in
    if block == sbrk_failed then (null, record s' { mem_head = block }) else (
      add32 block offsetof_data,
      record s' { mem_head = block; bytes = init_block s'.bytes block size },
    )

-- The walk from `block` to the first free block of at least `size` bytes, `null` if there is none.
unfoldable pub find_free : (fuel size block : ℕ) → Bytes → Option ℕ
find_free zero size block m = none
find_free (suc fuel) size block m =
    let rest = find_free fuel size (get_next m block) m in
    if block == null
    then some null
    else if is_free m block && leb size (get_size m block)
    then some block
    else rest

-- No free block was found: a new one, which no list holds.
unfoldable pub malloc_new : ℕ → Machine → ℕ × Machine
malloc_new size s =
    let (block, s') = sbrk (add32 sizeof_mem_block size) s in
    if block == sbrk_failed
    then (null, s')
    else (add32 block offsetof_data, record s' { bytes = init_block s'.bytes block size })

-- Where the rest of a split block starts.
unfoldable pub split_at : ℕ → ℕ → ℕ
split_at block size = add32 (add32 block sizeof_mem_block) size

unfoldable pub split_block : ℕ → ℕ → Bytes → Bytes
unfolding set_next set_prev set_size set_free get_next get_size split_at
split_block size block m =
    let new_block = split_at block size in
    let m1 = set_next m new_block (get_next m block) in
    let m2 = set_prev m1 new_block block in
    let m3 = set_size m2 new_block (sub32 (sub32 (get_size m2 block) size) sizeof_mem_block) in
    let m4 = set_free m3 new_block 1 in
    let m5 = set_next m4 block new_block in set_size m5 block size

-- A free block was found: it is split if it is too big, and marked as used.
unfoldable pub malloc_reuse : ℕ → ℕ → Machine → ℕ × Machine
malloc_reuse size block s =
    let m =
      if ltb (add32 size sizeof_mem_block) (get_size s.bytes block)
      then split_block size block s.bytes
      else s.bytes in
    (add32 block offsetof_data, record s { bytes = set_free m block 0 })

unfoldable pub malloc_found : ℕ → Option ℕ → Machine → Option (ℕ × Machine)
malloc_found size none s = none
malloc_found size (some block) s =
    some (if block == null then malloc_new size s else malloc_reuse size block s)

unfoldable pub malloc : (fuel size : ℕ) → Machine → Option (ℕ × Machine)
malloc fuel size s =
    if s.mem_head == null
    then some (malloc_first size s)
    else malloc_found size (find_free fuel size s.mem_head s.bytes) s

unfoldable pub free : ℕ → Machine → Machine
free ptr s =
    let block = sub32 ptr sizeof_mem_block in
    if block == null then s else record s { bytes = set_free s.bytes block 1 }

-- The copy and the release of `realloc`; the size is read again behind `malloc`.
unfoldable pub move_block : (ptr new_ptr : ℕ) → Machine → ℕ × Machine
move_block ptr new_ptr s =
    let block = sub32 ptr sizeof_mem_block in
    let (_, m) = memcpy new_ptr ptr (get_size s.bytes block) s.bytes in
    (new_ptr, free ptr (record s { bytes = m }))

unfoldable pub realloc : (fuel ptr size : ℕ) → Machine → Option (ℕ × Machine)
realloc fuel ptr size s =
    let block = sub32 ptr sizeof_mem_block in
    if block == null
    then malloc fuel size s
    else if leb size (get_size s.bytes block)
    then some (ptr, s)
    else and_then (malloc fuel size s) (λ r. some (move_block ptr r.0 r.1))

unfoldable pub clear_new : ℕ → ℕ × Machine → ℕ × Machine
clear_new n (ptr, s) =
    if ptr == null
    then (null, s)
    else let (_, m) = memset ptr 0 n s.bytes in (ptr, record s { bytes = m })

unfoldable pub calloc : (fuel nmemb size : ℕ) → Machine → Option (ℕ × Machine)
calloc fuel nmemb size s =
    and_then (malloc fuel (u32 (nmemb * size)) s) (λ r. some (clear_new (u32 (nmemb * size)) r))
