-- ===== src/Str/Extend.antt =====
-- `string_append_len` on a heap with room.
use rv32_emulator.Common.{
  ℕ, suc, ◌+◌, ◌^◌, ◌≤◌, ◌<◌, ◌≡◌, refl, ◌∙◌, ◌⊎◌, inr, arith, add32, add32-eq, List, ◌++◌, length,
  some, leb, ltb, u32, true, ◌*◌, if◌then◌else◌,
}
use rv32_emulator.Alloc.{Machine, heap_start, heap_limit}
use rv32_emulator.Alloc.Frame.{SameOutside, SameFrom-trans}
use rv32_emulator.Str.{
  data_of, length_of, capacity_of, put_chars, next_capacity, make_room, string_grow,
  string_append_len,
}
use rv32_emulator.Str.Spelled.{Spelled, Spelled-ext}
use rv32_emulator.Str.Owns.{Owns}
use rv32_emulator.Str.Grow.{string_grow-Owns}
use rv32_emulator.Str.Chars.{
  put_chars-Owns, put_chars-ends, put_chars-data_of, put_chars-capacity_of, put_chars-ends_at,
  put_chars-SameOutside,
}

-- To a well-formed string object whose capacity exceeds the new length, `string_append_len` appends
-- the `k` characters at the source, which must not overlap the free part of the buffer from below
-- its start: the object stays well-formed in its place and with its capacity, holds the
-- old characters followed by the new ones, and ends in a terminator. No fuel is used.
pub string_append_len-Owns :
    (fuel str source : ℕ) (s : Machine) {d cap : ℕ} {cs : List ℕ} (ds : List ℕ)
    → Owns s str d cap cs
    → length cs + length ds < cap
    → (d + length cs ≤ source) ⊎ (source + length ds ≤ d + length cs)
    → source + length ds ≤ 2 ^ 32
    → Spelled s.bytes source ds
    → (t : Machine) × (string_append_len fuel str source (length ds) s ≡ some t)
      × Owns t str d cap (cs ++ ds)
      × (t.bytes (d + (length cs + length ds)) ≡ 0)
unfolding string_append_len make_room
string_append_len-Owns fuel str source s {d} {cap} {cs} ds own more clear fits there =
    let k = length ds in
    let word = add32-eq (length cs) k (omega (arith, own.placed, own.live.end_below)) in
    (
      put_chars str source k s,
      rw (own.at_length, own.at_capacity) (rw word (ground arith)),
      put_chars-Owns own source k (omega arith) clear fits ds refl more there,
      put_chars-ends own source k (omega arith) clear fits,
    )

-- The run of `string_append_len` through `string_grow`.
grown_run :
    (fuel str source k needed cap : ℕ) (s t : Machine)
    → add32 (length_of s.bytes str) k ≡ needed
    → capacity_of s.bytes str ≡ cap
    → cap * 2 ≤ needed
    → needed < 2 ^ 32
    → string_grow fuel str needed s ≡ some t
    → string_append_len fuel str source k s ≡ some (put_chars str source k t)
unfolding string_append_len make_room next_capacity
grown_run fuel str source k needed cap s t word at much small run =
    let wide : u32 (cap * 2) ≡ cap * 2 = omega arith in
    let same : (if ltb (cap * 2) needed then needed else cap * 2) ≡ needed = ground arith in
    let full : leb cap needed ≡ true = ground arith in
    rw (word, at) (rw (full, wide) (rw same (rw run refl)))

-- The same where the capacity is doubled.
doubled_run :
    (fuel str source k needed cap : ℕ) (s t : Machine)
    → add32 (length_of s.bytes str) k ≡ needed
    → capacity_of s.bytes str ≡ cap
    → cap ≤ needed
    → needed < cap * 2
    → cap * 2 < 2 ^ 32
    → string_grow fuel str (cap * 2) s ≡ some t
    → string_append_len fuel str source k s ≡ some (put_chars str source k t)
unfolding string_append_len make_room next_capacity
doubled_run fuel str source k needed cap s t word at lo hi small run =
    let wide : u32 (cap * 2) ≡ cap * 2 = omega arith in
    let same : (if ltb (cap * 2) needed then needed else cap * 2) ≡ cap * 2 = ground arith in
    let full : leb cap needed ≡ true = ground arith in
    rw (word, at) (rw (full, wide) (rw same (rw run refl)))

-- Where the new length is twice the capacity or more, and the heap has room for it,
-- `string_append_len` gives the object a buffer of exactly the new length, and writes the terminator
-- on the byte behind the buffer. The source must lie below the end of the heap.
pub string_append_len-overrun :
    (fuel str source k : ℕ) (s : Machine) {d cap : ℕ} {cs : List ℕ}
    → Owns s str d cap cs
    → cap * 2 ≤ length cs + k
    → source + k ≤ s.heap_end
    → s.heap_end + (16 + (length cs + k)) < heap_limit
    → (t : Machine) × (string_append_len (suc (suc fuel)) str source k s ≡ some t)
      × (capacity_of t.bytes str ≡ length cs + k)
      × (t.bytes (data_of t.bytes str + capacity_of t.bytes str) ≡ 0)
string_append_len-overrun fuel str source k s {d} {cap} {cs} own much below fits =
    let needed = length cs + k in
    let (t, run, own', grown, head, _) =
      string_grow-Owns fuel str needed s own (omega (arith, own.room)) fits in
    let d' = s.heap_end + 13 in
    let outside : (d' + length cs ≤ source) ⊎ (source + k ≤ d' + length cs) = inr (omega arith) in
    let source_fits : source + k ≤ 2 ^ 32 = omega (arith, own.live.end_below) in
    let cap' = put_chars-capacity_of own' source k (omega arith) outside source_fits in
    let data' = put_chars-data_of own' source k (omega arith) outside source_fits in
    let word : add32 (length_of s.bytes str) k ≡ needed =
      rw (own.at_length) (add32-eq (length cs) k (omega arith)) in
    (
      put_chars str source k t,
      grown_run (suc (suc fuel)) str source k needed cap s t word own.at_capacity much (omega arith)
          run,
      cap',
      rw (data', cap') (put_chars-ends own' source k (omega arith) outside source_fits),
    )

-- Characters outside the heap are still there when nothing outside it has changed.
Spelled-outside :
    (s t : Machine) (source : ℕ) (ds : List ℕ)
    → SameOutside s t
    → (source + length ds ≤ heap_start) ⊎ (t.heap_end ≤ source)
    → Spelled s.bytes source ds
    → Spelled t.bytes source ds
Spelled-outside s t source ds same out there =
    Spelled-ext s.bytes t.bytes source ds (λ a lo hi. same a (omega arith)) there

-- Where the new length is no less than the capacity but less than twice it, and the heap has room
-- for a block of twice the capacity, `string_append_len` of characters that stand outside the heap
-- moves the object to a new buffer of twice the capacity: it is well-formed there, holds the old
-- characters followed by the new ones, and ends in a terminator. No byte outside the heap changes.
pub string_append_len-doubled :
    (fuel str source : ℕ) (s : Machine) {d cap : ℕ} {cs : List ℕ} (ds : List ℕ)
    → Owns s str d cap cs
    → cap ≤ length cs + length ds
    → length cs + length ds < cap * 2
    → s.heap_end + (16 + cap * 2) < heap_limit
    → (source + length ds ≤ heap_start) ⊎ (heap_limit ≤ source)
    → source + length ds ≤ 2 ^ 32
    → Spelled s.bytes source ds
    → (t : Machine) × (string_append_len (suc (suc fuel)) str source (length ds) s ≡ some t)
      × Owns t str (s.heap_end + 13) (cap * 2) (cs ++ ds)
      × (t.bytes (s.heap_end + 13 + (length cs + length ds)) ≡ 0)
      × (t.heap_end ≡ s.heap_end + (16 + cap * 2))
      × (t.mem_head ≡ s.mem_head)
      × SameOutside s t
string_append_len-doubled fuel str source s {d} {cap} {cs} ds own full some_room fits out small
      there =
    let k = length ds in
    let (t, run, own', grown, head, same) =
      string_grow-Owns fuel str (cap * 2) s own (omega (arith, own.room)) fits in
    let there' = Spelled-outside s t source ds same (omega (arith, grown)) there in
    let clear : (s.heap_end + 13 + length cs ≤ source)
        ⊎ (source + k ≤ s.heap_end + 13 + length cs) =
      omega (arith, own.live.head_above, own.live.head_below) in
    let (ends, head') = put_chars-ends_at own' source k (omega arith) clear small in
    (
      put_chars str source k t,
      doubled_run (suc (suc fuel)) str source k (length cs + k) cap s t
          (rw (own.at_length) (add32-eq (length cs) k (omega arith))) own.at_capacity full some_room
          (omega arith) run,
      put_chars-Owns own' source k (omega arith) clear small ds refl some_room there',
      put_chars-ends own' source k (omega arith) clear small,
      ends ∙ grown,
      head' ∙ head,
      SameFrom-trans s t (put_chars str source k t) heap_start heap_start (omega arith)
          (omega (arith, ends)) same
          (put_chars-SameOutside own' source k (omega arith) clear small),
    )
