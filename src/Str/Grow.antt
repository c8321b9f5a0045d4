-- ===== src/Str/Grow.antt =====
-- `string_grow` moves the characters of a string object to a larger block.
use rv32_emulator.Common.{
  ℕ, suc, ◌+◌, ◌-◌, ◌≤◌, ◌<◌, ◌≡◌, ◌≢◌, refl, ◌∙◌, ap, ◌⊎◌, inl, inr, arith, some, List, length,
  if◌then◌else◌,
}
use rv32_emulator.Memory.Range.{IsBytes, within, store8-IsBytes, store8_byte}
use rv32_emulator.Memory.Copy.{memcpy_lem}
use rv32_emulator.Memory.Word.{store32-IsBytes}
use rv32_emulator.Alloc.{Machine, heap_limit, free}
use rv32_emulator.Alloc.Frame.{SameOutside}
use rv32_emulator.Alloc.Live.{IsLive, bumped, malloc-bumped, bumped-IsLive}
use rv32_emulator.Alloc.Block.{init_block-outside}
use rv32_emulator.Alloc.Free.{free-data}
use rv32_emulator.Str.{
  data_of, set_data, set_capacity, copy_bytes, put_byte, move_data, string_grow,
}
use rv32_emulator.Str.Fields.{
  Inside, SameOn, data_of_ext, length_of_ext, capacity_of_ext, set_data-outside,
  set_capacity-outside, data_of-set_data, capacity_of-set_capacity,
}
use rv32_emulator.Str.Owns.{Owns, IsLive-ext}
use rv32_emulator.Str.Spelled.{Spelled-ext, Spelled-shift}

-- The object does not notice what happens behind the old end of the heap.
pub Owns_ext :
    {s : Machine} {str d cap : ℕ} {cs : List ℕ} (t : Machine)
    → Owns s str d cap cs
    → IsLive t
    → t.mem_head ≡ s.mem_head
    → s.heap_end ≤ t.heap_end
    → ((a : ℕ) → a < s.heap_end → t.bytes a ≡ s.bytes a)
    → Owns t str d cap cs
Owns_ext {s} {str} {d} {cap} {cs} t own live head grown same = record {
  live = live;
  str_placed = omega (arith, own.str_placed);
  apart = own.apart;
  placed = omega (arith, own.placed);
  room = own.room;
  at_data = data_of_ext str inside s.bytes t.bytes below ∙ own.at_data;
  at_length =
      length_of_ext str inside s.bytes t.bytes
        (λ a lo hi. same a (omega (arith, own.apart, own.placed)))
      ∙ own.at_length;
  at_capacity =
      capacity_of_ext str inside s.bytes t.bytes
        (λ a lo hi. same a (omega (arith, own.apart, own.placed)))
      ∙ own.at_capacity;
  spelled =
      Spelled-ext s.bytes t.bytes d cs (λ a lo hi. same a (omega (arith, own.placed, own.room)))
        own.spelled;
}
  where
    inside : Inside str
    inside = omega (arith, own.apart, own.placed, own.live.end_below)

    below : SameOn str (str + 4) s.bytes t.bytes
    below = λ a lo hi. same a (omega (arith, own.apart, own.placed))

module _ {s : Machine} {str d cap : ℕ} {cs : List ℕ} (own : Owns s str d cap cs) (p new_cap : ℕ)
    (behind : d + cap + 16 ≤ p) (fits : p + new_cap + 3 ≤ s.heap_end) (larger : cap < new_cap) where
  abbrev n : ℕ
  n = length cs

  inside : Inside str
  inside = omega (arith, own.apart, own.placed, own.live.end_below)

  abbrev copied : Machine
  copied = copy_bytes p d n s

  abbrev released : Machine
  released = put_byte (d - 13 + 9) 1 copied

  abbrev moved : Machine
  moved = set_capacity str new_cap (set_data str p released)

  copied-at : (a : ℕ) → copied.bytes a ≡ (if within p n a then s.bytes (d + (a - p)) else s.bytes a)
  copied-at a =
      (memcpy_lem p d n s.bytes own.live.are_bytes (omega (arith, own.live.end_below, own.room))
          (omega (arith, own.live.end_below, own.room)) (inr (omega (arith, own.room)))).1
        a

  released-at : (a : ℕ) → a ≢ d - 4 → released.bytes a ≡ copied.bytes a
  released-at a ne =
      store8_byte copied.bytes (d - 13 + 9) 1 a (omega arith)
      ∙ ground (arith, own.apart, own.str_placed, own.live.head_above)

  data_of-copied : data_of copied.bytes str ≡ d
  data_of-copied =
      data_of_ext str inside s.bytes copied.bytes
        (λ a lo hi. copied-at a ∙ ground (arith, own.apart))
      ∙ own.at_data

  free-copied : free d copied ≡ released
  free-copied =
      let e : d ≡ d - 13 + 13 = omega (arith, own.apart) in
      ap (λ (q : ℕ). free q copied) e
      ∙ free-data (d - 13) copied (omega (arith, own.apart, own.str_placed, own.live.head_above))
          (omega (arith, own.placed, own.live.end_below))

  move_data-eq : move_data str p new_cap s ≡ moved
  unfolding move_data
  move_data-eq =
      rw (own.at_data, own.at_length)
        (rw data_of-copied (rw free-copied (ground (arith, own.apart))))

  -- Bytes that no step of the move writes.
  moved-at :
      (a : ℕ)
      → (a < str) ⊎ (str + 4 ≤ a)
      → (a < str + 8) ⊎ (str + 12 ≤ a)
      → a ≢ d - 4
      → moved.bytes a ≡ copied.bytes a
  moved-at a out out' ne =
      set_capacity-outside str inside new_cap _ a out'
      ∙ set_data-outside str inside p released a out
      ∙ released-at a ne

  moved-IsLive : IsLive moved
  unfolding set_capacity set_data
  moved-IsLive =
      IsLive-ext s moved own.live refl refl
        (store32-IsBytes _ _ _ (store32-IsBytes _ _ _ (store8-IsBytes _ _ _ copied-IsBytes)))
        (λ a lo hi.
          moved-at a (omega (arith, own.str_placed)) (omega (arith, own.str_placed))
            (omega (arith, own.str_placed, own.apart))
          ∙ copied-at a
          ∙ ground (arith, own.str_placed, own.apart))
    where
      copied-IsBytes : IsBytes copied.bytes
      copied-IsBytes a =
          rw (copied-at a) (ground (arith, own.live.are_bytes a, own.live.are_bytes (d + (a - p))))

  pub move_data-Owns : Owns (move_data str p new_cap s) str p new_cap cs
  unfolding set_capacity set_data
  move_data-Owns = rw move_data-eq (record {
    live = moved-IsLive;
    str_placed = own.str_placed;
    apart = omega (arith, own.apart);
    placed = fits;
    room = omega (arith, own.room);
    at_data =
        data_of_ext str inside (set_data str p released).bytes moved.bytes (λ a lo hi.
          set_capacity-outside str inside new_cap (set_data str p released) a (omega arith))
        ∙ data_of-set_data str inside p released (omega (arith, own.live.end_below));
    at_length =
        length_of_ext str inside s.bytes moved.bytes (λ a lo hi.
          moved-at a (omega arith) (omega arith) (omega (arith, own.apart))
          ∙ copied-at a
          ∙ ground (arith, own.apart))
        ∙ own.at_length;
    at_capacity =
        capacity_of-set_capacity str inside new_cap (set_data str p released)
          (omega (arith, own.live.end_below));
    spelled = Spelled-shift d p cs s.bytes moved.bytes moved_char own.spelled;
  })
    where
      moved_char : (i : ℕ) → i < length cs → moved.bytes (p + i) ≡ s.bytes (d + i)
      moved_char i lt =
          moved-at (p + i) (omega (arith, own.apart)) (omega (arith, own.apart))
            (omega (arith, own.apart))
          ∙ copied-at (p + i)
          ∙ ground arith

  -- Nothing is written but two fields, the new place, and the mark of the old one.
  pub move_data-kept :
      (a : ℕ) → (a < str) ⊎ (p + n ≤ a) → (move_data str p new_cap s).bytes a ≡ s.bytes a
  move_data-kept a out = rw move_data-eq (
      moved-at a (omega (arith, own.apart)) (omega (arith, own.apart)) (omega (arith, own.apart))
      ∙ copied-at a
      ∙ ground (arith, own.apart))

  pub move_data-heap_end : (move_data str p new_cap s).heap_end ≡ s.heap_end
  move_data-heap_end = rw move_data-eq (unfold set_capacity set_data in refl)

  pub move_data-mem_head : (move_data str p new_cap s).mem_head ≡ s.mem_head
  move_data-mem_head = rw move_data-eq (unfold set_capacity set_data in refl)

-- Where the heap has room for the new block, `string_grow` to a larger capacity keeps the string:
-- the object holds the same characters in the new capacity, at the new end of the heap, and no byte
-- outside the heap has changed.
pub string_grow-Owns :
    (fuel str new_cap : ℕ) (s : Machine) {d cap : ℕ} {cs : List ℕ}
    → Owns s str d cap cs
    → cap < new_cap
    → s.heap_end + (16 + new_cap) < heap_limit
    → (t : Machine) × (string_grow (suc (suc fuel)) str new_cap s ≡ some t)
      × Owns t str (s.heap_end + 13) new_cap cs
      × (t.heap_end ≡ s.heap_end + (16 + new_cap))
      × (t.mem_head ≡ s.mem_head)
      × SameOutside s t
unfolding string_grow
string_grow-Owns fuel str new_cap s {d} {cap} {cs} own larger fits =
    let b = bumped s.heap_end new_cap s in
    let p = s.heap_end + 13 in
    let own' : Owns b str d cap cs =
      Owns_ext b own (bumped-IsLive fuel new_cap s own.live fits) refl (omega arith)
        (λ a lt. init_block-outside s.bytes s.heap_end new_cap (omega arith) a (inl lt)) in
    let behind : d + cap + 16 ≤ p = omega (arith, own.placed) in
    let inside : p + new_cap + 3 ≤ b.heap_end = omega arith in
    (
      move_data str p new_cap b,
      rw (own.at_capacity) (rw (malloc-bumped fuel new_cap s own.live fits) (ground arith)),
      move_data-Owns own' p new_cap behind inside larger,
      move_data-heap_end own' p new_cap behind inside larger,
      move_data-mem_head own' p new_cap behind inside larger,
      λ a out.
          let ends = move_data-heap_end own' p new_cap behind inside larger in
          move_data-kept own' p new_cap behind inside larger a
            (omega (arith, ends, own.str_placed, own.live.head_above, own.room))
          ∙ init_block-outside s.bytes s.heap_end new_cap (omega arith) a
              (omega (arith, ends, own.live.head_above, own.live.head_below)),
    )
