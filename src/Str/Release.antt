-- ===== src/Str/Release.antt =====
-- `free_str`, and what a string object does not notice.
use rv32_emulator.Common.{ℕ, ◌-◌, ◌≤◌, ◌<◌, ◌≡◌, ◌∙◌, ◌⊎◌, arith, List}
use rv32_emulator.Alloc.{Machine, free}
use rv32_emulator.Alloc.Live.{IsLive}
use rv32_emulator.Alloc.Frame.{IsBlock, free-IsLive, free-kept, free-ends}
use rv32_emulator.Str.{free_str}
use rv32_emulator.Str.Fields.{Inside, data_of_ext, length_of_ext, capacity_of_ext}
use rv32_emulator.Str.Spelled.{Spelled-ext}
use rv32_emulator.Str.Owns.{Owns}

-- The object does not notice what happens below it.
pub Owns-above :
    {s : Machine} {str d cap : ℕ} {cs : List ℕ} (t : Machine)
    → Owns s str d cap cs
    → IsLive t
    → t.mem_head ≡ s.mem_head
    → t.heap_end ≡ s.heap_end
    → ((a : ℕ) → str ≤ a → t.bytes a ≡ s.bytes a)
    → Owns t str d cap cs
Owns-above {s} {str} {d} {cap} {cs} t own live head end_at same = record {
  live = live;
  str_placed = omega (arith, own.str_placed);
  apart = own.apart;
  placed = omega (arith, own.placed);
  room = own.room;
  at_data = data_of_ext str inside s.bytes t.bytes (λ a lo hi. same a lo) ∙ own.at_data;
  at_length =
      length_of_ext str inside s.bytes t.bytes (λ a lo hi. same a (omega arith)) ∙ own.at_length;
  at_capacity =
      capacity_of_ext str inside s.bytes t.bytes (λ a lo hi. same a (omega arith))
      ∙ own.at_capacity;
  spelled =
      Spelled-ext s.bytes t.bytes d cs (λ a lo hi. same a (omega (arith, own.apart))) own.spelled;
}
  where
    inside : Inside str
    inside = omega (arith, own.apart, own.placed, own.live.end_below)

-- What `free_str` leaves: a live heap of the same extent, with no byte changed below the object or
-- from the end of its buffer's header on.
pub record Released (s t : Machine) (str d : ℕ) : Type 0 where
  pub live : IsLive t
  pub same_end : t.heap_end ≡ s.heap_end
  pub same_head : t.mem_head ≡ s.mem_head
  pub kept : (a : ℕ) → (a < str - 4) ⊎ (d ≤ a) → t.bytes a ≡ s.bytes a

-- Releasing a well-formed string object keeps the heap live, and writes one byte in front of each of
-- its two blocks.
pub free_str-Released :
    {s : Machine} {str d cap : ℕ} {cs : List ℕ}
    → Owns s str d cap cs
    → Released s (free_str str s) str d
unfolding free_str
free_str-Released {s} {str} {d} own =
    let buffer : IsBlock d s = omega (arith, own.str_placed, own.apart, own.placed) in
    let live1 = free-IsLive d s own.live buffer in
    let (end1, head1) = free-ends d s own.live buffer in
    let object : IsBlock str (free d s) = omega (arith, own.str_placed, own.apart, own.placed) in
    let (end2, head2) = free-ends str (free d s) live1 object in
    rw (own.at_data) (record {
      live = free-IsLive str (free d s) live1 object;
      same_end = end2 ∙ end1;
      same_head = head2 ∙ head1;
      kept = λ a out.
          free-kept str (free d s) live1 object a
            (omega (arith, own.apart, own.str_placed, own.live.head_above))
          ∙ free-kept d s own.live buffer a
              (omega (arith, own.apart, own.str_placed, own.live.head_above));
    })
