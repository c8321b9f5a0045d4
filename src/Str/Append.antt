-- ===== src/Str/Append.antt =====
-- `string_append_char` and `string_shrink`.
use rv32_emulator.Common.{
  ℕ, suc, ◌+◌, ◌*◌, ◌^◌, ◌≤◌, ◌<◌, ◌≡◌, refl, ◌∙◌, ◌⊎◌, inl, inr, arith, add32, add32-eq, u32, some,
  Bool-cases, leb, List, [], ◌∷◌, ◌++◌, length,
}
use rv32_emulator.Alloc.{Machine, heap_limit}
use rv32_emulator.Str.{
  length_of, capacity_of, next_capacity, make_room, put_char, string_grow, string_shrink,
  string_append_char,
}
use rv32_emulator.Str.Owns.{
  Owns, put_char-Owns, put_char-ends, put_char-heap_end, put_char-mem_head,
}
use rv32_emulator.Str.Grow.{string_grow-Owns}

-- How the object's room and the heap change by an append: nothing is taken, or the capacity is
-- doubled in a new block.
abbrev pub Room : (s t : Machine) → (n cap cap' : ℕ) → Type 0
Room s t n cap cap' =
    ((n + 1 < cap) × (cap' ≡ cap) × (t.heap_end ≡ s.heap_end))
    ⊎ ((n + 1 ≡ cap) × (cap' ≡ cap * 2) × (t.heap_end ≡ s.heap_end + (16 + cap * 2)))

make_room-Owns :
    (fuel str : ℕ) (s : Machine) {d cap : ℕ} {cs : List ℕ}
    → Owns s str d cap cs
    → (length cs + 1 ≡ cap → s.heap_end + (16 + cap * 2) < heap_limit)
    → (t : Machine) × (d' : ℕ) × (cap' : ℕ) × (make_room (suc (suc fuel)) str 1 s ≡ some t)
      × Owns t str d' cap' cs
      × (length cs + 1 < cap')
      × (t.mem_head ≡ s.mem_head)
      × Room s t (length cs) cap cap'
unfolding make_room next_capacity
make_room-Owns fuel str s {d} {cap} {cs} own fits =
    let n = length cs in
    let word : add32 n 1 ≡ n + 1 =
      add32-eq n 1 (omega (arith, own.room, own.placed, own.live.end_below)) in
    rw (own.at_length, own.at_capacity)
      (rw word (elim (Bool-cases (leb cap (n + 1))) [
        | inr enough ↦ (
          s,
          d,
          cap,
          ground (arith, enough),
          own,
          ground arith,
          refl,
          inl (ground arith, refl, refl),
        )
        | inl full ↦
            let last : n + 1 ≡ cap = ground (arith, own.room) in
            let enough = fits last in
            let (t, run, own', grown, head, _) =
              string_grow-Owns fuel str (cap * 2) s own (omega (arith, own.room)) enough in
            let wide : u32 (cap * 2) ≡ cap * 2 = omega arith in
            (
              t,
              s.heap_end + 13,
              cap * 2,
              rw wide (ground (arith, run)),
              own',
              omega arith,
              head,
              inr (last, refl, grown),
            )
      ]))

-- Appending a byte to a well-formed string object, in a live heap that has room for a block of
-- twice its capacity if the object is full, succeeds: the object then holds the old characters followed by the new one, with a
-- terminator behind them, is well-formed and its heap live. Its capacity stays, or, where the new
-- character and the terminator do not fit, is doubled in a new block. Two rounds of the walk of
-- `malloc` are enough.
pub string_append_char-Owns :
    (fuel str c : ℕ) (s : Machine) {d cap : ℕ} {cs : List ℕ}
    → Owns s str d cap cs
    → c < 256
    → (length cs + 1 ≡ cap → s.heap_end + (16 + cap * 2) < heap_limit)
    → (t : Machine) × (d' : ℕ) × (cap' : ℕ) × (string_append_char (suc (suc fuel)) str c s ≡ some t)
      × Owns t str d' cap' (cs ++ c ∷ [])
      × (t.bytes (d' + (length cs + 1)) ≡ 0)
      × (t.mem_head ≡ s.mem_head)
      × Room s t (length cs) cap cap'
unfolding string_append_char
string_append_char-Owns fuel str c s own small fits =
    let (t, d', cap', run, own', more, head, room) = make_room-Owns fuel str s own fits in
    (
      put_char str c t,
      d',
      cap',
      rw run refl,
      put_char-Owns own' more c small,
      put_char-ends own' more c small,
      put_char-mem_head own' more c small ∙ head,
      rw (put_char-heap_end own' more c small) room,
    )

-- `string_shrink` of a string object whose capacity exceeds its length, as in every well-formed
-- one, changes nothing: it gives no memory back.
pub string_shrink_lem :
    (fuel str : ℕ) (s : Machine)
    → length_of s.bytes str + 1 < 2 ^ 32
    → length_of s.bytes str + 1 ≤ capacity_of s.bytes str
    → string_shrink fuel str s ≡ some s
unfolding string_shrink string_grow
string_shrink_lem fuel str s word within =
    rw (add32-eq (length_of s.bytes str) 1 word) (ground arith)
