-- ===== src/Str/Owns.antt =====
-- A well-formed string object in a live heap, and what it holds.
use rv32_emulator.Common.{
  ℕ, ◌+◌, ◌≤◌, ◌<◌, ◌≡◌, ◌≢◌, refl, ◌∙◌, ◌⊎◌, arith, add32, add32-eq, List, [], ◌∷◌, ◌++◌, length,
  length-append,
}
use rv32_emulator.Memory.Range.{IsBytes, store8-IsBytes, store8_byte}
use rv32_emulator.Memory.Word.{store32-IsBytes}
use rv32_emulator.Alloc.{Machine}
use rv32_emulator.Alloc.Block.{get_next_ext, is_free_ext}
use rv32_emulator.Alloc.Live.{IsLive}
use rv32_emulator.Str.{data_of, length_of, capacity_of, set_length, put_byte, terminate, put_char}
use rv32_emulator.Str.Fields.{
  Inside, SameOn, data_of_ext, length_of_ext, capacity_of_ext, set_length-outside,
  length_of-set_length,
}
use rv32_emulator.Str.Spelled.{Spelled, Spelled-ext, Spelled-append}

-- The object at `str` holds `cs` in the `cap` bytes at `d`, with room for a terminator; it lies in
-- the heap clear of the header of the first block, and the header of its data lies behind it.
pub record Owns (s : Machine) (str d cap : ℕ) (cs : List ℕ) : Type 0 where
  pub live : IsLive s
  pub str_placed : (str ≡ s.mem_head + 13) ⊎ (s.mem_head + 29 ≤ str)
  pub apart : str + 16 ≤ d
  pub placed : d + cap + 3 ≤ s.heap_end
  pub room : length cs + 1 ≤ cap
  pub at_data : data_of s.bytes str ≡ d
  pub at_length : length_of s.bytes str ≡ length cs
  pub at_capacity : capacity_of s.bytes str ≡ cap
  pub spelled : Spelled s.bytes d cs

pub IsLive-ext :
    (s t : Machine)
    → IsLive s
    → t.heap_end ≡ s.heap_end
    → t.mem_head ≡ s.mem_head
    → IsBytes t.bytes
    → SameOn s.mem_head (s.mem_head + 13) s.bytes t.bytes
    → IsLive t
IsLive-ext s t live e h bytes same = record {
  are_bytes = bytes;
  head_above = omega (arith, live.head_above);
  head_below = omega (arith, live.head_below);
  end_below = omega (arith, live.end_below);
  alone = rw h (
      get_next_ext s.bytes s.mem_head (omega (arith, live.head_below, live.end_below)) t.bytes
        (λ a lo hi. same a lo (omega arith))
      ∙ live.alone);
  in_use = rw h (
      is_free_ext s.bytes s.mem_head (omega (arith, live.head_below, live.end_below)) t.bytes
        (same (s.mem_head + 12) (omega arith) (omega arith))
      ∙ live.in_use);
}

set_length-IsBytes :
    (str v : ℕ) (s : Machine) → IsBytes s.bytes → IsBytes (set_length str v s).bytes
unfolding set_length
set_length-IsBytes str v s h = store32-IsBytes s.bytes (add32 str 4) v h

-- The assignments of an append, with the addresses that they have.
abbrev appended : (str d n c : ℕ) → Machine → Machine
appended str d n c s = put_byte (d + n + 1) 0 (set_length str (n + 1) (put_byte (d + n) c s))

module _ {s : Machine} {str d cap : ℕ} {cs : List ℕ} (own : Owns s str d cap cs)
    (more : length cs + 1 < cap) (c : ℕ) (small : c < 256) where
  abbrev n : ℕ
  n = length cs

  inside : Inside str
  inside = omega (arith, own.apart, own.placed, own.live.end_below)

  -- Bytes outside the length field and the two new ones.
  kept :
      (a : ℕ)
      → (a < str + 4) ⊎ (str + 8 ≤ a)
      → a ≢ d + n
      → a ≢ d + n + 1
      → (appended str d n c s).bytes a ≡ s.bytes a
  kept a out ne ne' =
      store8_byte _ (d + n + 1) 0 a (omega arith)
      ∙ (ground arith)
      ∙ set_length-outside str inside (n + 1) (put_byte (d + n) c s) a out
      ∙ store8_byte s.bytes (d + n) c a small
      ∙ (ground arith)

  abbrev with_char : Machine
  with_char = put_byte (d + n) c s

  abbrev with_length : Machine
  with_length = set_length str (n + 1) with_char

  char_kept : (a : ℕ) → a ≢ d + n → with_char.bytes a ≡ s.bytes a
  char_kept a ne = store8_byte s.bytes (d + n) c a small ∙ ground arith

  length_kept :
      (a : ℕ) → (a < str + 4) ⊎ (str + 8 ≤ a) → a ≢ d + n → with_length.bytes a ≡ s.bytes a
  length_kept a out ne = set_length-outside str inside (n + 1) with_char a out ∙ char_kept a ne

  length_of-with_char : length_of with_char.bytes str ≡ n
  length_of-with_char =
      length_of_ext str inside s.bytes with_char.bytes
        (λ a lo hi. char_kept a (omega (arith, own.apart)))
      ∙ own.at_length

  data_of-with_length : data_of with_length.bytes str ≡ d
  data_of-with_length =
      data_of_ext str inside s.bytes with_length.bytes
        (λ a lo hi. length_kept a (omega arith) (omega (arith, own.apart)))
      ∙ own.at_data

  length_of-with_length : length_of with_length.bytes str ≡ n + 1
  length_of-with_length =
      length_of-set_length str inside (n + 1) with_char
        (omega (arith, own.placed, own.live.end_below))

  put_char-eq : put_char str c s ≡ appended str d n c s
  unfolding put_char terminate
  put_char-eq =
      let bound = own.live.end_below in
      let e : d + (n + 1) ≡ d + n + 1 = omega arith in
      rw (own.at_data, own.at_length)
        (rw (add32-eq d n (omega (arith, own.placed))) (
          rw length_of-with_char (
            rw (add32-eq n 1 (omega (arith, own.placed))) (
              rw (data_of-with_length, length_of-with_length)
                (rw (add32-eq d (n + 1) (omega (arith, own.placed))) (rw e))))))

  appended-IsLive : IsLive (appended str d n c s)
  unfolding set_length
  appended-IsLive =
      IsLive-ext s (appended str d n c s) own.live refl refl
        (store8-IsBytes _ _ _
          (store32-IsBytes _ _ _ (store8-IsBytes s.bytes (d + n) c own.live.are_bytes)))
        (λ a lo hi.
          kept a (omega (arith, own.str_placed)) (omega (arith, own.str_placed, own.apart))
            (omega (arith, own.str_placed, own.apart)))

  pub put_char-Owns : Owns (put_char str c s) str d cap (cs ++ c ∷ [])
  unfolding set_length
  put_char-Owns = rw put_char-eq (record {
    live = appended-IsLive;
    str_placed = own.str_placed;
    apart = own.apart;
    placed = own.placed;
    room = omega (arith, length-append cs (c ∷ []));
    at_data =
        data_of_ext str inside s.bytes _
          (λ a lo hi. kept a (omega arith) (omega (arith, own.apart)) (omega (arith, own.apart)))
        ∙ own.at_data;
    at_length =
        length_of_ext str inside with_length.bytes _
          (λ a lo hi. store8_byte _ (d + n + 1) 0 a (omega arith) ∙ ground (arith, own.apart))
        ∙ length_of-with_length
        ∙ omega (arith, length-append cs (c ∷ []));
    at_capacity =
        capacity_of_ext str inside s.bytes _
          (λ a lo hi. kept a (omega arith) (omega (arith, own.apart)) (omega (arith, own.apart)))
        ∙ own.at_capacity;
    spelled =
        Spelled-append _ d cs (c ∷ [])
          (Spelled-ext s.bytes _ d cs
            (λ a lo hi. kept a (omega (arith, own.apart)) (omega arith) (omega arith)) own.spelled)
          (last, tt);
  })
    where
      last : (appended str d n c s).bytes (d + n) ≡ c
      last =
          store8_byte _ (d + n + 1) 0 (d + n) (omega arith)
          ∙ ground arith
          ∙ set_length-outside str inside (n + 1) with_char (d + n) (omega (arith, own.apart))
          ∙ store8_byte s.bytes (d + n) c (d + n) small
          ∙ ground arith

  -- The terminator behind the new character.
  pub put_char-ends : (put_char str c s).bytes (d + (n + 1)) ≡ 0
  put_char-ends =
      rw put_char-eq (store8_byte _ (d + n + 1) 0 (d + (n + 1)) (omega arith) ∙ ground arith)

  pub put_char-heap_end : (put_char str c s).heap_end ≡ s.heap_end
  unfolding put_char terminate set_length
  put_char-heap_end = refl

  pub put_char-mem_head : (put_char str c s).mem_head ≡ s.mem_head
  unfolding put_char terminate set_length
  put_char-mem_head = refl
