-- ===== src/Str/Tests.antt =====
-- The theorems on string objects at a first object, made of three characters on an unused heap.
use rv32_emulator.Common.{ℕ, ◌+◌, ◌<◌, ◌≡◌, refl, inl, inr, arith, some, List, [], ◌∷◌, ◌++◌}
use rv32_emulator.Memory.Samples.{abc, texts, texts-IsBytes}
use rv32_emulator.Alloc.{Machine, null, heap_start}
use rv32_emulator.Alloc.Frame.{SameFrom, SameOutside}
use rv32_emulator.Alloc.Live.{IsFresh, IsLive}
use rv32_emulator.Memory.{store8}
use rv32_emulator.Str.{
  string_new_len, string_append_char, string_append_len, data_of, capacity_of, free_str,
}
use rv32_emulator.Str.Extend.{
  string_append_len-Owns, string_append_len-overrun, string_append_len-doubled,
}
use rv32_emulator.Str.Release.{Released, free_str-Released}
use rv32_emulator.Str.Owns.{Owns}
use rv32_emulator.Str.Append.{Room, string_append_char-Owns}
use rv32_emulator.Str.Create.{string_new_len-Owns}

-- Before the first allocation, with "abc" at 100.
abbrev start : Machine
start = record { bytes = texts; heap_end = 0; mem_head = null }

start-IsFresh : IsFresh start
start-IsFresh = record { are_bytes = texts-IsBytes; no_head = refl; no_end = refl }

-- The object that `string_new_len` makes of them.
abc-string :
    (t : Machine) × (string_new_len 2 100 3 start ≡ some (heap_start + 13, t))
    × Owns t (heap_start + 13) (heap_start + 41) 4 abc
    × (t.heap_end ≡ heap_start + 48)
    × SameFrom heap_start start t
    × (IsLive start → t.mem_head ≡ start.mem_head)
unfolding store8
abc-string =
    string_new_len-Owns 0 100 heap_start start abc (inr (start-IsFresh, refl)) (omega arith)
      (omega arith) (omega arith) (refl, (refl, (refl, tt)))

string_new_len-Owns_example :
    (t : Machine) × (string_new_len 2 100 2 start ≡ some (heap_start + 13, t))
    × Owns t (heap_start + 13) (heap_start + 41) 3 (b'a' ∷ b'b' ∷ [])
    × (t.heap_end ≡ heap_start + 47)
    × SameFrom heap_start start t
    × (IsLive start → t.mem_head ≡ start.mem_head)
unfolding store8
string_new_len-Owns_example =
    string_new_len-Owns 0 100 heap_start start (b'a' ∷ b'b' ∷ []) (inr (start-IsFresh, refl))
      (omega arith) (omega arith) (omega arith) (refl, (refl, tt))

string_append_char-Owns_example :
    (t : Machine) × (d : ℕ) × (cap : ℕ) × (string_append_char 2 (heap_start + 13) b'd' abc-string.0
      ≡ some t)
    × Owns t (heap_start + 13) d cap (abc ++ b'd' ∷ [])
    × (t.bytes (d + 4) ≡ 0)
    × (t.mem_head ≡ abc-string.0.mem_head)
    × Room abc-string.0 t 3 4 cap
string_append_char-Owns_example =
    string_append_char-Owns 0 (heap_start + 13) b'd' abc-string.0 abc-string.2 (omega arith)
      (λ full. omega (arith, abc-string.3))

abbrev abcd : List ℕ
abcd = abc ++ b'd' ∷ []

-- The object behind an append that doubled its capacity.
abcd-string : (t : Machine) × (d : ℕ) × Owns t (heap_start + 13) d 8 abcd
abcd-string =
    let (t, d, cap, run, own, ends, head, room) =
      string_append_char-Owns 0 (heap_start + 13) b'd' abc-string.0 abc-string.2 (omega arith)
        (λ full. omega (arith, abc-string.3)) in
    let doubled : cap ≡ 8 = omega (arith, room) in (t, d, rw doubled at own)

-- Its first two characters are appended to it.
string_append_len-Owns_example :
    (t : Machine) × (string_append_len 0 (heap_start + 13) abcd-string.1 2 abcd-string.0 ≡ some t)
    × Owns t (heap_start + 13) abcd-string.1 8 (abcd ++ b'a' ∷ b'b' ∷ [])
    × (t.bytes (abcd-string.1 + 6) ≡ 0)
string_append_len-Owns_example =
    string_append_len-Owns 0 (heap_start + 13) abcd-string.1 abcd-string.0 (b'a' ∷ b'b' ∷ [])
      abcd-string.2 (omega arith) (inr (omega arith))
      (omega (arith, abcd-string.2.placed, abcd-string.2.live.end_below))
      (abcd-string.2.spelled.0, (abcd-string.2.spelled.1.0, tt))

-- Five characters behind three, in a buffer of four.
string_append_len-overrun_example :
    (t : Machine) × (string_append_len 2 (heap_start + 13) 100 5 abc-string.0 ≡ some t)
    × (capacity_of t.bytes (heap_start + 13) ≡ 8)
    × (t.bytes (data_of t.bytes (heap_start + 13) + capacity_of t.bytes (heap_start + 13)) ≡ 0)
string_append_len-overrun_example =
    string_append_len-overrun 0 (heap_start + 13) 100 5 abc-string.0 abc-string.2 (omega arith)
      (omega (arith, abc-string.3)) (omega (arith, abc-string.3))

-- Four characters behind three, in a buffer of four.
string_append_len-doubled_example :
    (t : Machine) × (string_append_len 2 (heap_start + 13) 100 4 abc-string.0 ≡ some t)
    × Owns t (heap_start + 13) (abc-string.0.heap_end + 13) 8 (abc ++ abc ++ 0 ∷ [])
    × (t.bytes (abc-string.0.heap_end + 13 + 7) ≡ 0)
    × (t.heap_end ≡ abc-string.0.heap_end + 24)
    × (t.mem_head ≡ abc-string.0.mem_head)
    × SameOutside abc-string.0 t
unfolding store8
string_append_len-doubled_example =
    string_append_len-doubled 0 (heap_start + 13) 100 abc-string.0 (abc ++ 0 ∷ []) abc-string.2
      (omega arith) (omega arith) (omega (arith, abc-string.3)) (omega arith) (omega arith)
      (
        there 100 (omega arith),
        (there 101 (omega arith), (there 102 (omega arith), (there 103 (omega arith), tt))),
      )
  where
    there : (a : ℕ) → a < heap_start → abc-string.0.bytes a ≡ start.bytes a
    there a lt = abc-string.4 a (inl (omega arith))

free_str-Released_example :
    Released abc-string.0
      (free_str (heap_start + 13) abc-string.0)
      (heap_start + 13)
      (heap_start + 41)
free_str-Released_example = free_str-Released abc-string.2
