-- ===== src/Str.antt =====
-- The string objects of c_test/string.c (`struct string` of c_test/debug.h) on the heap. The fuel
-- is that of `malloc` and of `strlen`: `none` says that one of their loops did not end within it.
pub mod Fields
pub mod Spelled
pub mod Owns
pub mod Grow
pub mod Chars
pub mod Extend
pub mod Release
pub mod Append
pub mod Room
pub mod Create
mod Tests
use rv32_emulator.Common.{
  and_then, ℕ, ◌+◌, ◌*◌, ◌^◌, add32, u32, Bool, true, false, Option, none, some, ltb, leb, ◌==◌,
  if◌then◌else◌,
}
use rv32_emulator.Memory.{Bytes, store8, memcpy}
use rv32_emulator.Memory.Word.{load32, store32}
use rv32_emulator.Alloc.{Machine, null, malloc, free}
use rv32_emulator.CString.{strlen}

-- `data` at 0, `length` at 4, `capacity` at 8.
abbrev pub sizeof_string : ℕ
sizeof_string = 12

unfoldable pub data_of : Bytes → ℕ → ℕ
data_of m str = load32 m str

unfoldable pub length_of : Bytes → ℕ → ℕ
length_of m str = load32 m (add32 str 4)

unfoldable pub capacity_of : Bytes → ℕ → ℕ
capacity_of m str = load32 m (add32 str 8)

unfoldable pub set_data : ℕ → ℕ → Machine → Machine
set_data str v s = record s { bytes = store32 s.bytes str v }

unfoldable pub set_length : ℕ → ℕ → Machine → Machine
set_length str v s = record s { bytes = store32 s.bytes (add32 str 4) v }

unfoldable pub set_capacity : ℕ → ℕ → Machine → Machine
set_capacity str v s = record s { bytes = store32 s.bytes (add32 str 8) v }

-- `memcpy` and a byte store on the machine.
abbrev pub copy_bytes : (dest src n : ℕ) → Machine → Machine
copy_bytes dest src n s = record s { bytes = (memcpy dest src n s.bytes).1 }

abbrev pub put_byte : (p v : ℕ) → Machine → Machine
put_byte p v s = record s { bytes = store8 s.bytes p v }

-- Behind the second `malloc` of `string_new_len`; `d` is what it returned.
unfoldable pub fill_new : (str d source length : ℕ) → Machine → ℕ × Machine
fill_new str d source length s =
    let s1 = set_data str d s in
    if data_of s1.bytes str == null then (null, free str s1) else (
      str,
      set_capacity str (add32 length 1)
          (set_length str length (copy_bytes (data_of s1.bytes str) source length s1)),
    )

unfoldable pub string_new_len : (fuel source length : ℕ) → Machine → Option (ℕ × Machine)
string_new_len fuel source length s = and_then (malloc fuel sizeof_string s) λ (str, s1).
    if str == null
    then some (null, s1)
    else and_then (malloc fuel (add32 length 1) s1)
        λ (d, s2). some (fill_new str d source length s2)

unfoldable pub string_new : (fuel source : ℕ) → Machine → Option (ℕ × Machine)
string_new fuel source s = and_then (strlen fuel source s.bytes) λ n. string_new_len fuel source n s

-- Behind the `malloc` of `string_grow`.
unfoldable pub move_data : (str new_data new_capacity : ℕ) → Machine → Machine
move_data str new_data new_capacity s =
    if new_data == null
    then s
    else let s1 = copy_bytes new_data (data_of s.bytes str) (length_of s.bytes str) s in
      let s2 = free (data_of s1.bytes str) s1 in
      set_capacity str new_capacity (set_data str new_data s2)

unfoldable pub string_grow : (fuel str new_capacity : ℕ) → Machine → Option Machine
string_grow fuel str new_capacity s =
    if leb new_capacity (capacity_of s.bytes str)
    then some s
    else and_then (malloc fuel new_capacity s) λ (d, s1). some (move_data str d new_capacity s1)

unfoldable pub string_shrink : (fuel str : ℕ) → Machine → Option Machine
string_shrink fuel str s = string_grow fuel str (add32 (length_of s.bytes str) 1) s

unfoldable pub string_copy : (fuel str : ℕ) → Machine → Option (ℕ × Machine)
string_copy fuel str s = string_new_len fuel (data_of s.bytes str) (length_of s.bytes str) s

-- Twice the capacity, or `needed` if that is more.
unfoldable pub next_capacity : (capacity needed : ℕ) → ℕ
next_capacity capacity needed =
    if ltb (u32 (capacity * 2)) needed then needed else u32 (capacity * 2)

-- The start of both functions that append: room for `n` more characters.
unfoldable pub make_room : (fuel str n : ℕ) → Machine → Option Machine
make_room fuel str n s =
    let needed = add32 (length_of s.bytes str) n in
    if leb (capacity_of s.bytes str) needed
    then string_grow fuel str (next_capacity (capacity_of s.bytes str) needed) s
    else some s

-- `str->data[str->length] = '\0'`
unfoldable pub terminate : ℕ → Machine → Machine
terminate str s = put_byte (add32 (data_of s.bytes str) (length_of s.bytes str)) 0 s

unfoldable pub put_chars : (str source n : ℕ) → Machine → Machine
put_chars str source n s =
    let s1 = copy_bytes (add32 (data_of s.bytes str) (length_of s.bytes str)) source n s in
    terminate str (set_length str (add32 (length_of s1.bytes str) n) s1)

unfoldable pub string_append_len : (fuel str source n : ℕ) → Machine → Option Machine
string_append_len fuel str source n s =
    and_then (make_room fuel str n s) λ s1. some (put_chars str source n s1)

unfoldable pub string_append : (fuel str source : ℕ) → Machine → Option Machine
string_append fuel str source s =
    and_then (strlen fuel source s.bytes) λ n. string_append_len fuel str source n s

unfoldable pub put_char : (str c : ℕ) → Machine → Machine
put_char str c s =
    let s1 = put_byte (add32 (data_of s.bytes str) (length_of s.bytes str)) c s in
    terminate str (set_length str (add32 (length_of s1.bytes str) 1) s1)

unfoldable pub string_append_char : (fuel str c : ℕ) → Machine → Option Machine
string_append_char fuel str c s = and_then (make_room fuel str 1 s) λ s1. some (put_char str c s1)

unfoldable pub string_data : (fuel str : ℕ) → Machine → Option (ℕ × Machine)
string_data fuel str s =
    and_then (string_append_char fuel str 0 s) λ s1. some (data_of s1.bytes str, s1)

unfoldable pub free_str : ℕ → Machine → Machine
free_str str s = free str (free (data_of s.bytes str) s)
