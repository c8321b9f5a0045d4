-- ===== src/Mtest.antt =====
-- c_test/mtest.c: the program that tries the allocator and the string objects. Each scope of `main`
-- is a function that takes what follows it; the printed texts are left out but for the pointers that
-- are printed as strings. The fuel is that of `malloc`, `strlen` and `debug_heap`.
pub mod Runs
pub mod Text
pub mod Scopes
pub mod Objects
pub mod Pairs
pub mod Main
mod Tests
use rv32_emulator.Common.{
  and_then, ℕ, Option, none, some, List, [], ◌∷◌, Bool, true, false, ◌==◌, if◌then◌else◌,
}
use rv32_emulator.Memory.{Bytes}
use rv32_emulator.Alloc.{Machine, null, malloc, calloc, free}
use rv32_emulator.Alloc.Report.{debug_heap}
use rv32_emulator.CString.{strlen}
use rv32_emulator.Str.{data_of, copy_bytes, string_new_len, string_new, string_append, free_str}

-- `printf("\t%s\n", p)`: the pointer, and the memory from which it is printed.
pub record Shown : Type 0 where
  pub pointer : ℕ
  pub memory : Bytes

-- How `main` ends: its result, what it has shown, the first first, and the machine.
pub record Ended : Type 0 where
  pub status : ℕ
  pub shown : List Shown
  pub machine : Machine

abbrev pub Rest : Type 0
Rest = Machine → Option Ended

unfoldable pub show : (p : ℕ) → Machine → Option Ended → Option Ended
show p s rest =
    and_then rest
      λ r. some (record r { shown = record { pointer = p; memory = s.bytes } ∷ r.shown })

-- `return 1;`
abbrev pub failure : Machine → Option Ended
failure s = some (record { status = 1; shown = []; machine = s })

-- `memcpy(str, test, strlen(test))`, the print of `str`, and `free(str)`.
unfoldable pub fill_and_free : (fuel str test : ℕ) → Rest → Rest
unfolding show
fill_and_free fuel str test rest s =
    and_then (strlen fuel test s.bytes)
      λ n. let s' = copy_bytes str test n s in show str s' (rest (free str s'))

unfoldable pub malloc_test : (fuel test : ℕ) → Rest → Rest
malloc_test fuel test rest s =
    and_then (malloc fuel 40 s)
      λ (str, s1). if str == null then failure s1 else fill_and_free fuel str test rest s1

unfoldable pub calloc_test : (fuel test : ℕ) → Rest → Rest
calloc_test fuel test rest s =
    and_then (calloc fuel 11 1 s)
      λ (str, s1). if str == null then failure s1 else fill_and_free fuel str test rest s1

-- The print of `str->data`, and `free_str(str)`.
unfoldable pub show_and_free : (str : ℕ) → Rest → Rest
unfolding show
show_and_free str rest s = show (data_of s.bytes str) s (rest (free_str str s))

unfoldable pub string_test : (fuel text : ℕ) → Rest → Rest
string_test fuel text rest s =
    and_then (string_new fuel text s)
      λ (str, s1). if str == null then failure s1 else show_and_free str rest s1

unfoldable pub string_new_len_test : (fuel test : ℕ) → Rest → Rest
string_new_len_test fuel test rest s =
    and_then (strlen fuel test s.bytes)
      λ n. and_then (string_new_len fuel test n s) λ (str, s1). show_and_free str rest s1

unfoldable pub array_test : (fuel text0 text1 : ℕ) → Rest → Rest
unfolding show
array_test fuel text0 text1 rest s = and_then (string_new fuel text0 s) λ (str0, s1).
    and_then (string_new fuel text1 s1) λ (str1, s2).
      show (data_of s2.bytes str0) s2
        (show (data_of s2.bytes str1) s2 (rest (free_str str1 (free_str str0 s2))))

unfoldable pub append_test : (fuel text more : ℕ) → Rest → Rest
unfolding show
append_test fuel text more rest s = and_then (string_new fuel text s) λ (str, s1).
    show (data_of s1.bytes str) s1
      (and_then (string_append fuel str more s1) λ s2. show_and_free str rest s2)

-- `debug_heap(); return 0;`
unfoldable pub finish : (fuel : ℕ) → Rest
finish fuel s =
    and_then (debug_heap fuel s) λ report. some (record { status = 0; shown = []; machine = s })

-- The addresses of the literals, in the order in which they are used.
pub record Literals : Type 0 where
  pub hey_there : ℕ
  pub hey_where : ℕ
  pub doom : ℕ
  pub test_text : ℕ
  pub have_you : ℕ
  pub prayed_today : ℕ
  pub test_again : ℕ
  pub batman : ℕ

unfoldable pub main : (fuel : ℕ) → Literals → Rest
main fuel l = malloc_test fuel l.hey_there (
    calloc_test fuel l.hey_where (
      string_test fuel l.doom (
        string_new_len_test fuel l.test_text (
          array_test fuel l.have_you l.prayed_today
            (append_test fuel l.test_again l.batman (finish fuel))))))
