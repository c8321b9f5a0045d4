-- ===== src/CString.antt =====
-- The functions of c_test/string.c on terminated strings. Every loop that runs to a terminator takes
-- fuel: `none` says that it did not get there within it.
pub mod Content
pub mod Copy
pub mod Search
pub mod Length
pub mod Ends
mod Tests
use rv32_emulator.Common.{
  and_then, ℕ, zero, suc, ◌+◌, ◌^◌, add32, sub32, Bool, true, false, not, ◌&&◌, Option, none, some,
  ltb, ◌==◌, if◌then◌else◌,
}
use rv32_emulator.Memory.{Bytes, store8}
use rv32_emulator.Alloc.{null}

-- `while (str[i] != '\0') i++`
pub strlen_loop : (fuel i str : ℕ) → Bytes → Option ℕ
strlen_loop zero i str m = none
strlen_loop (suc fuel) i str m =
    let rest = strlen_loop fuel (add32 i 1) str m in if m (add32 str i) == 0 then some i else rest

pub strlen : (fuel str : ℕ) → Bytes → Option ℕ
unfolding strlen_loop
strlen fuel str m = strlen_loop fuel 0 str m

-- The result is the difference of two bytes as an `int`.
pub strcmp : (fuel s1 s2 : ℕ) → Bytes → Option ℕ
strcmp zero s1 s2 m = none
strcmp (suc fuel) s1 s2 m =
    let rest = strcmp fuel (add32 s1 1) (add32 s2 1) m in
    if not (m s1 == 0) && (m s1 == m s2) then rest else some (sub32 (m s1) (m s2))

-- The byte is compared with the whole `int`.
pub strchr : (fuel s c : ℕ) → Bytes → Option ℕ
strchr zero s c m = none
strchr (suc fuel) s c m =
    let rest = strchr fuel (add32 s 1) c m in
    if m s == 0 then some null else if m s == c then some s else rest

-- `while (*src) { *d = *src; d++; src++; } *d = '\0';`
pub copy_string : (fuel d src : ℕ) → Bytes → Option Bytes
copy_string zero d src m = none
copy_string (suc fuel) d src m =
    let rest = copy_string fuel (add32 d 1) (add32 src 1) (store8 m d (m src)) in
    if m src == 0 then some (store8 m d 0) else rest

pub strcpy : (fuel dest src : ℕ) → Bytes → Option (ℕ × Bytes)
strcpy fuel dest src m = and_then (copy_string fuel dest src m) (λ m'. some (dest, m'))

-- `while (*d) d++;`
pub skip_string : (fuel d : ℕ) → Bytes → Option ℕ
skip_string zero d m = none
skip_string (suc fuel) d m =
    let rest = skip_string fuel (add32 d 1) m in if m d == 0 then some d else rest

pub strcat : (fuel dest src : ℕ) → Bytes → Option (ℕ × Bytes)
strcat fuel dest src m =
    and_then (skip_string fuel dest m)
      λ d. and_then (copy_string fuel d src m) (λ m'. some (dest, m'))

pub strstr_loop : (fuel rounds haystack needle : ℕ) → Bytes → Option ℕ
strstr_loop fuel zero haystack needle m = none
strstr_loop fuel (suc rounds) haystack needle m =
    let rest = strstr_loop fuel rounds (add32 haystack 1) needle m in
    if m haystack == 0
    then some null
    else and_then (strcmp fuel haystack needle m) (λ r. if r == 0 then some haystack else rest)

pub strstr : (fuel haystack needle : ℕ) → Bytes → Option ℕ
unfolding strstr_loop
strstr fuel haystack needle m = strstr_loop fuel fuel haystack needle m
