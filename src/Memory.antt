-- ===== src/Memory.antt =====
-- The byte-addressed memory of the target, and the memory functions of c_test/mem.c.
pub mod Range
pub mod Word
pub mod Copy
pub mod Compare
pub mod Samples
mod Tests
use rv32_emulator.Common.{
  ℕ, zero, suc, ◌+◌, ◌-◌, ◌*◌, ◌%◌, ◌^◌, u8, add32, Bool, true, false, ltb, ◌==◌, if◌then◌else◌,
}

-- The byte at each address.
abbrev pub Bytes : Type 0
Bytes = ℕ → ℕ

-- `*(char*)p = v`
unfoldable pub store8 : Bytes → ℕ → ℕ → Bytes
store8 m p v a = if a == p then u8 v else m a

-- `for (i = 0; i < n; i++) p[i] = value`, with `left` rounds to go.
pub set_loop : (left i p v : ℕ) → Bytes → Bytes
set_loop zero i p v m = m
set_loop (suc left) i p v m = set_loop left (i + 1) p v (store8 m (add32 p i) v)

pub memset : (p value n : ℕ) → Bytes → ℕ × Bytes
unfolding set_loop
memset p value n m = (p, set_loop n 0 p value m)

-- `for (i = 0; i < n; i++) d[i] = s[i]`
pub copy_up : (left i d s : ℕ) → Bytes → Bytes
copy_up zero i d s m = m
copy_up (suc left) i d s m = copy_up left (i + 1) d s (store8 m (add32 d i) (m (add32 s i)))

pub memcpy : (dest src n : ℕ) → Bytes → ℕ × Bytes
memcpy dest src n m = (dest, copy_up n 0 dest src m)

-- `for (i = n; i > 0; i--) d[i - 1] = s[i - 1]`
pub copy_down : (i d s : ℕ) → Bytes → Bytes
copy_down zero d s m = m
copy_down (suc i) d s m = copy_down i d s (store8 m (add32 d i) (m (add32 s i)))

pub memmove : (dest src n : ℕ) → Bytes → ℕ × Bytes
memmove dest src n m =
    (dest, if ltb dest src then copy_up n 0 dest src m else copy_down n dest src m)

-- The loop of `memcmp`: -1, 0 and 1 as words.
pub compare_loop : (left i s1 s2 : ℕ) → Bytes → ℕ
compare_loop zero i s1 s2 m = 0
compare_loop (suc left) i s1 s2 m =
    let rest = compare_loop left (i + 1) s1 s2 m in
    if ltb (m (add32 s1 i)) (m (add32 s2 i))
    then 2 ^ 32 - 1
    else if ltb (m (add32 s2 i)) (m (add32 s1 i))
    then 1
    else rest

pub memcmp : (s1 s2 n : ℕ) → Bytes → ℕ
memcmp s1 s2 n m = compare_loop n 0 s1 s2 m
