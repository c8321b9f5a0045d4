-- ===== src/Memory/Copy.antt =====
-- `memset`, `memcpy` and `memmove`, address by address.
use rv32_emulator.Common.{
  ℕ, zero, suc, ◌+◌, ◌-◌, ◌^◌, ◌≤◌, ◌≡◌, refl, ◌⊎◌, inl, inr, arith, u8, add32, add32-eq,
  Bool-cases, ltb, if◌then◌else◌,
}
use rv32_emulator.Memory.{Bytes, store8, set_loop, memset, copy_up, memcpy, copy_down, memmove}
use rv32_emulator.Memory.Range.{IsBytes, within, store8-IsBytes, store8_lem, store8_byte}

set_loop_lem :
    (left i p v : ℕ) (m : Bytes)
    → p + (i + left) ≤ 2 ^ 32
    → (a : ℕ) → set_loop left i p v m a ≡ (if within (p + i) left a then u8 v else m a)
unfolding set_loop
set_loop_lem zero i p v m h a = ground arith
set_loop_lem (suc left) i p v m h a =
    rw (set_loop_lem left (i + 1) p v (store8 m (add32 p i) v) (omega arith) a)
      (rw (store8_lem m (add32 p i) v a) (rw (add32-eq p i (omega arith)) (ground arith)))

-- After `memset(p, value, n)`, which returns `p`, each of the `n` bytes from `p` on is the low byte
-- of `value` and no other byte has changed, if the range ends below the top of the address space.
pub memset_lem :
    (p value n : ℕ) (m : Bytes)
    → p + n ≤ 2 ^ 32
    → ((memset p value n m).0 ≡ p)
      × ((a : ℕ) → (memset p value n m).1 a ≡ (if within p n a then u8 value else m a))
unfolding memset
memset_lem p value n m h = (refl, λ a. ground (arith, set_loop_lem n 0 p value m (omega arith) a))

pub copy_up_lem :
    (left i d s : ℕ) (m : Bytes)
    → IsBytes m
    → d + (i + left) ≤ 2 ^ 32
    → s + (i + left) ≤ 2 ^ 32
    → (d ≤ s) ⊎ (s + (i + left) ≤ d)
    → (a : ℕ) → copy_up left i d s m a ≡ (if within (d + i) left a then m (s + (a - d)) else m a)
unfolding copy_up
copy_up_lem zero i d s m bytes hd hs apart a = ground arith
copy_up_lem (suc left) i d s m bytes hd hs apart a =
    rw (add32-eq d i (omega arith), add32-eq s i (omega arith))
      (rw
        (copy_up_lem left (i + 1) d s (store8 m (d + i) (m (s + i)))
          (store8-IsBytes m (d + i) (m (s + i)) bytes) (omega arith) (omega arith) (omega arith) a)
        (rw
          (
            store8_byte m (d + i) (m (s + i)) a (bytes (s + i)),
            store8_byte m (d + i) (m (s + i)) (s + (a - d)) (bytes (s + i)),
          )
          (ground arith)))

-- `memcpy(dest, src, n)` returns `dest`, puts the `n` bytes that stood at `src` at `dest`, and
-- changes no other byte, if neither range wraps and `dest` does not start inside the source range
-- behind its first byte: the copy runs upwards.
pub memcpy_lem :
    (dest src n : ℕ) (m : Bytes)
    → IsBytes m
    → dest + n ≤ 2 ^ 32
    → src + n ≤ 2 ^ 32
    → (dest ≤ src) ⊎ (src + n ≤ dest)
    → ((memcpy dest src n m).0 ≡ dest)
      × ((a : ℕ)
          → (memcpy dest src n m).1 a ≡ (if within dest n a then m (src + (a - dest)) else m a))
unfolding memcpy
memcpy_lem dest src n m bytes hd hs apart = (
  refl,
  λ a. ground (arith, copy_up_lem n 0 dest src m bytes (omega arith) (omega arith) (omega arith) a),
)

copy_down_lem :
    (i d s : ℕ) (m : Bytes)
    → IsBytes m
    → d + i ≤ 2 ^ 32
    → s + i ≤ 2 ^ 32
    → s ≤ d
    → (a : ℕ) → copy_down i d s m a ≡ (if within d i a then m (s + (a - d)) else m a)
unfolding copy_down
copy_down_lem zero d s m bytes hd hs below a = ground arith
copy_down_lem (suc i) d s m bytes hd hs below a =
    rw (add32-eq d i (omega arith), add32-eq s i (omega arith))
      (rw
        (copy_down_lem i d s (store8 m (d + i) (m (s + i)))
          (store8-IsBytes m (d + i) (m (s + i)) bytes) (omega arith) (omega arith) below a)
        (rw
          (
            store8_byte m (d + i) (m (s + i)) a (bytes (s + i)),
            store8_byte m (d + i) (m (s + i)) (s + (a - d)) (bytes (s + i)),
          )
          (ground arith)))

-- `memmove(dest, src, n)` returns `dest`, puts the `n` bytes that stood at `src` at `dest`, and
-- changes no other byte, however the two ranges overlap, if neither wraps.
pub memmove_lem :
    (dest src n : ℕ) (m : Bytes)
    → IsBytes m
    → dest + n ≤ 2 ^ 32
    → src + n ≤ 2 ^ 32
    → ((memmove dest src n m).0 ≡ dest)
      × ((a : ℕ)
          → (memmove dest src n m).1 a ≡ (if within dest n a then m (src + (a - dest)) else m a))
unfolding memmove
memmove_lem dest src n m bytes hd hs = (
  refl,
  λ a. elim (Bool-cases (ltb dest src)) [
    | inl up ↦ rw up (
        ground (
          arith,
          copy_up_lem n 0 dest src m bytes (omega arith) (omega arith) (inl (ground arith)) a,
        ))
    | inr down ↦ rw down (ground (arith, copy_down_lem n dest src m bytes hd hs (ground arith) a))
  ],
)
