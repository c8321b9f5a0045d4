-- ===== src/Memory/Word.antt =====
-- Words in memory, least significant byte first, as `lw` and `sw` read and write them.
use rv32_emulator.Common.{
  ℕ, ◌+◌, ◌*◌, ◌/◌, ◌^◌, ◌≤◌, ◌<◌, ◌≡◌, refl, ◌⊎◌, arith, add32, add32-eq, ◌==◌, if◌then◌else◌, u8,
}
use rv32_emulator.Memory.{Bytes, store8}
use rv32_emulator.Memory.Range.{IsBytes, store8-IsBytes}

unfoldable pub load32 : Bytes → ℕ → ℕ
load32 m p = m p + 256 * m (add32 p 1) + 2 ^ 16 * m (add32 p 2) + 2 ^ 24 * m (add32 p 3)

unfoldable pub store32 : Bytes → ℕ → ℕ → Bytes
store32 m p v =
    store8 (store8 (store8 (store8 m p v) (add32 p 1) (v / 256)) (add32 p 2) (v / 2 ^ 16))
      (add32 p 3) (v / 2 ^ 24)

pub load32-lt : (m : Bytes) (p : ℕ) → IsBytes m → load32 m p < 2 ^ 32
unfolding load32
load32-lt m p h = omega (arith, h p, h (add32 p 1), h (add32 p 2), h (add32 p 3))

pub store32-IsBytes : (m : Bytes) (p v : ℕ) → IsBytes m → IsBytes (store32 m p v)
unfolding store32
store32-IsBytes m p v h =
    store8-IsBytes _ _ _ (store8-IsBytes _ _ _ (store8-IsBytes _ _ _ (store8-IsBytes m p v h)))

-- The bytes that a store of a word leaves.
pub store32_lem :
    (m : Bytes) (p v a : ℕ)
    → p + 4 ≤ 2 ^ 32
    → store32 m p v a ≡ (
        if a == p + 3
        then u8 (v / 2 ^ 24)
        else if a == p + 2
        then u8 (v / 2 ^ 16)
        else if a == p + 1
        then u8 (v / 256)
        else if a == p
        then u8 v
        else m a)
unfolding store32 store8
store32_lem m p v a h =
    rw (add32-eq p 1 (omega arith), add32-eq p 2 (omega arith), add32-eq p 3 (omega arith)) refl

pub store32_outside :
    (m : Bytes) (p v a : ℕ) → p + 4 ≤ 2 ^ 32 → (a < p) ⊎ (p + 4 ≤ a) → store32 m p v a ≡ m a
store32_outside m p v a h out = rw (store32_lem m p v a h) (ground arith)

pub load32-store32_self :
    (m : Bytes) (p v : ℕ) → p + 4 ≤ 2 ^ 32 → v < 2 ^ 32 → load32 (store32 m p v) p ≡ v
unfolding load32 store32 store8
load32-store32_self m p v h fits =
    rw (add32-eq p 1 (omega arith), add32-eq p 2 (omega arith), add32-eq p 3 (omega arith))
      (ground arith)

-- A word depends on its four bytes only.
pub load32_ext :
    (m m' : Bytes) (p : ℕ)
    → p + 4 ≤ 2 ^ 32
    → m' p ≡ m p
    → m' (p + 1) ≡ m (p + 1)
    → m' (p + 2) ≡ m (p + 2)
    → m' (p + 3) ≡ m (p + 3)
    → load32 m' p ≡ load32 m p
unfolding load32
load32_ext m m' p h e0 e1 e2 e3 =
    rw (add32-eq p 1 (omega arith), add32-eq p 2 (omega arith), add32-eq p 3 (omega arith))
      (omega arith)

pub load32-store32_outside :
    (m : Bytes) (p q v : ℕ)
    → p + 4 ≤ 2 ^ 32
    → q + 4 ≤ 2 ^ 32
    → (q + 4 ≤ p) ⊎ (p + 4 ≤ q)
    → load32 (store32 m p v) q ≡ load32 m q
load32-store32_outside m p q v hp hq out =
    load32_ext m (store32 m p v) q hq (store32_outside m p v q hp (omega arith))
      (store32_outside m p v (q + 1) hp (omega arith))
      (store32_outside m p v (q + 2) hp (omega arith))
      (store32_outside m p v (q + 3) hp (omega arith))

pub load32-store8_outside :
    (m : Bytes) (p q v : ℕ)
    → q + 4 ≤ 2 ^ 32
    → (p < q) ⊎ (q + 4 ≤ p)
    → load32 (store8 m p v) q ≡ load32 m q
unfolding store8
load32-store8_outside m p q v hq out =
    load32_ext m (store8 m p v) q hq (ground arith) (ground arith) (ground arith) (ground arith)
