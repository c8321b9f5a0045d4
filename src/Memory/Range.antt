-- ===== src/Memory/Range.antt =====
-- What the memory theorems speak about: bytes, and ranges of addresses that do not wrap.
use rv32_emulator.Common.{
  ℕ, ◌+◌, ◌<◌, ◌≡◌, refl, Bool, arith, u8, ltb, leb, ◌==◌, if◌then◌else◌, ◌&&◌,
}
use rv32_emulator.Memory.{Bytes, store8}

-- Each address holds a byte.
abbrev pub IsBytes : Bytes → Type 0
IsBytes m = (a : ℕ) → m a < 256

-- The address lies in the `n` bytes from `p` on.
abbrev pub within : (p n a : ℕ) → Bool
within p n a = leb p a && ltb a (p + n)

pub store8-IsBytes : (m : Bytes) (p v : ℕ) → IsBytes m → IsBytes (store8 m p v)
unfolding store8
store8-IsBytes m p v h a = ground (arith, h a)

pub store8_lem : (m : Bytes) (p v a : ℕ) → store8 m p v a ≡ (if a == p then u8 v else m a)
unfolding store8
store8_lem m p v a = refl

pub store8_self : (m : Bytes) (p v : ℕ) → store8 m p v p ≡ u8 v
unfolding store8
store8_self m p v = ground arith

pub store8_byte : (m : Bytes) (p v a : ℕ) → v < 256 → store8 m p v a ≡ (if a == p then v else m a)
unfolding store8
store8_byte m p v a h = ground arith
