-- ===== src/Alloc/Block.antt =====
-- The fields of a block header: what one assignment leaves of the others.
use rv32_emulator.Common.{
  ℕ, ◌+◌, ◌^◌, ◌≤◌, ◌<◌, ◌≡◌, ◌∙◌, ◌⊎◌, arith, add32, add32-eq, false, not, ◌==◌,
}
use rv32_emulator.Memory.{Bytes}
use rv32_emulator.Memory.Range.{IsBytes, store8-IsBytes, store8_lem, store8_self}
use rv32_emulator.Memory.Word.{store32-IsBytes, store32_outside, load32-store32_self, load32_ext}
use rv32_emulator.Alloc.{
  get_next, get_size, is_free, set_next, set_prev, set_size, set_free, init_block,
}

-- The header of the block at `block` does not wrap.
abbrev pub Fits : ℕ → Type 0
Fits block = block + 16 ≤ 2 ^ 32

module _ (m : Bytes) (block : ℕ) (fits : Fits block) where
  pub set_next-outside : (v a : ℕ) → (a < block) ⊎ (block + 4 ≤ a) → set_next m block v a ≡ m a
  unfolding set_next
  set_next-outside v a out = store32_outside m block v a (omega arith) out

  pub set_prev-outside : (v a : ℕ) → (a < block + 4) ⊎ (block + 8 ≤ a) → set_prev m block v a ≡ m a
  unfolding set_prev
  set_prev-outside v a out =
      rw (add32-eq block 4 (omega arith))
        (store32_outside m (block + 4) v a (omega arith) (omega arith))

  pub set_size-outside : (v a : ℕ) → (a < block + 8) ⊎ (block + 12 ≤ a) → set_size m block v a ≡ m a
  unfolding set_size
  set_size-outside v a out =
      rw (add32-eq block 8 (omega arith))
        (store32_outside m (block + 8) v a (omega arith) (omega arith))

  pub set_free-outside :
      (v a : ℕ) → (a < block + 12) ⊎ (block + 13 ≤ a) → set_free m block v a ≡ m a
  unfolding set_free
  set_free-outside v a out =
      rw (add32-eq block 12 (omega arith)) (rw (store8_lem m (block + 12) v a) (ground arith))

  pub get_next-set_next : (v : ℕ) → v < 2 ^ 32 → get_next (set_next m block v) block ≡ v
  unfolding get_next set_next
  get_next-set_next v h = load32-store32_self m block v (omega arith) h

  pub get_size-set_size : (v : ℕ) → v < 2 ^ 32 → get_size (set_size m block v) block ≡ v
  unfolding get_size set_size
  get_size-set_size v h =
      rw (add32-eq block 8 (omega arith)) (load32-store32_self m (block + 8) v (omega arith) h)

  pub is_free-set_free : (v : ℕ) → v < 2 → is_free (set_free m block v) block ≡ not (v == 0)
  unfolding is_free set_free
  is_free-set_free v h = rw (store8_self m (add32 block 12) v) (ground arith)

  pub set_next-IsBytes : (v : ℕ) → IsBytes m → IsBytes (set_next m block v)
  unfolding set_next
  set_next-IsBytes v h = store32-IsBytes m block v h

  -- A field depends on its own bytes only.
  pub get_next_ext :
      (m' : Bytes)
      → ((a : ℕ) → block ≤ a → a < block + 4 → m' a ≡ m a)
      → get_next m' block ≡ get_next m block
  unfolding get_next
  get_next_ext m' e =
      load32_ext m m' block (omega arith) (e block (omega arith) (omega arith))
        (e (block + 1) (omega arith) (omega arith)) (e (block + 2) (omega arith) (omega arith))
        (e (block + 3) (omega arith) (omega arith))

  pub get_size_ext :
      (m' : Bytes)
      → ((a : ℕ) → block + 8 ≤ a → a < block + 12 → m' a ≡ m a)
      → get_size m' block ≡ get_size m block
  unfolding get_size
  get_size_ext m' e = rw (add32-eq block 8 (omega arith)) (
      load32_ext m m' (block + 8) (omega arith) (e (block + 8) (omega arith) (omega arith))
        (e (block + 8 + 1) (omega arith) (omega arith))
        (e (block + 8 + 2) (omega arith) (omega arith))
        (e (block + 8 + 3) (omega arith) (omega arith)))

  pub is_free_ext :
      (m' : Bytes) → m' (block + 12) ≡ m (block + 12) → is_free m' block ≡ is_free m block
  unfolding is_free
  is_free_ext m' e = rw (add32-eq block 12 (omega arith)) (rw e)

module _ (m : Bytes) (block size : ℕ) (fits : Fits block) where
  pub init_block-outside :
      (a : ℕ) → (a < block) ⊎ (block + 13 ≤ a) → init_block m block size a ≡ m a
  unfolding init_block
  init_block-outside a out =
      set_free-outside _ block fits 0 a (omega arith)
      ∙ set_size-outside _ block fits size a (omega arith)
      ∙ set_prev-outside _ block fits 0 a (omega arith)
      ∙ set_next-outside _ block fits 0 a (omega arith)

  pub init_block-IsBytes : IsBytes m → IsBytes (init_block m block size)
  unfolding init_block
  init_block-IsBytes h =
      store8-IsBytes _ _ _
        (store32-IsBytes _ _ _ (store32-IsBytes _ _ _ (store32-IsBytes m block 0 h)))

  pub init_block-in_use : is_free (init_block m block size) block ≡ false
  unfolding init_block
  init_block-in_use = is_free-set_free _ block fits 0 (omega arith)

  pub get_size-init_block : size < 2 ^ 32 → get_size (init_block m block size) block ≡ size
  unfolding init_block
  get_size-init_block h =
      get_size_ext _ block fits _ (λ a lo hi. set_free-outside _ block fits 0 a (omega arith))
      ∙ get_size-set_size _ block fits size h

  pub get_next-init_block : get_next (init_block m block size) block ≡ 0
  unfolding init_block
  get_next-init_block =
      get_next_ext _ block fits _ (λ a lo hi.
        set_free-outside _ block fits 0 a (omega arith)
        ∙ set_size-outside _ block fits size a (omega arith)
        ∙ set_prev-outside _ block fits 0 a (omega arith))
      ∙ get_next-set_next m block fits 0 (omega arith)
