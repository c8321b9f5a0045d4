-- ===== src/Alloc/Free.antt =====
-- `free` and `realloc` step back by `sizeof` from a pointer that stands at `data`: three bytes in
-- front of the block.
use rv32_emulator.Common.{ℕ, ◌+◌, ◌-◌, ◌^◌, ◌≤◌, ◌≡◌, ◌≢◌, some, arith, sub32, add32-eq}
use rv32_emulator.Memory.{store8}
use rv32_emulator.Memory.Range.{store8_lem}
use rv32_emulator.Memory.Word.{load32}
use rv32_emulator.Alloc.{Machine, get_size, is_free, set_free, free, realloc}
use rv32_emulator.Alloc.Block.{is_free_ext, Fits}

sub32-header : (block : ℕ) → 4 ≤ block → Fits block → sub32 (block + 13) 16 ≡ block - 3
unfolding sub32
sub32-header block lo hi = omega arith

module _ (block : ℕ) (s : Machine) (lo : 4 ≤ block) (fits : Fits block) where
  pub free-data : free (block + 13) s ≡ record s { bytes = store8 s.bytes (block + 9) 1 }
  unfolding free set_free
  free-data =
      rw (sub32-header block lo fits) (rw (add32-eq (block - 3) 12 (omega arith)) (ground arith))

  -- For a block from address 4 on whose header does not wrap, `free` of the pointer to its data, 13
  -- bytes behind it, writes 1 over the second byte of the block's size and nothing else: the block is
  -- marked free afterwards exactly if it was before.
  pub free-misses_flag :
      (is_free (free (block + 13) s).bytes block ≡ is_free s.bytes block)
      × ((free (block + 13) s).bytes (block + 9) ≡ 1)
      × ((a : ℕ) → a ≢ block + 9 → (free (block + 13) s).bytes a ≡ s.bytes a)
  free-misses_flag = rw free-data (
    is_free_ext s.bytes block fits _
        (rw (store8_lem s.bytes (block + 9) 1 (block + 12)) (ground arith)),
    rw (store8_lem s.bytes (block + 9) 1 (block + 9)) (ground arith),
    λ a ne. rw (store8_lem s.bytes (block + 9) 1 a) (ground arith),
  )

  -- For a block from address 4 on whose header does not wrap, with zeros in the upper three bytes of
  -- `prev` (as where it is NULL) and a size that is no multiple of 256, `realloc` of the pointer to
  -- its data to any size up to 2 ^ 24 returns the same pointer and changes nothing.
  pub realloc-in_place :
      (fuel size : ℕ)
      → s.bytes (block + 5) ≡ 0
      → s.bytes (block + 6) ≡ 0
      → s.bytes (block + 7) ≡ 0
      → s.bytes (block + 8) ≢ 0
      → size ≤ 2 ^ 24
      → realloc fuel (block + 13) size s ≡ some (block + 13, s)
  unfolding realloc get_size load32
  realloc-in_place fuel size z5 z6 z7 nz small = rw (sub32-header block lo fits) (
      rw (add32-eq (block - 3) 8 (omega arith)) (
        let e : block - 3 + 8 ≡ block + 5 = omega arith in
        rw e (
          rw
            (
              add32-eq (block + 5) 1 (omega arith),
              add32-eq (block + 5) 2 (omega arith),
              add32-eq (block + 5) 3 (omega arith),
            )
            (ground arith))))
