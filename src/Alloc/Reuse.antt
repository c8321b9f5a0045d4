-- ===== src/Alloc/Reuse.antt =====
-- The walk of `malloc` over the block list finds the first fit, and what a split leaves.
use rv32_emulator.Common.{
  ℕ, zero, suc, ◌+◌, ◌-◌, ◌^◌, ◌≤◌, ◌<◌, ◌≡◌, ◌≢◌, refl, ◌∙◌, ap, ◌⊎◌, inl, inr, arith, sub32,
  add32-eq, leb, ◌==◌, if◌then◌else◌, Bool-cases, ◌&&◌, Bool, true, false, some, List, [], ◌∷◌,
  ◌++◌, length, All,
}
use rv32_emulator.Memory.{Bytes}
use rv32_emulator.Memory.Range.{IsBytes}
use rv32_emulator.Memory.Word.{load32-lt}
use rv32_emulator.Alloc.{
  Machine, null, get_next, get_size, is_free, set_next, set_prev, set_size, set_free, find_free,
  malloc_new, malloc_reuse, malloc_found, malloc, split_at, split_block,
}
use rv32_emulator.Alloc.Block.{
  Fits, set_next-outside, set_prev-outside, set_size-outside, set_free-outside, get_next-set_next,
  get_size-set_size, is_free-set_free, get_next_ext, get_size_ext, is_free_ext,
}

-- From `p` the `next` fields lead through `blocks` to NULL.
abbrev pub Chain : Bytes → ℕ → List ℕ → Type 0
Chain m p [] = p ≡ null
Chain m p (b ∷ bs) = (p ≡ b) × (b ≢ null) × Chain m (get_next m b) bs

abbrev pub suitable : Bytes → ℕ → ℕ → Bool
suitable m size b = is_free m b && leb size (get_size m b)

-- `r` is the first suitable block of the list, or NULL if there is none.
abbrev pub FirstFit : Bytes → ℕ → List ℕ → ℕ → Type 0
FirstFit m size bs r =
    ((r ≡ null) × All (λ b. suitable m size b ≡ false) bs)
    ⊎ ((front : List ℕ) × (back : List ℕ) × (bs ≡ front ++ (r ∷ back))
        × All (λ b. suitable m size b ≡ false) front
        × (suitable m size r ≡ true)
        × (r ≢ null))

FirstFit-cons :
    (m : Bytes) (size b : ℕ) (bs : List ℕ) (r : ℕ)
    → suitable m size b ≡ false
    → FirstFit m size bs r
    → FirstFit m size (b ∷ bs) r
FirstFit-cons m size b bs r bad (inl (e, none_fits)) = inl (e, (bad, none_fits))
FirstFit-cons m size b bs r bad (inr (front, back, e, before, fits, ne)) =
    inr (b ∷ front, back, ap (λ (l : List ℕ). b ∷ l) e, (bad, before), fits, ne)

find_free-FirstFit :
    (fuel size p : ℕ) (m : Bytes) (bs : List ℕ)
    → length bs < fuel
    → Chain m p bs
    → (r : ℕ) × (find_free fuel size p m ≡ some r) × FirstFit m size bs r
unfolding find_free
find_free-FirstFit zero size p m bs enough chain = elim enough [ ]
find_free-FirstFit (suc fuel) size p m [] enough chain = (null, ground arith, inl (refl, tt))
find_free-FirstFit (suc fuel) size p m (b ∷ bs) enough (at, ne, rest) =
    let step = find_free-FirstFit fuel size (get_next m b) m bs (omega arith) rest in
    rw at (elim (Bool-cases (suitable m size b)) [
      | inl good ↦ (b, ground (arith, good), inr ([], bs, refl, tt, good, ne))
      | inr bad ↦ (step.0, ground (arith, bad, step.1), FirstFit-cons m size b bs step.0 bad step.2)
    ])

-- On a block list of fewer nodes than the fuel the walk ends, and `malloc` reuses the first free
-- block that has room for `size` bytes; it takes a new block only if there is none.
pub malloc-FirstFit :
    (fuel size : ℕ) (s : Machine) (bs : List ℕ)
    → s.mem_head ≢ null
    → length bs < fuel
    → Chain s.bytes s.mem_head bs
    → (r : ℕ) × FirstFit s.bytes size bs r
      × (malloc fuel size s ≡ some (if r == null then malloc_new size s else malloc_reuse size r s))
unfolding malloc malloc_found
malloc-FirstFit fuel size s bs ne enough chain =
    let (r, run, first) = find_free-FirstFit fuel size s.mem_head s.bytes bs enough chain in
    (r, first, rw run (ground arith))

module _ (m : Bytes) (block size : ℕ) (bytes : IsBytes m)
    (fits : block + (16 + get_size m block) ≤ 2 ^ 32) (big : size + 16 < get_size m block) where
  abbrev new : ℕ
  new = block + (16 + size)

  split_at-eq : split_at block size ≡ new
  unfolding split_at
  split_at-eq =
      rw (add32-eq block 16 (omega arith))
        (rw (add32-eq (block + 16) size (omega arith)) (omega arith))

  block_below : Fits block
  block_below = omega arith

  new_below : Fits new
  new_below = omega arith

  abbrev linked : Bytes
  linked = set_prev (set_next m new (get_next m block)) new block

  get_size-linked : get_size linked block ≡ get_size m block
  get_size-linked = get_size_ext m block block_below linked (λ a lo hi.
      set_prev-outside _ new new_below block a (omega arith)
      ∙ set_next-outside m new new_below (get_next m block) a (omega arith))

  left_over : sub32 (sub32 (get_size m block) size) 16 ≡ get_size m block - (size + 16)
  unfolding sub32
  left_over = omega arith

  abbrev freed : Bytes
  freed = set_free (set_size linked new (get_size m block - (size + 16))) new 1

  split_block-eq : split_block size block m ≡ set_size (set_next freed block new) block size
  unfolding split_block
  split_block-eq = rw split_at-eq (rw get_size-linked (rw left_over))

  abbrev final : Bytes
  final = set_size (set_next freed block new) block size

  -- The last two assignments touch the first twelve bytes of the block only.
  final-outside : (a : ℕ) → (a < block) ⊎ (block + 12 ≤ a) → final a ≡ freed a
  final-outside a out =
      set_size-outside _ block block_below size a (omega arith)
      ∙ set_next-outside freed block block_below new a (omega arith)

  freed-outside : (a : ℕ) → (a < new) ⊎ (new + 13 ≤ a) → freed a ≡ m a
  freed-outside a out =
      set_free-outside _ new new_below 1 a (omega arith)
      ∙ set_size-outside linked new new_below _ a (omega arith)
      ∙ set_prev-outside _ new new_below block a (omega arith)
      ∙ set_next-outside m new new_below _ a (omega arith)

  -- A block of more than `size + 16` bytes that does not wrap is split in two: the block keeps `size`
  -- bytes and leads to a free block behind them, which has the rest less a header and leads on to
  -- the old successor; the block's own mark stays, and nothing but the two headers is written.
  pub split_block_lem :
      let m' = split_block size block m in
      (get_size m' block ≡ size)
      × (get_size m' new + 16 + size ≡ get_size m block)
      × (get_next m' block ≡ new)
      × (get_next m' new ≡ get_next m block)
      × (is_free m' block ≡ is_free m block)
      × (is_free m' new ≡ true)
      × ((a : ℕ) → (a < block) ⊎ (block + 12 ≤ a) → (a < new) ⊎ (new + 13 ≤ a) → m' a ≡ m a)
  split_block_lem = rw split_block-eq (
    get_size-set_size _ block block_below size (omega arith),
    (let e : get_size final new ≡ get_size m block - (size + 16) =
          get_size_ext freed new new_below final (λ a lo hi. final-outside a (omega arith))
          ∙ get_size_ext _ new new_below freed
              (λ a lo hi. set_free-outside _ new new_below 1 a (omega arith))
          ∙ get_size-set_size linked new new_below _ (omega arith) in
        omega arith),
    get_next_ext _ block block_below final
          (λ a lo hi. set_size-outside _ block block_below size a (omega arith))
        ∙ get_next-set_next freed block block_below new (omega arith),
    get_next_ext freed new new_below final (λ a lo hi. final-outside a (omega arith))
        ∙ get_next_ext _ new new_below freed (λ a lo hi.
          set_free-outside _ new new_below 1 a (omega arith)
          ∙ set_size-outside linked new new_below _ a (omega arith)
          ∙ set_prev-outside _ new new_below block a (omega arith))
        ∙ get_next-set_next m new new_below _ next_is_word,
    is_free_ext m block block_below final
        (final-outside (block + 12) (omega arith) ∙ freed-outside (block + 12) (omega arith)),
    is_free_ext freed new new_below final (final-outside (new + 12) (omega arith))
        ∙ is_free-set_free _ new new_below 1 (omega arith),
    λ a out out'. final-outside a out ∙ freed-outside a out',
  )
    where
      next_is_word : get_next m block < 2 ^ 32
      next_is_word = unfold get_next in load32-lt m block bytes
