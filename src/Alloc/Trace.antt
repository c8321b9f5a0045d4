-- ===== src/Alloc/Trace.antt =====
-- A program that uses the heap: it allocates, releases what it was given, and writes into it.
use rv32_emulator.Common.{
  ℕ, suc, ◌+◌, ◌-◌, ◌^◌, ◌≤◌, ◌<◌, ◌≡◌, ◌≢◌, refl, ◌∙◌, ap, ◌⊎◌, inl, inr, some, arith, List, [],
  ◌∷◌,
}
use rv32_emulator.Memory.{store8}
use rv32_emulator.Memory.Range.{store8-IsBytes, store8_lem}
use rv32_emulator.Alloc.{Machine, null, malloc, free}
use rv32_emulator.Alloc.Block.{get_next_ext, is_free_ext, Fits}
use rv32_emulator.Alloc.Live.{IsLive, Taken, Refused, malloc-IsLive}
use rv32_emulator.Alloc.Free.{free-data}

-- Pointer and size of each block that was handed out, the newest first.
abbrev pub Blocks : Type 0
Blocks = List (ℕ × ℕ)

abbrev pub Given : (p n : ℕ) → Blocks → Type 0
Given p n [] = ⊥
Given p n ((q, k) ∷ bs) = ((p ≡ q) × (n ≡ k)) ⊎ Given p n bs

-- One action of the program. A released block stays on the list.
pub data Step (fuel : ℕ) : Machine → Blocks → Machine → Blocks → Type 0 where
  allocate :
      {s t : Machine} {bs : Blocks} (size p : ℕ)
      → size < 2 ^ 30
      → malloc (suc (suc fuel)) size s ≡ some (p, t)
      → p ≢ null
      → Step fuel s bs t ((p, size) ∷ bs)
  refused :
      {s t : Machine} {bs : Blocks} (size : ℕ)
      → size < 2 ^ 30
      → malloc (suc (suc fuel)) size s ≡ some (null, t)
      → Step fuel s bs t bs
  release : {s : Machine} {bs : Blocks} (p n : ℕ) → Given p n bs → Step fuel s bs (free p s) bs
  write :
      {s : Machine} {bs : Blocks} (p n a v : ℕ)
      → Given p n bs
      → p ≤ a
      → a < p + n
      → Step fuel s bs (record s { bytes = store8 s.bytes a v }) bs

pub data Reach (fuel : ℕ) (s : Machine) : Machine → Blocks → Type 0 where
  here : Reach fuel s s []
  next :
      {t u : Machine} {bs cs : Blocks} → Reach fuel s t bs → Step fuel t bs u cs → Reach fuel s u cs

-- Each block lies below `top` and above the header of the first block, the older ones below it.
abbrev pub Stacked : (head top : ℕ) → Blocks → Type 0
Stacked head top [] = Unit {0}
Stacked head top ((p, n) ∷ bs) =
    (p + n + 3 ≤ top) × ((p ≡ head + 13) ⊎ (head + 29 ≤ p)) × Stacked head (p - 13) bs

Stacked-mono :
    (head top top' : ℕ) (bs : Blocks) → top ≤ top' → Stacked head top bs → Stacked head top' bs
Stacked-mono head top top' [] le h = tt
Stacked-mono head top top' ((p, n) ∷ bs) le h = (omega arith, h.1, h.2)

-- A block that was handed out lies in the heap and clear of the header of the first block.
Stacked-Given :
    (head top p n : ℕ) (bs : Blocks)
    → Stacked head top bs
    → Given p n bs
    → (p + n + 3 ≤ top) × ((p ≡ head + 13) ⊎ (head + 29 ≤ p))
Stacked-Given head top p n [] h g = absurd g
Stacked-Given head top p n ((q, k) ∷ bs) h (inl e) = (omega arith, rw (e.0) (h.1))
Stacked-Given head top p n ((q, k) ∷ bs) h (inr g) =
    let older = Stacked-Given head (q - 13) p n bs h.2 g in (omega arith, older.1)

-- What the trace keeps: a live machine with the same head, and the blocks stacked below its end.
pub record IsTraced (head : ℕ) (s : Machine) (bs : Blocks) : Type 0 where
  pub live : IsLive s
  pub same_head : s.mem_head ≡ head
  pub stacked : Stacked head s.heap_end bs

pub store8-IsLive :
    (a v : ℕ) (s : Machine)
    → IsLive s
    → s.mem_head + 4 ≤ a
    → a ≢ s.mem_head + 12
    → IsLive (record s { bytes = store8 s.bytes a v })
store8-IsLive a v s live above flag = record {
  are_bytes = store8-IsBytes s.bytes a v live.are_bytes;
  head_above = live.head_above;
  head_below = live.head_below;
  end_below = live.end_below;
  alone =
      get_next_ext s.bytes s.mem_head (fits live) _
        (λ b lo hi. rw (store8_lem s.bytes a v b) (ground arith))
      ∙ live.alone;
  in_use =
      is_free_ext s.bytes s.mem_head (fits live) _
        (rw (store8_lem s.bytes a v (s.mem_head + 12)) (ground arith))
      ∙ live.in_use;
}
  where
    fits : IsLive s → Fits s.mem_head
    fits l = omega (arith, l.head_below, l.end_below)

allocated :
    (fuel size : ℕ) (s : Machine) {p : ℕ} {t : Machine}
    → IsLive s
    → size < 2 ^ 30
    → malloc (suc (suc fuel)) size s ≡ some (p, t)
    → ((p ≢ null)
        × (p ≡ s.heap_end + 13)
        × (t.heap_end ≡ s.heap_end + (16 + size))
        × (t.mem_head ≡ s.mem_head)
        × IsLive t)
      ⊎ ((p ≡ null) × (t ≡ s))
allocated fuel size s {p} {t} live small got = go (malloc-IsLive fuel size s live small)
  where
    go :
        (t' : Machine) × (p' : ℕ) × (malloc (suc (suc fuel)) size s ≡ some (p', t'))
          × IsLive t'
          × (t'.mem_head ≡ s.mem_head)
          × (Taken size s p' t' ⊎ Refused size s p' t')
        → ((p ≢ null)
            × (p ≡ s.heap_end + 13)
            × (t.heap_end ≡ s.heap_end + (16 + size))
            × (t.mem_head ≡ s.mem_head)
            × IsLive t)
          ⊎ ((p ≡ null) × (t ≡ s))
    go (t', p', run, live', head, outcome) =
        let ep : p ≡ p' = cc in
        let et : t ≡ t' = cc in
        elim outcome [
          | inl (at, grown, _, _) ↦ rw (ep, et) (inl (omega arith, at, grown, head, live'))
          | inr (z, same, _) ↦ inr (ep ∙ z, et ∙ same)
        ]

pub Step-IsTraced :
    {fuel head : ℕ} {s t : Machine} {bs cs : Blocks}
    → Step fuel s bs t cs
    → IsTraced head s bs
    → IsTraced head t cs
Step-IsTraced {fuel} {head} {s} (allocate {bs = bs} size p small got ne) tr =
    elim (allocated fuel size s tr.live small got) [
      | inl (_, at, grown, kept, live) ↦ record {
        live = live;
        same_head = kept ∙ tr.same_head;
        stacked = (
          omega arith,
          omega (arith, tr.live.head_below, tr.same_head),
          Stacked-mono head s.heap_end (p - 13) bs (omega arith) tr.stacked,
        );
      }
      | inr (z, _) ↦ absurd (ne z)
    ]
Step-IsTraced {fuel} {head} {s} (refused {bs = bs} size small got) tr =
    elim (allocated fuel size s tr.live small got) [
      | inl (ne, _, _, _, _) ↦ absurd (ne refl)
      | inr (_, same) ↦ rw same tr
    ]
Step-IsTraced {head} {s} (release {bs = bs} p n given) tr =
    let at = Stacked-Given head s.heap_end p n bs tr.stacked given in
    let e : p ≡ (p - 13) + 13 = omega arith in
    let r : free p s ≡ record s { bytes = store8 s.bytes ((p - 13) + 9) 1 } =
      ap (λ (q : ℕ). free q s) e
      ∙ free-data (p - 13) s (omega (arith, tr.live.head_above, tr.same_head))
          (omega (arith, tr.live.end_below)) in
    rw r (record {
      live =
          store8-IsLive (p - 13 + 9) 1 s tr.live (omega (arith, tr.same_head))
            (omega (arith, tr.same_head));
      same_head = tr.same_head;
      stacked = tr.stacked;
    })
Step-IsTraced {head} {s} (write {bs = bs} p n a v given lo hi) tr =
    let at = Stacked-Given head s.heap_end p n bs tr.stacked given in
    record {
      live =
          store8-IsLive a v s tr.live (omega (arith, tr.same_head)) (omega (arith, tr.same_head));
      same_head = tr.same_head;
      stacked = tr.stacked;
    }

-- After any row of calls of `malloc`, each of less than 1 GB, of calls of `free` on pointers that the
-- program was given, and of writes of bytes into blocks that it was given, from a live state on: the
-- state is live with the same first block, and all blocks handed out on the way, the released ones
-- too, are stacked in the heap without overlap. No memory is used again.
pub Reach-IsTraced :
    {fuel : ℕ} {s t : Machine} {bs : Blocks}
    → IsLive s
    → Reach fuel s t bs
    → IsTraced s.mem_head t bs
Reach-IsTraced live here = record { live = live; same_head = refl; stacked = tt }
Reach-IsTraced live (next r st) = Step-IsTraced st (Reach-IsTraced live r)
