-- ===== src/Alloc/Calloc.antt =====
-- `calloc` clears what it returns.
use rv32_emulator.Common.{
  and_then, ℕ, suc, ◌+◌, ◌*◌, ◌^◌, ◌<◌, ◌≡◌, ◌≢◌, refl, ◌∙◌, ap, ◌⊎◌, inl, inr, arith, u32, some,
}
use rv32_emulator.Memory.{memset}
use rv32_emulator.Memory.Copy.{memset_lem}
use rv32_emulator.Alloc.{Machine, null, malloc, calloc, clear_new}
use rv32_emulator.Alloc.Live.{IsLive, Taken, Refused, malloc-IsLive}

clear_new-ne :
    (n p : ℕ) (t : Machine)
    → p ≢ null
    → clear_new n (p, t) ≡ (p, record t { bytes = (memset p 0 n t.bytes).1 })
unfolding clear_new
clear_new-ne n p t ne = ground arith

clear_new-null : (n : ℕ) (t : Machine) → clear_new n (null, t) ≡ (null, t)
unfolding clear_new
clear_new-null n t = refl

-- In a live state, with a product below 1 GB, `calloc(nmemb, size)` either returns a pointer at
-- which `nmemb * size` bytes are zero, with the bytes below the old end of the heap as before, or
-- the heap has no room, and it returns NULL and changes nothing.
pub calloc_lem :
    (fuel nmemb size : ℕ) (s : Machine)
    → IsLive s
    → nmemb * size < 2 ^ 30
    → (t : Machine) × (p : ℕ) × (calloc (suc (suc fuel)) nmemb size s ≡ some (p, t))
      × (((p ≡ s.heap_end + 13)
            × (t.heap_end ≡ s.heap_end + (16 + nmemb * size))
            × ((i : ℕ) → i < nmemb * size → t.bytes (p + i) ≡ 0)
            × ((a : ℕ) → a < s.heap_end → t.bytes a ≡ s.bytes a))
          ⊎ Refused (nmemb * size) s p t)
unfolding calloc
calloc_lem fuel nmemb size s live small =
    let n = nmemb * size in
    let word : u32 n ≡ n = omega arith in rw word (go n (malloc-IsLive fuel n s live small))
  where
    go :
        (n : ℕ)
        → (t : Machine) × (p : ℕ) × (malloc (suc (suc fuel)) n s ≡ some (p, t))
          × IsLive t
          × (t.mem_head ≡ s.mem_head)
          × (Taken n s p t ⊎ Refused n s p t)
        → (t : Machine) × (p : ℕ) × (and_then
              (malloc (suc (suc fuel)) n s)
              (λ r. some (clear_new n r))
            ≡ some (p, t))
          × (((p ≡ s.heap_end + 13)
                × (t.heap_end ≡ s.heap_end + (16 + n))
                × ((i : ℕ) → i < n → t.bytes (p + i) ≡ 0)
                × ((a : ℕ) → a < s.heap_end → t.bytes a ≡ s.bytes a))
              ⊎ Refused n s p t)
    go n (t, p, run, live', head, inr (z, same, full)) =
        (t, p, rw run (ap some (rw z (clear_new-null n t))), inr (z, same, full))
    go n (t, p, run, live', head, inl (at, grown, sized, kept)) =
        let clear = (memset_lem p 0 n t.bytes (omega (arith, live'.end_below))).1 in
        (
          record t { bytes = (memset p 0 n t.bytes).1 },
          p,
          rw run (ap some (clear_new-ne n p t (omega arith))),
          inl (
            at,
            grown,
            (λ i h. clear (p + i) ∙ ground arith),
            (λ a h. clear a ∙ ground (arith, kept a (inl h))),
          ),
        )
