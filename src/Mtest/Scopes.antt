-- ===== src/Mtest/Scopes.antt =====
-- Each scope of mtest.c runs on a heap with room.
use rv32_emulator.Common.{
  ℕ, suc, ◌+◌, ◌-◌, ◌≤◌, ◌<◌, ◌≡◌, refl, ◌∙◌, ap, sym, arith, false, List, [], ◌∷◌, length, ◌==◌,
  if◌then◌else◌,
}
use rv32_emulator.Memory.{memset}
use rv32_emulator.Memory.Range.{within}
use rv32_emulator.Memory.Copy.{memcpy_lem, memset_lem}
use rv32_emulator.Alloc.{Machine, null, heap_start, heap_limit, free, clear_new, calloc}
use rv32_emulator.Alloc.Live.{IsLive}
use rv32_emulator.Alloc.Frame.{
  SameFrom, SameFrom-trans, IsBlock, free-IsLive, free-ends, free-SameOutside,
}
use rv32_emulator.CString.Content.{Holds-fits}
use rv32_emulator.CString.Length.{strlen_lem}
use rv32_emulator.Str.{copy_bytes}
use rv32_emulator.Str.Spelled.{Spelled, Spelled-shift}
use rv32_emulator.Str.Owns.{IsLive-ext}
use rv32_emulator.Str.Room.{Ready, Grown, malloc-Grown}
use rv32_emulator.Mtest.{show, fill_and_free, malloc_test, calloc_test}
use rv32_emulator.Mtest.Runs.{
  Literal, Literal-kept, Holds-Spelled, Output, exactly, starting_with, Prints, prints-nil,
  show-prints, Runs, Runs-at, allocated-Runs,
}

-- A copy of a literal into a block of a live heap.
module _ (p test : ℕ) (s : Machine) (cs : List ℕ) (live : IsLive s) (above : s.mem_head + 13 ≤ p)
    (fits : p + length cs ≤ s.heap_end) (lit : Literal s.bytes test cs) where
  abbrev pub copied : Machine
  copied = copy_bytes p test (length cs) s

  pub copied-at :
      (a : ℕ)
      → copied.bytes a ≡ (if within p (length cs) a then s.bytes (test + (a - p)) else s.bytes a)
  copied-at a =
      (memcpy_lem p test (length cs) s.bytes live.are_bytes (omega (arith, live.end_below))
          (omega (arith, Holds-fits s.bytes test cs lit.0))
          (omega (arith, live.head_above, live.end_below, lit.1))).1
        a

  copied-IsLive : IsLive copied
  copied-IsLive =
      IsLive-ext s copied live refl refl
        (λ a. rw (copied-at a) (ground (arith, live.are_bytes a, live.are_bytes (test + (a - p)))))
        (λ a lo hi. copied-at a ∙ ground arith)

  pub copied-Spelled : Spelled copied.bytes p cs
  copied-Spelled =
      Spelled-shift test p cs s.bytes copied.bytes
        (λ i lt. let e : p + i - p ≡ i = omega arith in copied-at (p + i) ∙ rw e (ground arith))
        (Holds-Spelled s.bytes test cs lit.0)

  copied-same : SameFrom heap_start s copied
  copied-same a out = copied-at a ∙ ground (arith, live.head_above)

  pub fill_and_free-Runs :
      (fuel : ℕ)
      → length cs < fuel
      → IsBlock p s
      → (o : Output) → Prints (record { pointer = p; memory = copied.bytes }) o
      → Runs (fill_and_free fuel p test) s s.heap_end (o ∷ [])
  unfolding fill_and_free
  fill_and_free-Runs fuel enough block o shown = record {
    after = free p copied;
    log = record { pointer = p; memory = copied.bytes } ∷ [];
    run = λ rest. rw (strlen_lem fuel test s.bytes cs enough (lit.0)) (
        ap (show p copied) (sym (prints-nil (rest (free p copied))))
        ∙ show-prints p copied [] (rest (free p copied)));
    shows = (shown, tt);
    live = free-IsLive p copied copied-IsLive block;
    end_at = (free-ends p copied copied-IsLive block).0;
    same =
        SameFrom-trans s copied (free p copied) heap_start heap_start (omega arith)
          (omega (arith, (free-ends p copied copied-IsLive block).0)) copied-same
          (free-SameOutside p copied copied-IsLive block);
  }

Grown-same : {e size : ℕ} (s t : Machine) → Grown s t e size → SameFrom heap_start s t
Grown-same s t grown a out = grown.kept a (omega (arith, grown.start_at, grown.end_at))

pub malloc_test-Runs :
    (fuel test e : ℕ) (s : Machine) (cs : List ℕ)
    → Ready s e
    → e + 56 < heap_limit
    → length cs ≤ 40
    → length cs < suc (suc fuel)
    → Literal s.bytes test cs
    → Runs (malloc_test (suc (suc fuel)) test) s (e + 56) (starting_with cs ∷ [])
unfolding malloc_test
malloc_test-Runs fuel test e s cs ready room short enough lit =
    let (t, run, grown) = malloc-Grown fuel 40 e s ready (omega arith) in
    let lit' = Literal-kept s t test cs grown.live (Grown-same s t grown) lit in
    let not_null : (e + 13 == null) ≡ false = ground arith in
    let above : t.mem_head + 13 ≤ e + 13 = omega (arith, grown.placed) in
    let fits : e + 13 + length cs ≤ t.heap_end = omega (arith, grown.end_at) in
    allocated-Runs s t (omega (arith, grown.end_at)) (Grown-same s t grown)
      (λ rest. rw run (rw not_null refl))
      (Runs-at
        (fill_and_free-Runs (e + 13) test t cs grown.live above fits lit' (suc (suc fuel)) enough
          (grown.placed, omega (arith, grown.end_at)) (starting_with cs)
          (copied-Spelled (e + 13) test t cs grown.live above fits lit'))
        grown.end_at)

pub calloc_test-Runs :
    (fuel test e : ℕ) (s : Machine) (cs : List ℕ)
    → Ready s e
    → e + 27 < heap_limit
    → length cs < 11
    → length cs < suc (suc fuel)
    → Literal s.bytes test cs
    → Runs (calloc_test (suc (suc fuel)) test) s (e + 27) (exactly cs ∷ [])
unfolding calloc_test calloc clear_new
calloc_test-Runs fuel test e s cs ready room short enough lit =
    let (t, run, grown) = malloc-Grown fuel 11 e s ready (omega arith) in
    let z : Machine = record t { bytes = (memset (e + 13) 0 11 t.bytes).1 } in
    let at = (memset_lem (e + 13) 0 11 t.bytes (omega arith)).1 in
    let live : IsLive z =
      IsLive-ext t z grown.live refl refl (λ a. rw (at a) (ground (arith, grown.live.are_bytes a)))
        (λ a lo hi. at a ∙ ground (arith, grown.placed)) in
    let same : SameFrom heap_start s z =
      λ a out. at a ∙ ground (arith, grown.start_at, grown.end_at) ∙ Grown-same s t grown a out in
    let lit' = Literal-kept s z test cs live same lit in
    let not_null : (e + 13 == null) ≡ false = ground arith in
    let above : t.mem_head + 13 ≤ e + 13 = omega (arith, grown.placed) in
    let fits : e + 13 + length cs ≤ t.heap_end = omega (arith, grown.end_at) in
    allocated-Runs s z (omega (arith, grown.end_at)) same
      (λ rest. rw run (rw not_null (rw not_null refl)))
      (Runs-at
        (fill_and_free-Runs (e + 13) test z cs live above fits lit' (suc (suc fuel)) enough
          (grown.placed, omega (arith, grown.end_at)) (exactly cs)
          (
            copied-Spelled (e + 13) test z cs live above fits lit',
            copied-at (e + 13) test z cs live above fits lit' (e + 13 + length cs)
                ∙ ground (arith, at (e + 13 + length cs)),
          ))
        grown.end_at)
