-- ===== src/Str/Room.antt =====
-- A heap with room for a block: what `malloc` leaves where it has not been used or is live.
use rv32_emulator.Common.{ℕ, suc, ◌+◌, ◌≤◌, ◌<◌, ◌≡◌, refl, ◌⊎◌, inl, inr, arith, some}
use rv32_emulator.Alloc.{Machine, heap_start, heap_limit, malloc}
use rv32_emulator.Alloc.Live.{
  IsLive, IsFresh, bumped, malloc-bumped, bumped-IsLive, started, malloc-started, started-IsLive,
}
use rv32_emulator.Alloc.Block.{init_block-outside}

-- The heap ends at `e`: it is live, or nothing has been allocated yet.
abbrev pub Ready : Machine → ℕ → Type 0
Ready s e = (IsLive s × (e ≡ s.heap_end)) ⊎ (IsFresh s × (e ≡ heap_start))

-- What an allocation of `size` bytes at the end `e` of a ready heap leaves.
pub record Grown (s t : Machine) (e size : ℕ) : Type 0 where
  pub live : IsLive t
  pub end_at : t.heap_end ≡ e + (16 + size)
  pub start_at : heap_start ≤ e
  pub placed : (e + 13 ≡ t.mem_head + 13) ⊎ (t.mem_head + 29 ≤ e + 13)
  pub kept : (a : ℕ) → (a < e) ⊎ (e + 13 ≤ a) → t.bytes a ≡ s.bytes a
  pub same_head : IsLive s → t.mem_head ≡ s.mem_head

pub malloc-Grown :
    (fuel size e : ℕ) (s : Machine)
    → Ready s e
    → e + (16 + size) < heap_limit
    → (t : Machine) × (malloc (suc (suc fuel)) size s ≡ some (e + 13, t)) × Grown s t e size
malloc-Grown fuel size e s (inl (live, at)) room = rw at (
  bumped s.heap_end size s,
  malloc-bumped fuel size s live (rw at at room),
  record {
    live = bumped-IsLive fuel size s live (rw at at room);
    end_at = refl;
    start_at = omega (arith, live.head_above, live.head_below);
    placed = inr (omega (arith, live.head_below));
    kept = init_block-outside s.bytes s.heap_end size (omega arith);
    same_head = λ _. refl;
  },
)
malloc-Grown fuel size e s (inr (fresh, at)) room = rw at (
  started (suc (suc fuel)) size s,
  malloc-started (suc (suc fuel)) size s fresh (rw at at room),
  record {
    live = started-IsLive (suc (suc fuel)) size s fresh (rw at at room);
    end_at = refl;
    start_at = omega arith;
    placed = inl refl;
    kept = init_block-outside s.bytes heap_start size (omega arith);
    same_head = λ live. absurd (omega (arith, live.head_above, fresh.no_head));
  },
)

-- The source of a copy lies outside the two blocks that a new string takes from `e` on.
abbrev pub Clear : (source n e : ℕ) → Type 0
Clear source n e = (source + n ≤ e) ⊎ (e + 45 + n ≤ source)
