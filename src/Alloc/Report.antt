-- ===== src/Alloc/Report.antt =====
-- `debug_heap` of c_test/mem.c: its five walks over the block list, with what they print where the
-- DEBUG macro is on (where it is off, the walks are made and print nothing).
use rv32_emulator.Common.{
  and_then, ℕ, zero, suc, ◌+◌, ◌%◌, ◌^◌, ◌<◌, ◌≡◌, refl, ap, arith, add32, ◌==◌, if◌then◌else◌,
  Bool-cases, not, Bool, Option, none, some, List, [], ◌∷◌, map, length, inl, inr,
}
use rv32_emulator.Memory.{Bytes}
use rv32_emulator.Alloc.{Machine, null, get_next, get_size, is_free}
use rv32_emulator.Alloc.Reuse.{Chain}

-- The totals, as `int`s that wrap.
pub record Totals : Type 0 where
  pub total : ℕ
  pub free_bytes : ℕ
  pub used : ℕ
  pub free_blocks : ℕ
  pub used_blocks : ℕ

pub record Report : Type 0 where
  pub totals : Totals
  pub free_sizes : List ℕ
  pub used_sizes : List ℕ
  pub free_addresses : List ℕ
  pub used_addresses : List ℕ

abbrev pub no_totals : Totals
no_totals = record { total = 0; free_bytes = 0; used = 0; free_blocks = 0; used_blocks = 0 }

-- One round of the first walk.
pub count_block : Bytes → ℕ → Totals → Totals
count_block m block t =
    if is_free m block
    then record t {
      total = add32 t.total (get_size m block);
      free_bytes = add32 t.free_bytes (get_size m block);
      free_blocks = add32 t.free_blocks 1;
    }
    else record t {
      total = add32 t.total (get_size m block);
      used = add32 t.used (get_size m block);
      used_blocks = add32 t.used_blocks 1;
    }

pub count_walk : (fuel block : ℕ) → Bytes → Totals → Option Totals
count_walk zero block m t = none
count_walk (suc fuel) block m t =
    let rest = count_walk fuel (get_next m block) m (count_block m block t) in
    if block == null then some t else rest

-- A walk that prints `show block` for the blocks that `keep` selects.
pub print_walk : (fuel block : ℕ) → Bytes → (keep : ℕ → Bool) → (show : ℕ → ℕ) → Option (List ℕ)
print_walk zero block m keep show = none
print_walk (suc fuel) block m keep show =
    let rest = print_walk fuel (get_next m block) m keep show in
    if block == null
    then some []
    else and_then rest (λ l. some (if keep block then show block ∷ l else l))

pub debug_heap : (fuel : ℕ) → Machine → Option Report
debug_heap fuel s =
    let m = s.bytes in
    let is_used = λ (b : ℕ). not (is_free m b) in
    and_then (count_walk fuel s.mem_head m no_totals) λ t.
      and_then (print_walk fuel s.mem_head m (is_free m) (get_size m)) λ fs.
        and_then (print_walk fuel s.mem_head m is_used (get_size m)) λ us.
          and_then (print_walk fuel s.mem_head m (is_free m) (λ b. b)) λ fa.
            and_then (print_walk fuel s.mem_head m is_used (λ b. b)) λ ua. some (record {
              totals = t;
              free_sizes = fs;
              used_sizes = us;
              free_addresses = fa;
              used_addresses = ua;
            })

-- The elements that a test selects, in order.
abbrev pub select : (ℕ → Bool) → List ℕ → List ℕ
select keep [] = []
select keep (b ∷ bs) = if keep b then b ∷ select keep bs else select keep bs

abbrev pub sum_sizes : Bytes → List ℕ → ℕ
sum_sizes m [] = 0
sum_sizes m (b ∷ bs) = get_size m b + sum_sizes m bs

-- The totals of a list of blocks, on top of `t`.
abbrev pub totals_of : Bytes → List ℕ → Totals → Totals
totals_of m bs t =
    let kept = select (is_free m) bs in
    let taken = select (λ b. not (is_free m b)) bs in
    record {
      total = (t.total + sum_sizes m bs) % 2 ^ 32;
      free_bytes = (t.free_bytes + sum_sizes m kept) % 2 ^ 32;
      used = (t.used + sum_sizes m taken) % 2 ^ 32;
      free_blocks = (t.free_blocks + length kept) % 2 ^ 32;
      used_blocks = (t.used_blocks + length taken) % 2 ^ 32;
    }

abbrev AreWords : Totals → Type 0
AreWords t =
    (t.total < 2 ^ 32)
    × (t.free_bytes < 2 ^ 32)
    × (t.used < 2 ^ 32)
    × (t.free_blocks < 2 ^ 32)
    × (t.used_blocks < 2 ^ 32)

count_block-AreWords : (m : Bytes) (b : ℕ) (t : Totals) → AreWords t → AreWords (count_block m b t)
unfolding count_block add32
count_block-AreWords m b t h = ground arith

count_walk_lem :
    (fuel p : ℕ) (m : Bytes) (t : Totals) (bs : List ℕ)
    → length bs < fuel
    → AreWords t
    → Chain m p bs
    → count_walk fuel p m t ≡ some (totals_of m bs t)
unfolding count_walk
count_walk_lem zero p m t bs enough words chain = elim enough [ ]
count_walk_lem (suc fuel) p m t [] enough words chain =
    let e : t ≡ totals_of m [] t = ground arith in rw chain (ap some e)
count_walk_lem (suc fuel) p m t (b ∷ bs) enough words (at, ne, rest) = rw at (
    rw
      (count_walk_lem fuel (get_next m b) m (count_block m b t) bs (omega arith)
        (count_block-AreWords m b t words) rest)
      (elim (Bool-cases (is_free m b)) [
        | inl is ↦ unfold count_block add32 in rw is (ground arith)
        | inr is_not ↦ unfold count_block add32 in rw is_not (ground arith)
      ]))

print_walk_lem :
    (fuel p : ℕ) (m : Bytes) (keep : ℕ → Bool) (show : ℕ → ℕ) (bs : List ℕ)
    → length bs < fuel
    → Chain m p bs
    → print_walk fuel p m keep show ≡ some (map show (select keep bs))
unfolding print_walk
print_walk_lem zero p m keep show bs enough chain = elim enough [ ]
print_walk_lem (suc fuel) p m keep show [] enough chain = ground arith
print_walk_lem (suc fuel) p m keep show (b ∷ bs) enough (at, ne, rest) = rw at (
    rw (print_walk_lem fuel (get_next m b) m keep show bs (omega arith) rest)
      (elim (Bool-cases (keep b)) [
        | inl is ↦ ground (arith, is)
        | inr is_not ↦ ground (arith, is_not)
      ]))

-- On a block list of fewer nodes than the fuel, the walks of `debug_heap` end and report exactly:
-- the sum of the sizes of all blocks, of the free ones and of the used ones, and the two numbers
-- of blocks, all modulo 2 ^ 32; and the sizes and the addresses of the free and of the used blocks,
-- in the order of the list.
pub debug_heap_lem :
    (fuel : ℕ) (s : Machine) (bs : List ℕ)
    → length bs < fuel
    → Chain s.bytes s.mem_head bs
    → debug_heap fuel s
      ≡ some (record {
        totals = totals_of s.bytes bs no_totals;
        free_sizes = map (get_size s.bytes) (select (is_free s.bytes) bs);
        used_sizes = map (get_size s.bytes) (select (λ b. not (is_free s.bytes b)) bs);
        free_addresses = map (λ b. b) (select (is_free s.bytes) bs);
        used_addresses = map (λ b. b) (select (λ b. not (is_free s.bytes b)) bs);
      })
unfolding debug_heap
debug_heap_lem fuel s bs enough chain =
    let m = s.bytes in
    let p = s.mem_head in
    let is_used = λ (b : ℕ). not (is_free m b) in
    rw
      (
        count_walk_lem fuel p m no_totals bs enough (omega arith) chain,
        print_walk_lem fuel p m (is_free m) (get_size m) bs enough chain,
        print_walk_lem fuel p m is_used (get_size m) bs enough chain,
        print_walk_lem fuel p m (is_free m) (λ b. b) bs enough chain,
        print_walk_lem fuel p m is_used (λ b. b) bs enough chain,
      )
      refl
