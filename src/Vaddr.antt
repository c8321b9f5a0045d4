-- ===== src/Vaddr.antt =====
-- c_test/vaddr.c: the page table and the register that points to it.
pub mod Main
mod Tests
use Prim.Native.Nat.{bit_or}
use rv32_emulator.Common.{
  ℕ, zero, suc, ◌+◌, ◌-◌, ◌*◌, ◌/◌, ◌%◌, ◌^◌, ◌≤◌, ◌<◌, ◌≡◌, refl, ◌∙◌, ◌⊎◌, inl, inr, arith, add32,
  add32-eq, u32, Bool, true, false, ◌&&◌, ◌==◌, ==_iff, if◌then◌else◌, Bool-cases,
}
use rv32_emulator.Memory.{Bytes}
use rv32_emulator.Memory.Word.{
  load32, store32, load32-store32_self, load32-store32_outside, store32_outside,
}

abbrev pub page_size : ℕ
page_size = 4096

abbrev pub base_addr : ℕ
base_addr = 0x8000_2000

-- `SATP_SV32 | (pagetable >> 12)`
unfoldable pub make_satp : ℕ → ℕ
make_satp pagetable = bit_or (2 ^ 31) (pagetable / 2 ^ 12)

-- `BASE_ADDR + PAGE_SIZE * i | 0x1`: the sum binds tighter.
unfoldable pub table_entry : ℕ → ℕ
table_entry i = bit_or (u32 (base_addr + page_size * i)) 1

-- The loop of `ptable_init`, with `left` rounds to go.
pub init_loop : (left i : ℕ) → Bytes → Bytes
init_loop zero i m = m
init_loop (suc left) i m =
    init_loop left (i + 1) (store32 m (add32 base_addr (4 * i)) (table_entry i))

pub ptable_init : Bytes → Bytes
unfolding init_loop
ptable_init m = init_loop 1024 0 m

-- The sum, in which the set bit does not meet the address.
abbrev plain_entry : ℕ → ℕ
plain_entry i = base_addr + page_size * i + 1

-- Whether the first `rounds` entries are such sums, by computing them.
entries_agree : (rounds : ℕ) → Bool
unfolding table_entry
entries_agree zero = true
entries_agree (suc i) = entries_agree i && table_entry i == plain_entry i

agree-plain :
    (rounds i : ℕ) → i < rounds → entries_agree rounds ≡ true → table_entry i ≡ plain_entry i
unfolding entries_agree
agree-plain zero i lt run = elim lt [ ]
agree-plain (suc last) i lt run = elim (Bool-cases (i == last)) [
  | inl here ↦
      let e : i ≡ last = ground (arith, here) in
      let at : (table_entry last == plain_entry last) ≡ true = ground (arith, run) in
      rw e ((==_iff _ _).0 at)
  | inr other ↦ agree-plain last i (ground (arith, other)) (ground (arith, run))
]

table-agrees : entries_agree 1024 ≡ true
unfolding entries_agree table_entry
table-agrees = refl

pub table_entry_lem : (i : ℕ) → i < 1024 → table_entry i ≡ plain_entry i
table_entry_lem i h = agree-plain 1024 i h table-agrees

-- Entries below the loop's counter are not written again.
init_loop_below :
    (left i k : ℕ) (m : Bytes)
    → i + left ≤ 1024
    → k < i
    → load32 (init_loop left i m) (base_addr + 4 * k) ≡ load32 m (base_addr + 4 * k)
unfolding init_loop
init_loop_below zero i k m h lt = refl
init_loop_below (suc left) i k m h lt = rw (add32-eq base_addr (4 * i) (omega arith)) (
    init_loop_below left (i + 1) k (store32 m (base_addr + 4 * i) (table_entry i)) (omega arith)
      (omega arith)
    ∙ load32-store32_outside m (base_addr + 4 * i) (base_addr + 4 * k) (table_entry i) (omega arith)
        (omega arith) (omega arith))

at_or_behind : (i k : ℕ) → i ≤ k → (i ≡ k) ⊎ (i + 1 ≤ k)
at_or_behind i k lo = ground arith

init_loop_lem :
    (left i k : ℕ) (m : Bytes)
    → i + left ≤ 1024
    → i ≤ k
    → k < i + left
    → load32 (init_loop left i m) (base_addr + 4 * k) ≡ table_entry k
unfolding init_loop
init_loop_lem zero i k m h lo hi = absurd (omega arith)
init_loop_lem (suc left) i k m h lo hi =
    rw (add32-eq base_addr (4 * i) (omega arith)) (elim (at_or_behind i k lo) [
      | inl e ↦ rw (← e) (
          init_loop_below left (i + 1) i (store32 m (base_addr + 4 * i) (table_entry i))
            (omega arith) (omega arith)
          ∙ load32-store32_self m (base_addr + 4 * i) (table_entry i) (omega arith)
              (omega (arith, table_entry_lem i (omega arith))))
      | inr behind ↦
          init_loop_lem left (i + 1) k (store32 m (base_addr + 4 * i) (table_entry i)) (omega arith)
            behind (omega arith)
    ])

init_loop-outside :
    (left i a : ℕ) (m : Bytes)
    → i + left ≤ 1024
    → (a < base_addr) ⊎ (base_addr + 4096 ≤ a)
    → init_loop left i m a ≡ m a
unfolding init_loop
init_loop-outside zero i a m h out = refl
init_loop-outside (suc left) i a m h out = rw (add32-eq base_addr (4 * i) (omega arith)) (
    init_loop-outside left (i + 1) a (store32 m (base_addr + 4 * i) (table_entry i)) (omega arith)
      out
    ∙ store32_outside m (base_addr + 4 * i) (table_entry i) a (omega arith) (omega arith))

-- After `ptable_init` the 1024 words at 0x80002000 are the addresses of as many pages from there
-- on, each with the valid bit set and no other flag, and no byte outside them has changed.
pub ptable_init_lem :
    (m : Bytes) (i a : ℕ)
    → i < 1024
    → (a < base_addr) ⊎ (base_addr + 4096 ≤ a)
    → (load32 (ptable_init m) (base_addr + 4 * i) ≡ base_addr + page_size * i + 1)
      × (ptable_init m a ≡ m a)
unfolding ptable_init
ptable_init_lem m i a h out = (
  init_loop_lem 1024 0 i m (omega arith) (omega arith) (omega arith) ∙ table_entry_lem i h,
  init_loop-outside 1024 0 a m (omega arith) out,
)

-- The physical address in an Sv32 page table entry: its bits from 10 on are a page number.
abbrev pub sv32_address : ℕ → ℕ
sv32_address entry = entry / 2 ^ 10 * 2 ^ 12

-- Read as the Sv32 format has it, with the page number from bit 10 on, entry `i` of the table names
-- four times the address that was put there, and so no page of the table's range.
pub ptable_init-sv32 :
    (m : Bytes) (i : ℕ)
    → i < 1024
    → (sv32_address (load32 (ptable_init m) (base_addr + 4 * i)) ≡ 4 * (base_addr + page_size * i))
      × (base_addr + page_size * 1024 ≤ sv32_address (load32 (ptable_init m) (base_addr + 4 * i)))
ptable_init-sv32 m i h = rw ((ptable_init_lem m i 0 h (omega arith)).0) (omega arith, omega arith)

-- The register is written with the Sv32 mode bit and the number of the table's page.
satp_value : make_satp base_addr ≡ 0x8008_0002
unfolding make_satp
satp_value = refl
