-- ===== src/Devices/Plic.antt =====
-- src/devices/plic.rs: the interrupt controller. Its arrays are functions from indices. The size of
-- an access is given as whether it is `Sizes::Word`; arithmetic is that of a release build, in which
-- a shift takes its distance modulo 32.
use rv32_emulator.Common.{
  ℕ, ◌+◌, ◌-◌, ◌*◌, ◌/◌, ◌%◌, add32, Bool, not, ◌||◌, Option, none, some, ltb, ◌==◌, if◌then◌else◌,
  set_bit, clear_bit, test_bit,
}
use rv32_emulator.Devices.{
  put, in_range, load_access_fault, store_access_fault, Outcome, done, fault, panics,
}

abbrev pub plic_base : ℕ
plic_base = 0xC00_0000

abbrev pub source_priority : ℕ
source_priority = plic_base

abbrev pub pending : ℕ
pending = plic_base + 0x1000

abbrev pub enable : ℕ
enable = plic_base + 0x2000

abbrev pub threshold_and_claim : ℕ
threshold_and_claim = plic_base + 0x200000

abbrev pub source_num : ℕ
source_num = 1024

abbrev pub word_size : ℕ
word_size = 4

abbrev pub context_offset : ℕ
context_offset = 0x1000

pub record Plic : Type 0 where
  pub priority : ℕ → ℕ
  pub pending_bits : ℕ → ℕ
  pub enable_bits : ℕ → ℕ
  pub threshold : ℕ → ℕ
  pub claim : ℕ → ℕ

unfoldable pub new : Plic
new = record {
  priority = λ i. 0;
  pending_bits = λ i. 0;
  enable_bits = λ i. 0;
  threshold = λ i. 0;
  claim = λ i. 0;
}

unfoldable pub is_enable : (context irq : ℕ) → Plic → Bool
is_enable context irq p =
    let index = irq % source_num / (word_size * 8) in
    let offset = irq % source_num % (word_size * 8) in
    test_bit offset (p.enable_bits (context * 32 + index))

unfoldable pub update_claim : (irq : ℕ) → Plic → Plic
unfolding is_enable
update_claim irq p =
    if is_enable 1 irq p || irq == 0 then record p { claim = put 1 irq p.claim } else p

unfoldable pub update_pending : (irq : ℕ) → Plic → Outcome Plic
unfolding update_claim
update_pending irq p =
    let index = irq / word_size in
    if ltb index 32
    then done (
        update_claim irq (record p {
          pending_bits = put index (set_bit (irq % 32) (p.pending_bits index)) p.pending_bits;
        }))
    else panics

unfoldable pub clear_pending : (irq : ℕ) → Plic → Outcome Plic
unfolding update_claim
clear_pending irq p =
    let index = irq / word_size in
    if ltb index 32
    then done (
        update_claim 0 (record p {
          pending_bits = put index (clear_bit (irq % 32) (p.pending_bits index)) p.pending_bits;
        }))
    else panics

-- The last range of `read`: the threshold and the claim register of a context.
unfoldable pub read_context : (a : ℕ) → Plic → Outcome ℕ
read_context a p =
    let context = (a - threshold_and_claim) / context_offset in
    let offset = a - (threshold_and_claim + context_offset * context) in
    if offset == 0
    then done (p.threshold context)
    else if offset == 4
    then done (p.claim context)
    else fault load_access_fault

-- The `match` of `read` on the address.
unfoldable pub read_at : (a : ℕ) → Plic → Outcome ℕ
unfolding read_context
read_at a p =
    if in_range source_priority (plic_base + 0xfff) a
    then if (a - source_priority) % word_size == 0
      then done (p.priority ((a - source_priority) / word_size))
      else fault load_access_fault
    else if in_range pending (plic_base + 0x107f) a
    then if (a - pending) % word_size == 0
      then done (p.pending_bits ((a - pending) / word_size))
      else fault load_access_fault
    else if in_range enable (plic_base + 0x20ff) a
    then if (a - enable) % word_size == 0
      then done (p.enable_bits ((a - enable) / word_size))
      else fault load_access_fault
    else if in_range threshold_and_claim (plic_base + 0x201007) a
    then read_context a p
    else fault load_access_fault

unfoldable pub read : (is_word : Bool) → (addr : ℕ) → Plic → Outcome ℕ
unfolding read_at
read is_word addr p =
    if not is_word then fault load_access_fault else read_at (add32 addr plic_base) p

-- The last range of `write`: a write to a claim register completes an interrupt.
unfoldable pub write_context : (a value : ℕ) → Plic → Outcome Plic
write_context a value p =
    let context = (a - threshold_and_claim) / context_offset in
    let offset = a - (threshold_and_claim + context_offset * context) in
    if offset == 0
    then done (record p { threshold = put context value p.threshold })
    else if offset == 4
    then clear_pending value p
    else fault store_access_fault

-- The `match` of `write`.
unfoldable pub write_at : (a value : ℕ) → Plic → Outcome Plic
unfolding write_context
write_at a value p =
    if in_range source_priority (plic_base + 0xfff) a
    then if (a - source_priority) % word_size == 0
      then done (record p { priority = put ((a - source_priority) / word_size) value p.priority })
      else fault store_access_fault
    else if in_range pending (plic_base + 0x107f) a
    then if (a - pending) % word_size == 0
      then done (record p { pending_bits = put ((a - pending) / word_size) value p.pending_bits })
      else fault store_access_fault
    else if in_range enable (plic_base + 0x20ff) a
    then if (a - enable) % word_size == 0
      then done (record p { enable_bits = put ((a - enable) / word_size) value p.enable_bits })
      else fault store_access_fault
    else if in_range threshold_and_claim (plic_base + 0x201007) a
    then write_context a value p
    else fault store_access_fault

unfoldable pub write : (is_word : Bool) → (addr value : ℕ) → Plic → Outcome Plic
unfolding write_at
write is_word addr value p =
    if not is_word then fault store_access_fault else write_at (add32 addr plic_base) value p

unfoldable pub get_interrupt : Plic → Option ℕ
get_interrupt p = if not (p.claim 1 == 0) then some (p.claim 1) else none
