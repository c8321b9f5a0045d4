-- ===== src/Devices/Registers.antt =====
-- The register file of the interrupt controller: which register stands at which address.
use rv32_emulator.Common.{
  ℕ, ◌+◌, ◌-◌, ◌*◌, ◌/◌, ◌^◌, ◌<◌, ◌≡◌, ◌≢◌, refl, sym, ap, ◌∙◌, arith, add32-eq, Bool, true, false,
}
use rv32_emulator.Devices.{put, load_access_fault, store_access_fault, Outcome, done, fault}
use rv32_emulator.Devices.Plic.{
  Plic, plic_base, read_context, write_context, read_at, read, write_at, write, clear_pending,
}

pub data Register : Type 0 where
  priority_of : (source : ℕ) → Register
  pending_word : (i : ℕ) → Register
  enable_word : (i : ℕ) → Register
  threshold_of : (context : ℕ) → Register
  claim_of : (context : ℕ) → Register

-- The registers that there are: 1024 sources and 2 contexts.
abbrev pub Exists : Register → Type 0
Exists (priority_of source) = source < 1024
Exists (pending_word i) = i < 32
Exists (enable_word i) = i < 64
Exists (threshold_of context) = context < 2
Exists (claim_of context) = context < 2

-- The address of a register from the start of the device, as the memory map has it.
abbrev pub address_of : Register → ℕ
address_of (priority_of source) = 4 * source
address_of (pending_word i) = 0x1000 + 4 * i
address_of (enable_word i) = 0x2000 + 4 * i
address_of (threshold_of context) = 0x200000 + 0x1000 * context
address_of (claim_of context) = 0x200004 + 0x1000 * context

abbrev pub value_of : Register → Plic → ℕ
value_of (priority_of source) p = p.priority source
value_of (pending_word i) p = p.pending_bits i
value_of (enable_word i) p = p.enable_bits i
value_of (threshold_of context) p = p.threshold context
value_of (claim_of context) p = p.claim context

-- A write puts the value into the register, but at a claim register it completes an interrupt.
abbrev pub written : Register → (value : ℕ) → Plic → Outcome Plic
written (priority_of source) v p = done (record p { priority = put source v p.priority })
written (pending_word i) v p = done (record p { pending_bits = put i v p.pending_bits })
written (enable_word i) v p = done (record p { enable_bits = put i v p.enable_bits })
written (threshold_of context) v p = done (record p { threshold = put context v p.threshold })
written (claim_of context) v p = clear_pending v p

-- Each register that there is can be read and written at its address.
pub accesses :
    (r : Register) (value : ℕ) (p : Plic)
    → Exists r
    → (read true (address_of r) p ≡ done (value_of r p))
      × (write true (address_of r) value p ≡ written r value p)
unfolding read write read_at write_at read_context write_context
accesses (priority_of source) value p h =
    rw (add32-eq (4 * source) plic_base (omega arith)) (ground arith, ground arith)
accesses (pending_word i) value p h =
    rw (add32-eq (0x1000 + 4 * i) plic_base (omega arith)) (ground arith, ground arith)
accesses (enable_word i) value p h =
    rw (add32-eq (0x2000 + 4 * i) plic_base (omega arith)) (ground arith, ground arith)
accesses (threshold_of context) value p h =
    rw (add32-eq (0x200000 + 0x1000 * context) plic_base (omega arith)) (ground arith, ground arith)
accesses (claim_of context) value p h =
    rw (add32-eq (0x200004 + 0x1000 * context) plic_base (omega arith)) (ground arith, ground arith)

-- Where no register stands, and at every access that is not of a word, an exception is raised: the
-- one of loads at a read, and the one of stores at a write.
pub accesses-fault :
    (is_word : Bool) (a value : ℕ) (p : Plic)
    → a + plic_base < 2 ^ 32
    → (is_word ≡ true → (r : Register) → Exists r → address_of r ≢ a)
    → (read is_word a p ≡ fault load_access_fault)
      × (write is_word a value p ≡ fault store_access_fault)
unfolding read write read_at write_at read_context write_context
accesses-fault false a value p fits none = (refl, refl)
accesses-fault true a value p fits none =
    let at = none refl in
    let n0 = at (priority_of (a / 4)) in
    let n1 = at (pending_word ((a - 0x1000) / 4)) in
    let n2 = at (enable_word ((a - 0x2000) / 4)) in
    let n3 = at (threshold_of ((a - 0x200000) / 0x1000)) in
    let n4 = at (claim_of ((a - 0x200000) / 0x1000)) in
    rw (add32-eq a plic_base fits) (ground arith, ground arith)

-- The claim registers do not keep what is written.
abbrev pub IsPlain : Register → Type 0
IsPlain (priority_of source) = Unit {0}
IsPlain (pending_word i) = Unit {0}
IsPlain (enable_word i) = Unit {0}
IsPlain (threshold_of context) = Unit {0}
IsPlain (claim_of context) = ⊥

value_of-written_self :
    (r : Register) (v : ℕ) (p : Plic) {q : Plic}
    → IsPlain r
    → written r v p ≡ done q
    → value_of r q ≡ v
value_of-written_self (priority_of i) v p plain run = ground arith
value_of-written_self (pending_word i) v p plain run = ground arith
value_of-written_self (enable_word i) v p plain run = ground arith
value_of-written_self (threshold_of i) v p plain run = ground arith
value_of-written_self (claim_of i) v p plain run = absurd plain

-- A write to one array leaves the others, and the other elements of its own.
value_of-written_other :
    (r r' : Register) (v : ℕ) (p : Plic) {q : Plic}
    → IsPlain r
    → written r v p ≡ done q
    → address_of r' ≢ address_of r
    → value_of r' q ≡ value_of r' p
value_of-written_other (priority_of i) r' v p plain run = elim r' [
  | priority_of j ↦ λ ne. ground arith
  | pending_word j ↦ λ ne. ground arith
  | enable_word j ↦ λ ne. ground arith
  | threshold_of j ↦ λ ne. ground arith
  | claim_of j ↦ λ ne. ground arith
]
value_of-written_other (pending_word i) r' v p plain run = elim r' [
  | priority_of j ↦ λ ne. ground arith
  | pending_word j ↦ λ ne. ground arith
  | enable_word j ↦ λ ne. ground arith
  | threshold_of j ↦ λ ne. ground arith
  | claim_of j ↦ λ ne. ground arith
]
value_of-written_other (enable_word i) r' v p plain run = elim r' [
  | priority_of j ↦ λ ne. ground arith
  | pending_word j ↦ λ ne. ground arith
  | enable_word j ↦ λ ne. ground arith
  | threshold_of j ↦ λ ne. ground arith
  | claim_of j ↦ λ ne. ground arith
]
value_of-written_other (threshold_of i) r' v p plain run = elim r' [
  | priority_of j ↦ λ ne. ground arith
  | pending_word j ↦ λ ne. ground arith
  | enable_word j ↦ λ ne. ground arith
  | threshold_of j ↦ λ ne. ground arith
  | claim_of j ↦ λ ne. ground arith
]
value_of-written_other (claim_of i) r' v p plain run = absurd plain

-- The registers other than the claim registers are memory: a word written to one is read back, and
-- every register at another address reads as before.
pub read-write :
    (r r' : Register) (value : ℕ) (p : Plic) {q : Plic}
    → Exists r
    → Exists r'
    → IsPlain r
    → address_of r' ≢ address_of r
    → write true (address_of r) value p ≡ done q
    → (read true (address_of r) q ≡ done value)
      × (read true (address_of r') q ≡ read true (address_of r') p)
read-write r r' value p {q} ex ex' plain ne run =
    let stored : written r value p ≡ done q = sym ((accesses r value p ex).1) ∙ run in
    (
      (accesses r value q ex).0 ∙ ap done (value_of-written_self r value p plain stored),
      (accesses r' value q ex').0
          ∙ ap done (value_of-written_other r r' value p plain stored ne)
          ∙ sym ((accesses r' value p ex').0),
    )
