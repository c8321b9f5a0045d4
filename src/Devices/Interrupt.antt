-- ===== src/Devices/Interrupt.antt =====
-- An interrupt of the interrupt controller, from the source to its completion.
use rv32_emulator.Common.{
  ℕ, ◌+◌, ◌/◌, ◌%◌, ◌≤◌, ◌<◌, ◌≡◌, ◌≢◌, ◌↔◌, ◌⊎◌, refl, ◌∙◌, arith, Bool, true, false, none, some,
  ◌==◌, ==_refl, ltb, leb, leb→le, Bool-cases, inl, inr, set_bit, clear_bit, test_bit,
  test_bit-set_bit_self, test_bit-clear_bit_self, test_bit-set_bit_other, test_bit-clear_bit_other,
  add32,
}
use rv32_emulator.Devices.{put, done, panics}
use rv32_emulator.Devices.Plic.{
  Plic, is_enable, update_claim, update_pending, clear_pending, write, write_at, write_context,
  get_interrupt,
}

-- The address of the claim register of context 1.
abbrev pub sclaim : ℕ
sclaim = 0x201004

-- Whether the bit is set that a source sets when it is raised.
abbrev pub is_raised : (irq : ℕ) → Plic → Bool
is_raised irq p = test_bit (irq % 32) (p.pending_bits (irq / 4))

write-sclaim : (value : ℕ) (p : Plic) → write true sclaim value p ≡ clear_pending value p
unfolding write write_at write_context add32
write-sclaim value p = refl

raised : (irq : ℕ) → Plic → Plic
raised irq p = record p {
  pending_bits = put (irq / 4) (set_bit (irq % 32) (p.pending_bits (irq / 4))) p.pending_bits;
  claim = put 1 irq p.claim;
}

completed : (irq : ℕ) → Plic → Plic
completed irq p = record p {
  pending_bits = put (irq / 4) (clear_bit (irq % 32) (p.pending_bits (irq / 4))) p.pending_bits;
  claim = put 1 0 p.claim;
}

update-raised :
    (irq : ℕ) (p : Plic)
    → irq < 128
    → is_enable 1 irq p ≡ true
    → update_pending irq p ≡ done (raised irq p)
unfolding update_pending update_claim is_enable raised
update-raised irq p small on =
    let inside : ltb (irq / 4) 32 ≡ true = ground arith in
    let set : test_bit (irq % 1024 % 32) (p.enable_bits (32 + irq % 1024 / 32)) ≡ true = on in
    rw inside (rw set refl)

clear-completed : (irq : ℕ) (p : Plic) → irq < 128 → clear_pending irq p ≡ done (completed irq p)
unfolding clear_pending update_claim is_enable completed
clear-completed irq p small =
    let inside : ltb (irq / 4) 32 ≡ true = ground arith in
    rw inside (elim (Bool-cases (test_bit 0 (p.enable_bits 32))) [
      | inl on ↦ rw on refl
      | inr off ↦ rw off refl
    ])

-- A source other than 0 and below 128 that is enabled for context 1 becomes the interrupt when it is
-- raised, and its bit is set. That is so whatever its priority and the threshold are: the code looks
-- at neither, though its comments have a priority of 0 and one up to the threshold masked. When the
-- guest then writes its number to the claim register, there is no interrupt, even if other sources
-- are pending; the bit is cleared, and all other pending bits are as before it was raised.
pub raise_complete :
    (irq j k : ℕ) (p : Plic)
    → irq ≢ 0
    → irq < 128
    → is_enable 1 irq p ≡ true
    → (j ≢ irq / 4) ⊎ (k ≢ irq % 32)
    → (q : Plic) × (r : Plic) × (update_pending irq p ≡ done q)
      × (get_interrupt q ≡ some irq)
      × (is_raised irq q ≡ true)
      × (write true sclaim irq q ≡ done r)
      × (get_interrupt r ≡ none)
      × (is_raised irq r ≡ false)
      × (test_bit k (r.pending_bits j) ≡ test_bit k (p.pending_bits j))
unfolding get_interrupt raised completed
raise_complete irq j k p ne small on other =
    let i = irq / 4 in
    let here : (i == i) ≡ true = ==_refl i in
    let word = p.pending_bits i in
    let q = raised irq p in
    let r = completed irq q in
    (
      q,
      r,
      update-raised irq p small on,
      ground (arith, ne),
      rw here (test_bit-set_bit_self (irq % 32) word),
      write-sclaim irq q ∙ clear-completed irq q small,
      refl,
      rw here (test_bit-clear_bit_self (irq % 32) _),
      elim (Bool-cases (j == i)) [
        | inr apart ↦ rw apart refl
        | inl same ↦
            let e : j ≡ i = ground (arith, same) in
            let ne' : k ≢ irq % 32 = omega arith in
            rw e (
              rw here (
                test_bit-clear_bit_other k (irq % 32) _ ne'
                ∙ test_bit-set_bit_other k (irq % 32) word ne'))
      ],
    )

-- A write to the claim register stops the emulator with a panic exactly if the value is 128 or more.
pub complete-panics : (value : ℕ) (p : Plic) → (write true sclaim value p ≡ panics) ↔ (128 ≤ value)
unfolding clear_pending
complete-panics value p = rw (write-sclaim value p) (
  λ stopped. elim (Bool-cases (leb 128 value)) [
    | inl big ↦ leb→le 128 value big
    | inr less ↦ let run = clear-completed value p (ground (arith, less)) in cc
  ],
  λ big. let outside : ltb (value / 4) 32 ≡ false = ground arith in rw outside refl,
)

-- The memory map has the pending bit of source `i` at bit `i % 32` of word `i / 32`. Only sources
-- below 4 set it there: raising another one leaves that word as it was.
pub raise-elsewhere :
    (irq : ℕ) (p : Plic) {q : Plic}
    → 4 ≤ irq
    → update_pending irq p ≡ done q
    → q.pending_bits (irq / 32) ≡ p.pending_bits (irq / 32)
unfolding update_pending update_claim
raise-elsewhere irq p lo run =
    let apart : (irq / 32 == irq / 4) ≡ false = ground arith in ground (arith, apart)
