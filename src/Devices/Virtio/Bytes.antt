-- ===== src/Devices/Virtio/Bytes.antt =====
-- The registers of the block device by single bytes, half words and words.
use rv32_emulator.Common.{
  ℕ, ◌+◌, ◌-◌, ◌*◌, ◌%◌, ◌^◌, ◌≤◌, ◌<◌, ◌≡◌, refl, ◌∙◌, sym, ap, ◌⊎◌, inl, inr, arith, add32,
}
use rv32_emulator.Devices.{done}
use rv32_emulator.Devices.Virtio.{Sizes, byte, half_word, word, virtio_base, Virtio}
use rv32_emulator.Devices.Virtio.Access.{
  part, put_bits, merge, read_register, write_register, first, queue_page, register_at, read, write,
}
use rv32_emulator.Devices.Virtio.Decode.{register_at-first}

abbrev pub bytes_of : Sizes → ℕ
bytes_of byte = 1
bytes_of half_word = 2
bytes_of word = 4

-- What is merged into a register is read back from there, and the other bytes are kept.
abbrev pub Merged : (size : Sizes) (i value reg : ℕ) → Type 0
Merged size i value reg =
    (part size i (merge size i value reg) ≡ value % 2 ^ (8 * bytes_of size))
    × ((j : ℕ)
        → j < 4
        → (j < i) ⊎ (i + bytes_of size ≤ j)
        → part byte j (merge size i value reg) ≡ part byte j reg)

every_byte : (P : ℕ → Type 0) → P 0 → P 1 → P 2 → P 3 → (j : ℕ) → j < 4 → P j
every_byte P p0 p1 p2 p3 j lt = elim (below4 j lt) [
  | inl e ↦ rw e p0
  | inr (inl e) ↦ rw e p1
  | inr (inr (inl e)) ↦ rw e p2
  | inr (inr (inr e)) ↦ rw e p3
]
  where
    below4 : (i : ℕ) → i < 4 → (i ≡ 0) ⊎ ((i ≡ 1) ⊎ ((i ≡ 2) ⊎ (i ≡ 3)))
    below4 i small = omega arith

part-merge :
    (size : Sizes) (i value reg : ℕ)
    → i + bytes_of size ≤ 4
    → value < 2 ^ 32
    → reg < 2 ^ 32
    → Merged size i value reg
unfolding part merge put_bits
part-merge byte i value reg fits small small' =
    every_byte (λ k. Merged byte k value reg)
      (
        omega arith,
        every_byte _ (λ out. omega arith) (λ out. omega arith) (λ out. omega arith)
            (λ out. omega arith),
      )
      (
        omega arith,
        every_byte _ (λ out. omega arith) (λ out. omega arith) (λ out. omega arith)
            (λ out. omega arith),
      )
      (
        omega arith,
        every_byte _ (λ out. omega arith) (λ out. omega arith) (λ out. omega arith)
            (λ out. omega arith),
      )
      (
        omega arith,
        every_byte _ (λ out. omega arith) (λ out. omega arith) (λ out. omega arith)
            (λ out. omega arith),
      )
      i (omega arith)
part-merge half_word i value reg fits small small' =
    every_byte (λ k. k + 2 ≤ 4 → Merged half_word k value reg)
      (λ _. (
        omega arith,
        every_byte _ (λ out. omega arith) (λ out. omega arith) (λ out. omega arith)
            (λ out. omega arith),
      ))
      (λ _. (
        omega arith,
        every_byte _ (λ out. omega arith) (λ out. omega arith) (λ out. omega arith)
            (λ out. omega arith),
      ))
      (λ _. (
        omega arith,
        every_byte _ (λ out. omega arith) (λ out. omega arith) (λ out. omega arith)
            (λ out. omega arith),
      ))
      (λ wide. absurd (omega arith)) i (omega arith) fits
part-merge word i value reg fits small small' =
    let e : i ≡ 0 = omega arith in
    rw e (
      omega arith,
      every_byte _ (λ out. omega arith) (λ out. omega arith) (λ out. omega arith)
          (λ out. omega arith),
    )

-- A register that is read and written at the same place.
at_page :
    (size : Sizes) (i value : ℕ) (v : Virtio)
    → i < 4
    → (write size (0x40 + i) value v
        ≡ done (record v { queue_pfn = merge size i value v.queue_pfn }))
      × (read size (0x40 + i) v ≡ done (part size i v.queue_pfn))
unfolding write read write_register read_register
at_page size i value v lt =
    let e : add32 (0x40 + i) virtio_base ≡ first queue_page + i = unfold add32 in omega arith in
    let at = register_at-first queue_page i (omega arith) in
    let back : add32 (0x40 + i) virtio_base - first queue_page ≡ i = unfold add32 in omega arith in
    rw (write, read, e) (rw at (rw back (refl, refl)))

-- The page number of the queue is memory for accesses of each size that lie in it: what is written
-- is read back, and its other bytes stay.
pub page-bytes :
    (size : Sizes) (i value j : ℕ) (v : Virtio)
    → i + bytes_of size ≤ 4
    → value < 2 ^ 32
    → v.queue_pfn < 2 ^ 32
    → j < 4
    → (j < i) ⊎ (i + bytes_of size ≤ j)
    → (v' : Virtio) × (write size (0x40 + i) value v ≡ done v')
      × (read size (0x40 + i) v' ≡ done (value % 2 ^ (8 * bytes_of size)))
      × (read byte (0x40 + j) v' ≡ read byte (0x40 + j) v)
page-bytes size i value j v fits small small' lt out =
    let v' = record v { queue_pfn = merge size i value v.queue_pfn } in
    let inside : i < 4 = below size i fits in
    let (self, other) = part-merge size i value v.queue_pfn fits small small' in
    (
      v',
      (at_page size i value v inside).0,
      (at_page size i value v' inside).1 ∙ ap done self,
      (at_page byte j value v' lt).1
          ∙ ap done (other j lt out)
          ∙ sym ((at_page byte j value v lt).1),
    )
  where
    below : (k : Sizes) (l : ℕ) → l + bytes_of k ≤ 4 → l < 4
    below byte l h = omega arith
    below half_word l h = omega arith
    below word l h = omega arith

-- A word written to the acknowledge register is stored in the interrupt status, as it is: it is what
-- the next read of the status gives, so that an acknowledge of bit 0 sets the bit.
pub ack-stores :
    (value : ℕ) (v : Virtio)
    → (v' : Virtio) × (write word 0x64 value v ≡ done v')
      × (v'.interrupt_status ≡ value)
      × (read word 0x60 v' ≡ done value)
unfolding write read write_register read_register register_at merge part add32
ack-stores value v = (record v { interrupt_status = value }, refl, refl, ap done (omega arith))
