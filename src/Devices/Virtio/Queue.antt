-- ===== src/Devices/Virtio/Queue.antt =====
-- The virtqueue of the block device: where it lies, and when it is set up.
use native.Mathlib.Nat.{div-add-mod', mod-lt, mul-mod_left}
use rv32_emulator.Common.{
  ℕ, ◌+◌, ◌-◌, ◌*◌, ◌/◌, ◌%◌, ◌^◌, ◌≤◌, ◌<◌, ◌≡◌, refl, ◌∙◌, sym, inl, inr, arith, add32, u32,
  false, Bool-cases, Option-cases, ◌==◌, if◌then◌else◌,
}
use rv32_emulator.Devices.{done, panics}
use rv32_emulator.Devices.Virtio.{
  queue_addr, VirtqueueAddr, Sizes, byte, half_word, word, virtio_base, Virtio, reset,
}
use rv32_emulator.Devices.Virtio.Access.{
  masked, write_status, merge, write_config, write_register, Register, magic, version, device_id,
  vendor_id, host_features, host_features_sel, guest_features, guest_features_sel, page_size,
  queue_sel, queue_num_max, queue_length, queue_alignment, queue_page, notifier, interrupts,
  interrupt_ack, device_status, configuration, register_at, first, write,
}

-- The test for DRIVER_OK never holds.
ok-unseen : (reg : ℕ) → (masked 2 reg / 2 ^ 3 == 1) ≡ false
ok-unseen reg = ground arith

-- So what is left of a write to the status register is the value, the reset, and the panic.
pub write_status-eq :
    (reg : ℕ) (v : Virtio)
    → write_status reg v ≡ (
        if masked 7 reg / 2 ^ 7 == 1
        then panics
        else done
            (if reg == 0 then reset (record v { status = reg }) else record v { status = reg }))
unfolding write_status reset
write_status-eq reg v = elim (Bool-cases (reg == 0)) [
  | inl zero ↦ rw (zero) (rw (ok-unseen reg) refl)
  | inr other ↦ rw (other) (rw (ok-unseen reg) refl)
]

write_status-virtqueue :
    (reg : ℕ) (v : Virtio) {v' : Virtio} → write_status reg v ≡ done v' → v'.virtqueue ≡ v.virtqueue
unfolding reset
write_status-virtqueue reg v run = let e = sym (write_status-eq reg v) ∙ run in ground (arith, e)

write_register-virtqueue :
    (size : Sizes) (r : Register) (index value : ℕ) (v : Virtio) {v' : Virtio}
    → write_register size r index value v ≡ done v'
    → v'.virtqueue ≡ v.virtqueue
unfolding write_register write_config
write_register-virtqueue size magic index value v run = ground (arith, run)
write_register-virtqueue size version index value v run = ground (arith, run)
write_register-virtqueue size device_id index value v run = ground (arith, run)
write_register-virtqueue size vendor_id index value v run = ground (arith, run)
write_register-virtqueue size host_features index value v run = ground (arith, run)
write_register-virtqueue size queue_num_max index value v run = ground (arith, run)
write_register-virtqueue size interrupts index value v run = ground (arith, run)
write_register-virtqueue size host_features_sel index value v run = ground (arith, run)
write_register-virtqueue size guest_features index value v run = ground (arith, run)
write_register-virtqueue size guest_features_sel index value v run = ground (arith, run)
write_register-virtqueue size page_size index value v run = ground (arith, run)
write_register-virtqueue size queue_sel index value v run = ground (arith, run)
write_register-virtqueue size queue_length index value v run = ground (arith, run)
write_register-virtqueue size queue_alignment index value v run = ground (arith, run)
write_register-virtqueue size queue_page index value v run = ground (arith, run)
write_register-virtqueue size notifier index value v run = ground (arith, run)
write_register-virtqueue size interrupt_ack index value v run = ground (arith, run)
write_register-virtqueue size device_status index value v run =
    write_status-virtqueue (merge size index value v.status) v run
write_register-virtqueue byte configuration index value v run = ground (arith, run)
write_register-virtqueue half_word configuration index value v run = ground (arith, run)
write_register-virtqueue word configuration index value v run = ground (arith, run)

-- No access sets up the virtqueue, not even one that sets the DRIVER_OK bit of the status: what a
-- write that returns leaves is the virtqueue from before it.
pub write-virtqueue :
    (size : Sizes) (addr value : ℕ) (v : Virtio) {v' : Virtio}
    → write size addr value v ≡ done v'
    → v'.virtqueue ≡ v.virtqueue
unfolding write
write-virtqueue size addr value v {v'} run =
    elim (Option-cases (register_at (add32 addr virtio_base))) [
      | inl e ↦ ground (arith, e, run)
      | inr (r, e) ↦
          write_register-virtqueue size r (add32 addr virtio_base - first r) value v
            (rw (write, e) at run)
    ]

-- The next multiple of the alignment behind `a`.
round_up :
    (a align : ℕ)
    → 0 < align
    → (a < (a / align + 1) * align)
      × ((a / align + 1) * align ≤ a + align)
      × ((a / align + 1) * align % align ≡ 0)
round_up a align pos =
    let q = a / align in
    let whole : q * align + a % align ≡ a = div-add-mod' a align in
    let less : a % align < align = mod-lt a pos in
    let next : (q + 1) * align ≡ q * align + align = omega arith in
    (omega arith, omega arith, mul-mod_left (q + 1) align)

-- Without overflow, and with an alignment other than zero, the descriptor table of a queue of
-- `queue_num` entries starts at the page that the driver gave, the available ring behind its
-- descriptors of 16 bytes, and the used ring at a multiple of the alignment that lies behind the end
-- of the available ring by at least one byte and at most the alignment: a ring that ends at such a
-- multiple does not get the used ring there, but one alignment further.
pub queue_addr_lem :
    (v : Virtio)
    → 0 < v.queue_align
    → v.queue_pfn * v.guest_page_size + 18 * v.queue_num + 6 + v.queue_align < 2 ^ 32
    → (q : VirtqueueAddr) × (queue_addr v ≡ done q)
      × (q.desc_addr ≡ v.queue_pfn * v.guest_page_size)
      × (q.avail_addr ≡ q.desc_addr + 16 * v.queue_num)
      × (q.avail_addr + (6 + 2 * v.queue_num) < q.used_addr)
      × (q.used_addr ≤ q.avail_addr + (6 + 2 * v.queue_num) + v.queue_align)
      × (q.used_addr % v.queue_align ≡ 0)
unfolding queue_addr
queue_addr_lem v pos fits =
    let base = v.queue_pfn * v.guest_page_size in
    let e0 : u32 base ≡ base = omega arith in
    let e1 : u32 (base + 16 * v.queue_num) ≡ base + 16 * v.queue_num = omega arith in
    let end = base + 16 * v.queue_num + (6 + 2 * v.queue_num) in
    let e2 : u32 end ≡ end = omega arith in
    let (behind, near, aligned) = round_up end v.queue_align pos in
    let used = (end / v.queue_align + 1) * v.queue_align in
    let e3 : u32 used ≡ used = omega arith in
    let some_align : (v.queue_align == 0) ≡ false = ground arith in
    (
      record { desc_addr = base; avail_addr = base + 16 * v.queue_num; used_addr = used },
      rw (e0) (rw (e1, e2) (rw (some_align, e3) refl)),
      refl,
      refl,
      behind,
      near,
      aligned,
    )
