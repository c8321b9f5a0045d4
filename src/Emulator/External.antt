-- ===== src/Emulator/External.antt =====
-- An interrupt of the serial port or of the block device, from the device to the processor.
use rv32_emulator.Common.{
  ℕ, ◌+◌, ◌/◌, ◌<◌, ◌≡◌, ◌≢◌, refl, ap, ◌∙◌, arith, true, false, some, ◌==◌, test_bit, inl, inr,
}
use rv32_emulator.Devices.{done}
use rv32_emulator.Devices.Clint.{mip, mie, Pending, meip, msip, mtip, seip, raise, lower}
use rv32_emulator.Devices.Timer.{is_pending-raise, is_pending-raise_other}
use rv32_emulator.Devices.Uart
use rv32_emulator.Devices.Plic.{Plic, is_enable, update_pending, get_interrupt}
use rv32_emulator.Devices.Interrupt.{is_raised, raise_complete}
use rv32_emulator.Devices.Virtio
use rv32_emulator.Devices.Virtio.Disk.{disk_access}
use rv32_emulator.Emulator.{
  Cpu, State, uart_irq, virtio_irq, supervisor_external, are_enabled, poll_devices, post_external,
  is_posted, take, take_pending, check_ints, early_timer,
}
use rv32_emulator.Emulator.Order.{is_posted-lower}
use rv32_emulator.Emulator.Gate.{is_due, early_timer-is_due}

is_interrupting-quiet :
    (v : Virtio.Virtio)
    → v.queue_notify ≡ Virtio.no_notification
    → Virtio.is_interrupting v ≡ (false, v)
unfolding Virtio.is_interrupting
is_interrupting-quiet v quiet =
    let e : (v.queue_notify == Virtio.no_notification) ≡ true = ground (arith, quiet) in rw e refl

is_interrupting-notified :
    (v : Virtio.Virtio)
    → v.queue_notify ≢ Virtio.no_notification
    → Virtio.is_interrupting v ≡ (true, record v { queue_notify = Virtio.no_notification })
unfolding Virtio.is_interrupting
is_interrupting-notified v notified =
    let e : (v.queue_notify == Virtio.no_notification) ≡ false = ground (arith, notified) in
    rw e refl

module _ (c : Cpu) where
  open c use {
    bus, csr, registers, set_registers, clint, uart, plic, set_plic, registers_put, registers_apart,
    plic_put, plic_apart, memory_registers, memory_plic, device_registers, device_plic,
  }
  open csr use {csr_read, place, read_other}

  -- The device whose interrupt the main loop sees, and the state when it has: of the serial port
  -- only where the block device is not notified, and of the block device when its disk access has
  -- returned.
  pub data Asks (s : State c) : (irq : ℕ) → State c → Type 0 where
    serial :
        Uart.is_interrupting (uart s) ≡ true
        → (bus.device s).queue_notify ≡ Virtio.no_notification
        → Asks s uart_irq (bus.set_device (bus.device s) s)
    block :
        {s1 : State c}
        → (bus.device s).queue_notify ≢ Virtio.no_notification
        → disk_access bus
            (bus.set_device (record (bus.device s) { queue_notify = Virtio.no_notification }) s)
          ≡ done (tt, s1)
        → Asks s virtio_irq s1

  poll_devices-Asks : {s s1 : State c} {irq : ℕ} → Asks s irq s1 → poll_devices c s ≡ done (irq, s1)
  unfolding poll_devices
  poll_devices-Asks {s} (serial rings quiet) =
      rw (is_interrupting-quiet (bus.device s) quiet) (rw rings refl)
  poll_devices-Asks {s} (block notified served) =
      rw (is_interrupting-notified (bus.device s) notified) (rw served refl)

  irq-less : {s s1 : State c} {irq : ℕ} → Asks s irq s1 → (irq ≢ 0) × (irq < 128)
  irq-less (serial rings quiet) = (omega arith, omega arith)
  irq-less (block notified served) = (omega arith, omega arith)

  -- The state behind the block that follows the two devices.
  posted : (s : State c) (p : Plic) → State c
  posted s p = let s1 = set_plic p s in set_registers (raise csr seip (registers s1)) s1

  post_external-posted :
      (irq : ℕ) (s : State c) {p : Plic}
      → irq ≢ 0
      → update_pending irq (plic s) ≡ done p
      → post_external c irq s ≡ done (tt, posted s p)
  unfolding post_external posted
  post_external-posted irq s ne ran =
      let e : (irq == 0) ≡ false = ground (arith, ne) in rw e (rw ran refl)

  registers-posted :
      (s : State c) (p : Plic) → registers (posted s p) ≡ raise csr seip (registers s)
  unfolding posted
  registers-posted s p = registers_put _ _ ∙ ap (raise csr seip) (registers_apart p s)

  plic-posted : (s : State c) (p : Plic) → plic (posted s p) ≡ p
  unfolding posted
  plic-posted s p = plic_apart _ _ ∙ plic_put p s

  memory-posted : (s : State c) (p : Plic) → bus.memory (posted s p) ≡ bus.memory s
  unfolding posted
  memory-posted s p = memory_registers _ _ ∙ memory_plic p s

  device-posted : (s : State c) (p : Plic) → bus.device (posted s p) ≡ bus.device s
  unfolding posted
  device-posted s p = device_registers _ _ ∙ device_plic p s

  mie-posted :
      (s : State c) (p : Plic) → csr_read mie (registers (posted s p)) ≡ csr_read mie (registers s)
  unfolding raise
  mie-posted s p = rw (registers-posted s p) (read_other mie mip _ (registers s) (cc) (inr refl))

  is_posted-posted_other :
      (b : Pending) (s : State c) (p : Plic)
      → b ≢ seip
      → is_posted c b (posted s p) ≡ is_posted c b s
  unfolding is_posted
  is_posted-posted_other b s p ne =
      rw (mie-posted s p)
        (rw (registers-posted s p) (rw (is_pending-raise_other csr b seip (registers s) ne) refl))

  is_posted-posted :
      (s : State c) (p : Plic)
      → test_bit (place seip) (csr_read mie (registers s)) ≡ true
      → is_posted c seip (posted s p) ≡ true
  unfolding is_posted
  is_posted-posted s p on =
      rw (mie-posted s p)
        (rw (registers-posted s p) (rw on (is_pending-raise csr seip (registers s))))

  take_pending-seip :
      (s : State c)
      → is_posted c meip s ≡ false
      → is_posted c msip s ≡ false
      → is_posted c mtip s ≡ false
      → is_posted c seip s ≡ true
      → take_pending c s
        ≡ (some supervisor_external, set_registers (lower csr seip (registers s)) s)
  unfolding take_pending take
  take_pending-seip s o0 o1 o2 on = rw o0 (rw o1 (rw o2 (rw on refl)))

  check_ints-open :
      (s : State c) {s1 s2 : State c} {irq : ℕ}
      → early_timer c s ≡ done false
      → are_enabled c s ≡ true
      → poll_devices c s ≡ done (irq, s1)
      → post_external c irq s1 ≡ done (tt, s2)
      → check_ints c s ≡ done (take_pending c s2)
  unfolding check_ints
  check_ints-open s early enabled polled next = rw early (rw enabled (rw polled (rw next refl)))

  -- A device asks, its source is enabled for context 1, and interrupts are enabled, the external one
  -- of the supervisor in MIE too; MSIP is bit 3, the timer is not due, and no interrupt of the
  -- machine is posted. Then `check_ints` takes the external interrupt of the supervisor, the
  -- interrupt controller has the source for the guest to claim, with its bit set, the interrupt is no
  -- longer posted, and the memory and the block device are those behind the device's part.
  pub check_ints-external :
      (s s1 : State c) (irq : ℕ)
      → csr.place msip ≡ 3
      → is_due (clint s) ≡ false
      → are_enabled c s ≡ true
      → Asks s irq s1
      → is_enable 1 irq (plic s1) ≡ true
      → test_bit (place seip) (csr_read mie (registers s1)) ≡ true
      → is_posted c meip s1 ≡ false
      → is_posted c msip s1 ≡ false
      → is_posted c mtip s1 ≡ false
      → (s' : State c) × (check_ints c s ≡ done (some supervisor_external, s'))
        × (get_interrupt (plic s') ≡ some irq)
        × (is_raised irq (plic s') ≡ true)
        × (is_posted c seip s' ≡ false)
        × (bus.memory s' ≡ bus.memory s1)
        × (bus.device s' ≡ bus.device s1)
  check_ints-external s s1 irq three quiet enabled asks source on o0 o1 o2 =
      let (p, q, ran, claimed, set, w, x, y, z) =
        raise_complete irq (irq / 4 + 1) 0 (plic s1) (irq-less asks).0 (irq-less asks).1 source
          (inl (omega arith)) in
      let t = posted s1 p in
      let kept : plic (set_registers (lower csr seip (registers t)) t) ≡ p =
        plic_apart _ _ ∙ plic-posted s1 p in
      (
        set_registers (lower csr seip (registers t)) t,
        check_ints-open s (early_timer-is_due c s three ∙ ap done quiet) enabled
              (poll_devices-Asks asks) (post_external-posted irq s1 (irq-less asks).0 ran)
            ∙ ap done (
                take_pending-seip t (is_posted-posted_other meip s1 p (cc) ∙ o0)
                  (is_posted-posted_other msip s1 p (cc) ∙ o1)
                  (is_posted-posted_other mtip s1 p (cc) ∙ o2) (is_posted-posted s1 p on)),
        rw kept claimed,
        rw kept set,
        is_posted-lower c seip t,
        memory_registers _ _ ∙ memory-posted s1 p,
        device_registers _ _ ∙ device-posted s1 p,
      )
