-- ===== src/Devices/Virtio/Notify.antt =====
-- The notification of the block device: a driver writes it, and the main loop takes it.
use rv32_emulator.Common.{
  ℕ, ◌-◌, ◌≡◌, ◌≢◌, refl, ◌∙◌, sym, ap, inl, inr, arith, add32, true, false, Option-cases, some,
  ◌==◌,
}
use rv32_emulator.Devices.{done}
use rv32_emulator.Devices.Virtio.{
  Sizes, byte, half_word, word, virtio_base, Virtio, no_notification, is_interrupting, reset,
}
use rv32_emulator.Devices.Virtio.Access.{
  write_status, merge, write_config, write_register, Register, magic, version, device_id, vendor_id,
  host_features, host_features_sel, guest_features, guest_features_sel, page_size, queue_sel,
  queue_num_max, queue_length, queue_alignment, queue_page, notifier, interrupts, interrupt_ack,
  device_status, configuration, first, register_at, write,
}
use rv32_emulator.Devices.Virtio.Queue.{write_status-eq}

write_status-notify :
    (reg : ℕ) (v : Virtio) {v' : Virtio}
    → write_status reg v ≡ done v'
    → v'.queue_notify ≡ v.queue_notify
unfolding reset
write_status-notify reg v run = let e = sym (write_status-eq reg v) ∙ run in ground (arith, e)

write_register-notify :
    (size : Sizes) (r : Register) (index value : ℕ) (v : Virtio) {v' : Virtio}
    → r ≢ notifier
    → write_register size r index value v ≡ done v'
    → v'.queue_notify ≡ v.queue_notify
unfolding write_register write_config
write_register-notify size magic index value v ne run = ground (arith, run)
write_register-notify size version index value v ne run = ground (arith, run)
write_register-notify size device_id index value v ne run = ground (arith, run)
write_register-notify size vendor_id index value v ne run = ground (arith, run)
write_register-notify size host_features index value v ne run = ground (arith, run)
write_register-notify size queue_num_max index value v ne run = ground (arith, run)
write_register-notify size interrupts index value v ne run = ground (arith, run)
write_register-notify size host_features_sel index value v ne run = ground (arith, run)
write_register-notify size guest_features index value v ne run = ground (arith, run)
write_register-notify size guest_features_sel index value v ne run = ground (arith, run)
write_register-notify size page_size index value v ne run = ground (arith, run)
write_register-notify size queue_sel index value v ne run = ground (arith, run)
write_register-notify size queue_length index value v ne run = ground (arith, run)
write_register-notify size queue_alignment index value v ne run = ground (arith, run)
write_register-notify size queue_page index value v ne run = ground (arith, run)
write_register-notify size interrupt_ack index value v ne run = ground (arith, run)
write_register-notify size notifier index value v ne run = absurd (ne refl)
write_register-notify size device_status index value v ne run =
    write_status-notify (merge size index value v.status) v run
write_register-notify byte configuration index value v ne run = ground (arith, run)
write_register-notify half_word configuration index value v ne run = ground (arith, run)
write_register-notify word configuration index value v ne run = ground (arith, run)

-- A row of writes that return, none of them to the notifier.
pub data Writes : Virtio → Virtio → Type 0 where
  no_write : {v : Virtio} → Writes v v
  one_more :
      {u v w : Virtio} (size : Sizes) (addr value : ℕ)
      → Writes u v
      → register_at (add32 addr virtio_base) ≢ some notifier
      → write size addr value v ≡ done w
      → Writes u w

write-notify :
    (size : Sizes) (addr value : ℕ) (v : Virtio) {v' : Virtio}
    → register_at (add32 addr virtio_base) ≢ some notifier
    → write size addr value v ≡ done v'
    → v'.queue_notify ≡ v.queue_notify
unfolding write
write-notify size addr value v {v'} ne run =
    elim (Option-cases (register_at (add32 addr virtio_base))) [
      | inl e ↦ ground (arith, e, run)
      | inr (r, e) ↦
          write_register-notify size r (add32 addr virtio_base - first r) value v
            (λ same. ne (e ∙ ap (λ (k : Register). some k) same)) (rw (write, e) at run)
    ]

Writes-notify : {u v : Virtio} → Writes u v → v.queue_notify ≡ u.queue_notify
Writes-notify no_write = refl
Writes-notify (one_more {v = v} size addr value before ne run) =
    write-notify size addr value v ne run ∙ Writes-notify before

write-notifier :
    (value : ℕ) (v : Virtio) → write word 0x50 value v ≡ done (record v { queue_notify = value })
unfolding write register_at write_register merge add32
write-notifier value v = refl

-- A word written to the notifier, other than the greatest one, makes the device interrupt at the
-- next poll, whatever else the driver has written in between; the poll takes the notification, so
-- that there is no second interrupt until the notifier is written again.
pub notified :
    (value : ℕ) (v v2 v3 : Virtio)
    → value ≢ no_notification
    → Writes (record v { queue_notify = value }) v2
    → Writes (record v2 { queue_notify = no_notification }) v3
    → (write word 0x50 value v ≡ done (record v { queue_notify = value }))
      × (is_interrupting v2 ≡ (true, record v2 { queue_notify = no_notification }))
      × (is_interrupting v3 ≡ (false, v3))
unfolding is_interrupting
notified value v v2 v3 ne before behind =
    let some_value : (v2.queue_notify == no_notification) ≡ false =
      rw (Writes-notify before) (ground arith) in
    (write-notifier value v, rw some_value refl, rw (Writes-notify behind) refl)
