-- ===== src/Emulator/DiskRead.antt =====
-- A read of the disk, from the notification of the driver to its interrupt.
use rv32_emulator.Common.{
  ◌+◌, ◌^◌, ◌≤◌, ◌≡◌, ◌≢◌, refl, ◌∙◌, ap, true, false, some, length, test_bit,
}
use rv32_emulator.Devices.{done}
use rv32_emulator.Devices.Clint.{mie, Pending, meip, msip, mtip, seip}
use rv32_emulator.Devices.Plic.{is_enable, get_interrupt}
use rv32_emulator.Devices.Virtio.{VirtqueueAddr, Virtio, no_notification, queue_addr, current_queue}
use rv32_emulator.Devices.Virtio.Disk.{is_writable, disk_access}
use rv32_emulator.Devices.Virtio.Loops.{filled}
use rv32_emulator.Devices.Virtio.Serve.{desc1_of, desc2_of, head_of, start_of, IsRequest, finished}
use rv32_emulator.Devices.Virtio.Requests.{disk_access-reads}
use rv32_emulator.Emulator.{Cpu, State, supervisor_external, are_enabled, is_posted, check_ints}
use rv32_emulator.Emulator.Gate.{is_due}
use rv32_emulator.Emulator.External.{block, check_ints-external}

module _ (c : Cpu) where
  open c use {bus, csr, registers, clint, plic, registers_rest, plic_rest}
  open bus use {memory, device, set_device, rest, memory_apart, rest_apart, device_put}
  open csr use {csr_read, place}

  is_posted-rest :
      (b : Pending) (s s' : State c) → rest s' ≡ rest s → is_posted c b s' ≡ is_posted c b s
  unfolding is_posted
  is_posted-rest b s s' same = rw (registers_rest s s' same) refl

  -- The device without its notification.
  quieted : State c → State c
  quieted s = set_device (record (device s) { queue_notify = no_notification }) s

  disk_access-quieted :
      (q : VirtqueueAddr) (s : State c)
      → current_queue (device s) ≡ done q
      → IsRequest bus q (memory s)
      → is_writable (desc1_of (memory s) q) ≡ true
      → start_of (memory s) q + (desc1_of (memory s) q).len ≤ 2 ^ 32
      → start_of (memory s) q + (desc1_of (memory s) q).len ≤ length (device s).disk
      → (s1 : State c) × (disk_access bus (quieted s) ≡ done (tt, s1))
        × (memory s1
            ≡ finished bus q (desc2_of (memory s) q).addr (head_of (memory s) q) (device s).id (
                filled
                  (desc1_of (memory s) q).addr
                  (desc1_of (memory s) q).len
                  (start_of (memory s) q)
                  (device s).disk
                  (memory s)))
        × ((device s1).queue_notify ≡ no_notification)
        × (rest s1 ≡ rest s)
  unfolding current_queue queue_addr quieted
  disk_access-quieted q s found req reads fits inside =
      let v0 = record (device s) { queue_notify = no_notification } in
      let m0 : memory (quieted s) ≡ memory s = memory_apart v0 s in
      let d0 : device (quieted s) ≡ v0 = device_put v0 s in
      let served =
        disk_access-reads bus q (quieted s) (rw d0 found) (rw m0 req) (rw m0 reads) (rw m0 fits)
          (rw (m0, d0) inside) in
      (
        served.after,
        served.returns,
        rw (served.left_memory, m0, d0) refl,
        rw (served.left_device, d0) refl,
        served.left_rest ∙ rest_apart v0 s,
      )

  -- The driver has laid out a request for a read of the disk (`IsRequest`), and has notified the
  -- device. The bytes asked for lie on the disk, below 4 GB, interrupts are enabled down to source 1
  -- for context 1, MSIP is bit 3, the timer is not due, and no interrupt of the machine is posted.
  -- Then `check_ints` takes the external interrupt of the supervisor, the interrupt controller has
  -- source 1 to claim, the memory has the bytes of the disk in the buffer and the words that end the
  -- request on top and is otherwise as before, and the notification is gone.
  pub check_ints-disk_read :
      (q : VirtqueueAddr) (s : State c)
      → csr.place msip ≡ 3
      → is_due (clint s) ≡ false
      → are_enabled c s ≡ true
      → (device s).queue_notify ≢ no_notification
      → current_queue (device s) ≡ done q
      → IsRequest bus q (memory s)
      → is_writable (desc1_of (memory s) q) ≡ true
      → start_of (memory s) q + (desc1_of (memory s) q).len ≤ 2 ^ 32
      → start_of (memory s) q + (desc1_of (memory s) q).len ≤ length (device s).disk
      → is_enable 1 1 (plic s) ≡ true
      → test_bit (place seip) (csr_read mie (registers s)) ≡ true
      → is_posted c meip s ≡ false
      → is_posted c msip s ≡ false
      → is_posted c mtip s ≡ false
      → (s' : State c) × (check_ints c s ≡ done (some supervisor_external, s'))
        × (get_interrupt (plic s') ≡ some 1)
        × (memory s'
            ≡ finished bus q (desc2_of (memory s) q).addr (head_of (memory s) q) (device s).id (
                filled
                  (desc1_of (memory s) q).addr
                  (desc1_of (memory s) q).len
                  (start_of (memory s) q)
                  (device s).disk
                  (memory s)))
        × ((device s').queue_notify ≡ no_notification)
  unfolding quieted
  check_ints-disk_read q s three quiet enabled notified found req reads fits inside source on o0 o1
        o2 =
      let (s1, ran, mem1, dev1, kept) = disk_access-quieted q s found req reads fits inside in
      let (s', run, claimed, raised, gone, mem, dev) =
        check_ints-external c s s1 1 three quiet enabled (block notified ran)
          (rw (plic_rest s s1 kept) source) (rw (registers_rest s s1 kept) on)
          (is_posted-rest meip s s1 kept ∙ o0) (is_posted-rest msip s s1 kept ∙ o1)
          (is_posted-rest mtip s s1 kept ∙ o2) in
      (s', run, claimed, mem ∙ mem1, ap (λ (v : Virtio). v.queue_notify) dev ∙ dev1)
