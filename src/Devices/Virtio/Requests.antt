-- ===== src/Devices/Virtio/Requests.antt =====
-- The requests that `disk_access` serves: reads and writes of the disk, and sectors behind its end.
use rv32_emulator.Common.{
  ℕ, ◌+◌, ◌^◌, ◌≤◌, ◌<◌, ◌≡◌, refl, ◌∙◌, ap, ◌⊎◌, inl, inr, arith, Bool-cases, true, false, List,
  length, set_bit,
}
use rv32_emulator.Memory.{Bytes}
use rv32_emulator.Devices.{done, panics}
use rv32_emulator.Devices.Virtio.{VirtqueueAddr, Virtio, current_queue}
use rv32_emulator.Devices.Bus.{Bus}
use rv32_emulator.Devices.Virtio.Disk.{is_writable, move_data, disk_access}
use rv32_emulator.Devices.Virtio.Loops.{
  filled, Taken, from_disk-all, to_disk-all, from_disk-panics, to_disk-panics,
}
use rv32_emulator.Devices.Virtio.Serve.{
  desc_at, place_of, head_of, desc1_of, desc2_of, start_of, IsRequest, Served, raised, desc2-kept,
  finish-Served, started,
}

module _ (b : Bus) where
  open b use {State, memory, device, set_device, IsMain, memory_apart, rest, rest_apart, device_put}

  -- Where the transfer leaves the third descriptor as it was, the request is served on top of it.
  moved_Served :
      (q : VirtqueueAddr) (s s2 : State) (found : current_queue (device s) ≡ done q)
      (req : IsRequest b q (memory s))
      → move_data b
          (desc1_of (memory s) q)
          (start_of (memory s) q)
          (set_device (raised b q s found req) s)
        ≡ done (tt, s2)
      → ((k : ℕ)
          → (k < (desc1_of (memory s) q).addr)
            ⊎ ((desc1_of (memory s) q).addr + (desc1_of (memory s) q).len ≤ k)
          → memory s2 k ≡ memory s k)
      → Served b q
          (desc2_of (memory s) q).addr
          (head_of (memory s) q)
          (memory s2)
          (device s2)
          (rest s2)
          (disk_access b s)
  moved_Served q s s2 found req moved same =
      let m = memory s in
      let d1 = desc1_of m q in
      let still : desc_at (memory s2) (place_of q d1.next) ≡ desc2_of m q =
        desc2-kept b (place_of q d1.next) d1.addr d1.len m (memory s2) req.desc2_fits req.apart
          same in
      let run = started b q s found req ∙ rw moved refl in
      rw run (
        finish-Served b q d1.next (head_of m q) (desc2_of m q) s2 still req.desc2_main
          req.status_main req.used_main req.id_main req.next2)

  -- A request to read the disk, of three descriptors in main memory (`IsRequest`): where the bytes
  -- asked for lie on the disk, below 4 GB, `disk_access` returns, with the bytes of the disk in the
  -- buffer, with the status 0, the index of the chain in the used ring and the new index of that ring
  -- written on top, and with no other byte of the memory changed; of the device only the interrupt
  -- status and the id have changed, and the rest of the processor has not.
  pub disk_access-reads :
      (q : VirtqueueAddr) (s : State)
      → current_queue (device s) ≡ done q
      → IsRequest b q (memory s)
      → is_writable (desc1_of (memory s) q) ≡ true
      → start_of (memory s) q + (desc1_of (memory s) q).len ≤ 2 ^ 32
      → start_of (memory s) q + (desc1_of (memory s) q).len ≤ length (device s).disk
      → Served b q
          (desc2_of (memory s) q).addr
          (head_of (memory s) q)
          (filled
            (desc1_of (memory s) q).addr
            (desc1_of (memory s) q).len
            (start_of (memory s) q)
            (device s).disk
            (memory s))
          (record (device s) { interrupt_status = set_bit 0 (device s).interrupt_status })
          (rest s)
          (disk_access b s)
  unfolding move_data
  disk_access-reads q s found req reads fits inside =
      let m = memory s in
      let d1 = desc1_of m q in
      let start = start_of m q in
      let v1 = raised b q s found req in
      let (s2, run, mem, dev, kept) =
        from_disk-all b d1.len d1.addr start (set_device v1 s) req.buffer_fits fits
          (rw (device_put v1 s) inside) req.buffer_main in
      let stored : memory s2 ≡ filled d1.addr d1.len start (device s).disk m =
        mem ∙ rw (device_put v1 s, memory_apart v1 s) refl in
      let held : device s2 ≡ v1 = dev ∙ device_put v1 s in
      rw (stored, held, kept ∙ rest_apart v1 s) at
        (moved_Served q s s2 found req (rw reads run)
          (λ k out. ap (λ (f : Bytes). f k) stored ∙ ground arith))

  -- A request to write the disk (`IsRequest`), to bytes of the disk below 4 GB: `disk_access`
  -- returns, the bytes of the buffer are on the disk and its others are as before, and of the memory
  -- only the words that end the request have changed.
  pub disk_access-writes :
      (q : VirtqueueAddr) (s : State)
      → current_queue (device s) ≡ done q
      → IsRequest b q (memory s)
      → is_writable (desc1_of (memory s) q) ≡ false
      → start_of (memory s) q + (desc1_of (memory s) q).len ≤ 2 ^ 32
      → start_of (memory s) q + (desc1_of (memory s) q).len ≤ length (device s).disk
      → (disk' : List ℕ) × Taken
          (desc1_of (memory s) q).addr
          (desc1_of (memory s) q).len
          (start_of (memory s) q)
          (memory s)
          (device s).disk
          disk'
        × Served b q
            (desc2_of (memory s) q).addr
            (head_of (memory s) q)
            (memory s)
            (record (device s) {
              interrupt_status = set_bit 0 (device s).interrupt_status;
              disk = disk';
            })
            (rest s)
            (disk_access b s)
  unfolding move_data
  disk_access-writes q s found req writes fits inside =
      let m = memory s in
      let d1 = desc1_of m q in
      let start = start_of m q in
      let v1 = raised b q s found req in
      let (s2, disk', run, mem, dev, kept, taken) =
        to_disk-all b d1.len d1.addr start (set_device v1 s) req.buffer_fits fits
          (rw (device_put v1 s) inside) req.buffer_main in
      let stored : memory s2 ≡ m = mem ∙ memory_apart v1 s in
      let held : device s2 ≡ record v1 { disk = disk' } =
        dev ∙ ap (λ (w : Virtio). record w { disk = disk' }) (device_put v1 s) in
      (
        disk',
        rw (memory_apart v1 s, device_put v1 s) at taken,
        rw (stored, held, kept ∙ rest_apart v1 s) at
            (moved_Served q s s2 found req (rw writes run)
              (λ k out. ap (λ (f : Bytes). f k) stored)),
      )

  -- A request (`IsRequest`) of at least one byte stops the emulator with a panic, in either direction,
  -- if 512 times its sector, modulo 2 ^ 32, is no less than the length of the disk.
  pub disk_access-panics :
      (q : VirtqueueAddr) (s : State)
      → current_queue (device s) ≡ done q
      → IsRequest b q (memory s)
      → 0 < (desc1_of (memory s) q).len
      → length (device s).disk ≤ start_of (memory s) q
      → disk_access b s ≡ panics
  unfolding move_data
  disk_access-panics q s found req some_byte outside =
      let m = memory s in
      let d1 = desc1_of m q in
      let v1 = raised b q s found req in
      let same = device_put v1 s in
      started b q s found req ∙ elim (Bool-cases (is_writable d1)) [
        | inl reads ↦ rw reads (
            rw
              (from_disk-panics b d1.len d1.addr (start_of m q) (set_device v1 s) some_byte
                (rw same outside) (omega arith))
              refl)
        | inr writes ↦ rw writes (
            rw
              (to_disk-panics b d1.len d1.addr (start_of m q) (set_device v1 s) some_byte
                (rw same outside) (omega arith) (omega (arith, req.buffer_fits))
                (req.buffer_main 0 some_byte))
              refl)
      ]
