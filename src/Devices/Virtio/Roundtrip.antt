-- ===== src/Devices/Virtio/Roundtrip.antt =====
-- What a request has written to the disk comes back with a request that reads it.
use rv32_emulator.Common.{
  ℕ, ◌+◌, ◌-◌, ◌^◌, ◌≤◌, ◌<◌, ◌≡◌, ◌∙◌, sym, ap, arith, u8, true, false, List, length,
}
use rv32_emulator.Memory.{Bytes}
use rv32_emulator.Memory.Range.{within}
use rv32_emulator.Devices.{done}
use rv32_emulator.Devices.Virtio.{VirtqueueAddr, Virtio, current_queue}
use rv32_emulator.Devices.Bus.{Bus}
use rv32_emulator.Devices.Virtio.Disk.{is_writable, disk_access}
use rv32_emulator.Devices.Virtio.Loops.{filled, Taken}
use rv32_emulator.Devices.Virtio.Serve.{desc1_of, desc2_of, head_of, start_of, IsRequest, finished}
use rv32_emulator.Devices.Virtio.Requests.{disk_access-reads, disk_access-writes}

filled-Taken :
    (place place' n start i : ℕ) (m m' : Bytes) (disk disk' : List ℕ)
    → Taken place n start m disk disk'
    → i < n
    → filled place' n start disk' m' (place' + i) ≡ u8 (m (place + i))
filled-Taken place place' n start i m m' disk disk' taken lt =
    let inside : within place' n (place' + i) ≡ true = ground arith in
    let inside' : within start n (start + i) ≡ true = ground arith in
    let e : start + (place' + i - place') ≡ start + i = omega arith in
    let e' : place + (start + i - start) ≡ place + i = omega arith in
    let twice : u8 (u8 (m (place + i))) ≡ u8 (m (place + i)) = omega arith in
    rw inside (rw e (rw (taken.at (start + i)) (rw inside' (rw e' twice))))

module _ (b : Bus) where
  open b use {State, memory, device}

  -- A request writes bytes of the disk below 4 GB, and a later one, of a device with the disk that
  -- the first has left, reads as many bytes from the same sector (`IsRequest` each). Then the memory
  -- behind the second is, under the words that end it, one in which its buffer has what the buffer of
  -- the first had.
  pub disk_access-roundtrip :
      (q q' : VirtqueueAddr) (s s1 t : State)
      → current_queue (device s) ≡ done q
      → IsRequest b q (memory s)
      → is_writable (desc1_of (memory s) q) ≡ false
      → start_of (memory s) q + (desc1_of (memory s) q).len ≤ 2 ^ 32
      → start_of (memory s) q + (desc1_of (memory s) q).len ≤ length (device s).disk
      → disk_access b s ≡ done (tt, s1)
      → (device t).disk ≡ (device s1).disk
      → current_queue (device t) ≡ done q'
      → IsRequest b q' (memory t)
      → is_writable (desc1_of (memory t) q') ≡ true
      → start_of (memory t) q' ≡ start_of (memory s) q
      → (desc1_of (memory t) q').len ≡ (desc1_of (memory s) q).len
      → (t1 : State) × (m : Bytes) × (disk_access b t ≡ done (tt, t1))
        × (memory t1
            ≡ finished b q' (desc2_of (memory t) q').addr (head_of (memory t) q') (device t).id m)
        × ((i : ℕ)
            → i < (desc1_of (memory s) q).len
            → m ((desc1_of (memory t) q').addr + i)
              ≡ u8 (memory s ((desc1_of (memory s) q).addr + i)))
  disk_access-roundtrip q q' s s1 t found req writes fits inside ran same found' req' reads start
        len =
      let (disk', taken, served) = disk_access-writes b q s found req writes fits inside in
      let left : served.after ≡ s1 = let e = sym served.returns ∙ ran in cc in
      let holds : (device t).disk ≡ disk' =
        same
        ∙ ap (λ x. (device x).disk) (sym left)
        ∙ ap (λ (v : Virtio). v.disk) served.left_device in
      let served' =
        disk_access-reads b q' t found' req' reads (rw (start, len) fits)
          (rw (start, len, holds, taken.same_length) inside) in
      (
        served'.after,
        _,
        served'.returns,
        served'.left_memory,
        λ i lt.
            rw (start, len, holds)
              (filled-Taken (desc1_of (memory s) q).addr (desc1_of (memory t) q').addr
                (desc1_of (memory s) q).len (start_of (memory s) q) i (memory s) (memory t)
                (device s).disk disk' taken lt),
      )
