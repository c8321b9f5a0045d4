-- ===== src/Devices/Virtio/Serve.antt =====
-- What `disk_access` makes of a request: the three descriptors of a chain, as the driver has laid
-- them out in the main memory, and the transfer between the buffer of the second and the disk.
use rv32_emulator.Common.{
  ℕ, ◌+◌, ◌*◌, ◌%◌, ◌^◌, ◌≤◌, ◌<◌, ◌≡◌, refl, ◌∙◌, ap, ◌⊎◌, arith, add32, add32-eq, u32, true,
  false, set_bit, ◌==◌,
}
use rv32_emulator.Memory.{Bytes}
use rv32_emulator.Memory.Word.{load32, load32_ext}
use rv32_emulator.Devices.{Outcome, done, and_done}
use rv32_emulator.Devices.Virtio.{
  Sizes, byte, half_word, word, queue_size, VirtqueueAddr, Virtio, queue_addr, current_queue,
}
use rv32_emulator.Devices.Bus.{Bus, load, store}
use rv32_emulator.Devices.Virtio.Disk.{
  vring_desc_size, sector_size, VirtqDesc, has_next, new_desc, new_avail, move_data, set_id, finish,
  disk_access,
}

-- The descriptor at an address of the memory.
abbrev pub desc_at : Bytes → ℕ → VirtqDesc
desc_at m a = record {
  addr = load word m a;
  len = load word m (add32 a 8);
  flags = load half_word m (add32 a 12);
  next = load half_word m (add32 a 14);
}

-- Where the device looks for the index of the first descriptor.
abbrev pub ring_place : Bytes → VirtqueueAddr → ℕ
ring_place m q =
    add32 (add32 q.avail_addr 4) (load half_word m (add32 q.avail_addr 2) % 2 ^ 16 % queue_size)

abbrev pub head_of : Bytes → VirtqueueAddr → ℕ
head_of m q = load half_word m (ring_place m q)

abbrev pub place_of : VirtqueueAddr → ℕ → ℕ
place_of q index = add32 q.desc_addr (u32 (vring_desc_size * index))

abbrev pub desc0_of : Bytes → VirtqueueAddr → VirtqDesc
desc0_of m q = desc_at m (place_of q (head_of m q))

abbrev pub desc1_of : Bytes → VirtqueueAddr → VirtqDesc
desc1_of m q = desc_at m (place_of q (desc0_of m q).next)

abbrev pub desc2_of : Bytes → VirtqueueAddr → VirtqDesc
desc2_of m q = desc_at m (place_of q (desc1_of m q).next)

-- The first byte of the disk that is concerned.
abbrev pub start_of : Bytes → VirtqueueAddr → ℕ
start_of m q = u32 (load word m (add32 (desc0_of m q).addr 8) * sector_size)

module _ (b : Bus) where
  open b use {
    State, Rest, memory, device, set_device, read, write, IsMain, read_main, write_main,
    memory_apart, rest, rest_apart, device_put,
  }

  abbrev pub IsMainDesc : ℕ → Type 0
  IsMainDesc a =
      IsMain word a
      × IsMain word (add32 a 8)
      × IsMain half_word (add32 a 12)
      × IsMain half_word (add32 a 14)

  new_desc-main :
      (a : ℕ) (s : State) → IsMainDesc a → new_desc b a s ≡ done (desc_at (memory s) a, s)
  unfolding new_desc
  new_desc-main a s (h0, h1, h2, h3) =
      rw (read_main word a s h0, read_main word (add32 a 8) s h1)
        (rw (read_main half_word (add32 a 12) s h2, read_main half_word (add32 a 14) s h3) refl)

  -- Queue `q` holds a chain of three descriptors, all of it in main memory, the last of which the
  -- buffer of the second does not meet.
  pub record IsRequest (q : VirtqueueAddr) (m : Bytes) : Type 0 where
    pub flags_main : IsMain half_word q.avail_addr
    pub idx_main : IsMain half_word (add32 q.avail_addr 2)
    pub ring_main : IsMain half_word (ring_place m q)
    pub desc0_main : IsMainDesc (place_of q (head_of m q))
    pub desc1_main : IsMainDesc (place_of q (desc0_of m q).next)
    pub desc2_main : IsMainDesc (place_of q (desc1_of m q).next)
    pub sector_main : IsMain word (add32 (desc0_of m q).addr 8)
    pub status_main : IsMain byte (desc2_of m q).addr
    pub used_main : (i : ℕ) → i < 8 → IsMain word (add32 (add32 q.used_addr 4) (i * 8))
    pub id_main : IsMain half_word (add32 q.used_addr 2)
    pub buffer_main : (i : ℕ) → i < (desc1_of m q).len → IsMain byte ((desc1_of m q).addr + i)
    pub next0 : has_next (desc0_of m q) ≡ true
    pub next1 : has_next (desc1_of m q) ≡ true
    pub next2 : has_next (desc2_of m q) ≡ false
    pub buffer_fits : (desc1_of m q).addr + (desc1_of m q).len ≤ 2 ^ 32
    pub desc2_fits : place_of q (desc1_of m q).next + 16 ≤ 2 ^ 32
    pub apart :
        (place_of q (desc1_of m q).next + 16 ≤ (desc1_of m q).addr)
        ⊎ ((desc1_of m q).addr + (desc1_of m q).len ≤ place_of q (desc1_of m q).next)

  -- The words that end a request: the status, the element of the used ring, and its index.
  abbrev pub finished : VirtqueueAddr → (status head id : ℕ) → Bytes → Bytes
  finished q status head id m =
      store half_word
        (store word (store byte m status 0) (add32 (add32 q.used_addr 4) (id % queue_size * 8))
          head)
        (add32 q.used_addr 2) (add32 id 1)

  -- The third descriptor is still there behind a change of the buffer alone.
  pub desc2-kept :
      (a place n : ℕ) (m m' : Bytes)
      → a + 16 ≤ 2 ^ 32
      → (a + 16 ≤ place) ⊎ (place + n ≤ a)
      → ((k : ℕ) → (k < place) ⊎ (place + n ≤ k) → m' k ≡ m k)
      → desc_at m' a ≡ desc_at m a
  desc2-kept a place n m m' fits apart same =
      let kept : (i : ℕ) → i < 16 → m' (a + i) ≡ m (a + i) = λ i lt. same (a + i) (omega arith) in
      let at0 : m' a ≡ m a = same a (omega arith) in
      let a8 = add32-eq a 8 (omega arith) in
      let a12 = add32-eq a 12 (omega arith) in
      let a14 = add32-eq a 14 (omega arith) in
      let e0 : load32 m' a ≡ load32 m a =
        load32_ext m m' a (omega arith) at0 (kept 1 (omega arith)) (kept 2 (omega arith))
          (kept 3 (omega arith)) in
      let at8 : (i : ℕ) → i < 4 → m' (a + 8 + i) ≡ m (a + 8 + i) =
        λ i lt. same (a + 8 + i) (omega arith) in
      let e8 : load32 m' (a + 8) ≡ load32 m (a + 8) =
        load32_ext m m' (a + 8) (omega arith) (kept 8 (omega arith)) (at8 1 (omega arith))
          (at8 2 (omega arith)) (at8 3 (omega arith)) in
      let b12 : add32 (a + 12) 1 ≡ a + 13 = unfold add32 in omega arith in
      let b14 : add32 (a + 14) 1 ≡ a + 15 = unfold add32 in omega arith in
      let k12 = kept 12 (omega arith) in
      let k13 = kept 13 (omega arith) in
      let k14 = kept 14 (omega arith) in
      let k15 = kept 15 (omega arith) in
      rw (a8, a12, a14) (rw (e0, e8, b12, b14) (rw (k12, k13, k14, k15) refl))

  -- What a request leaves: the ending words on top of the memory `m`, the device `v` with the next
  -- id, and the rest `r`.
  pub record Served (q : VirtqueueAddr) (status head : ℕ) (m : Bytes) (v : Virtio) (r : Rest)
      (run : Outcome (Unit {0} × State)) : Type 0 where
    pub after : State
    pub returns : run ≡ done (tt, after)
    pub left_memory : memory after ≡ finished q status head v.id m
    pub left_device : device after ≡ record v { id = add32 v.id 1 }
    pub left_rest : rest after ≡ r

  -- Behind the transfer.
  pub finish-Served :
      (q : VirtqueueAddr) (next head : ℕ) (d : VirtqDesc) (s : State)
      → desc_at (memory s) (place_of q next) ≡ d
      → IsMainDesc (place_of q next)
      → IsMain byte d.addr
      → ((i : ℕ) → i < 8 → IsMain word (add32 (add32 q.used_addr 4) (i * 8)))
      → IsMain half_word (add32 q.used_addr 2)
      → has_next d ≡ false
      → Served q d.addr head (memory s) (device s) (rest s) (finish b q next head s)
  unfolding finish set_id
  finish-Served q next head d s stands main2 main_status main_used main_id ends =
      let (s3, run3, mem3, dev3, kept3) = write_main byte d.addr 0 s main_status in
      let place = add32 (add32 q.used_addr 4) ((device s).id % queue_size * 8) in
      let (s4, run4, mem4, dev4, kept4) =
        write_main word place head s3 (main_used ((device s).id % queue_size) (omega arith)) in
      let v5 = record (device s) { id = add32 (device s).id 1 } in
      let s5 = set_device v5 s4 in
      let (s6, run6, mem6, dev6, kept6) =
        write_main half_word (add32 q.used_addr 2) v5.id s5 main_id in
      let last : (d.flags % 2 == 0) ≡ true = ground (arith, ends) in
      let third : new_desc b (place_of q next) s ≡ done (d, s) =
        new_desc-main (place_of q next) s main2 ∙ ap (λ (e : VirtqDesc). done (e, s)) stands in
      record {
        after = s6;
        returns =
            rw third (
              rw last (rw run3 (rw dev3 (rw run4 (rw (dev4, dev3) (rw (device_put v5 s4) run6))))));
        left_memory = mem6 ∙ rw (memory_apart v5 s4, mem4, mem3) refl;
        left_device = dev6 ∙ device_put v5 s4;
        left_rest = kept6 ∙ rest_apart v5 s4 ∙ kept4 ∙ kept3;
      }

  -- In front of it.
  module _ (q : VirtqueueAddr) (s : State) (found : current_queue (device s) ≡ done q)
      (req : IsRequest q (memory s)) where
    abbrev pub raised : Virtio
    raised = record (device s) { interrupt_status = set_bit 0 (device s).interrupt_status }

    abbrev m : Bytes
    m = memory s

    abbrev s1 : State
    s1 = set_device raised s

    read1 : (size : Sizes) (a : ℕ) → IsMain size a → read size a s1 ≡ done (load size m a, s1)
    read1 size a h = rw (← memory_apart raised s) (read_main size a s1 h)

    desc1 : (a : ℕ) → IsMainDesc a → new_desc b a s1 ≡ done (desc_at m a, s1)
    desc1 a h = rw (← memory_apart raised s) (new_desc-main a s1 h)

    queue1 : current_queue (device s1) ≡ done q
    unfolding current_queue queue_addr
    queue1 = rw (device_put raised s) found

    avail1 :
        new_avail b q.avail_addr s1
        ≡ done (
          record {
            flags = load half_word m q.avail_addr % 2 ^ 16;
            idx = load half_word m (add32 q.avail_addr 2) % 2 ^ 16;
            ring_start_addr = add32 q.avail_addr 4;
          },
          s1,
        )
    unfolding new_avail
    avail1 =
        rw (read1 half_word q.avail_addr req.flags_main)
          (rw (read1 half_word (add32 q.avail_addr 2) req.idx_main) refl)

    pub started :
        disk_access b s
        ≡ and_done
            (move_data b (desc1_of m q) (start_of m q) s1)
            (λ (u, s2). finish b q (desc1_of m q).next (head_of m q) s2)
    unfolding disk_access
    started = rw queue1 (
        rw avail1 (
          rw (read1 half_word (ring_place m q) req.ring_main) (
            rw (desc1 (place_of q (head_of m q)) req.desc0_main) (
              rw req.next0 (
                rw (desc1 (place_of q (desc0_of m q).next) req.desc1_main) (
                  rw req.next1
                    (rw (read1 word (add32 (desc0_of m q).addr 8) req.sector_main) refl)))))))
