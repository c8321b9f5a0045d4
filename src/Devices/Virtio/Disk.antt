-- ===== src/Devices/Virtio/Disk.antt =====
-- `disk_access` of src/devices/viritio.rs: the device serves a request of the driver by reads and
-- writes through the bus.
use rv32_emulator.Common.{
  ℕ, zero, suc, ◌+◌, ◌*◌, ◌/◌, ◌%◌, ◌^◌, add32, u32, u8, Bool, Option, none, some, List, [], ◌∷◌,
  get_elem?, set_bit, ◌==◌, if◌then◌else◌,
}
use rv32_emulator.Devices.{Outcome, done, panics, and_done}
use rv32_emulator.Devices.Virtio.{
  byte, half_word, word, queue_size, VirtqueueAddr, Virtio, current_queue,
}
use rv32_emulator.Devices.Bus.{Bus}
use rv32_emulator.Devices.Bus.Action.{Action, ◌>>=◌, ◌>>◌, pure, gets, check}

abbrev pub vring_desc_size : ℕ
vring_desc_size = 16

abbrev pub sector_size : ℕ
sector_size = 512

-- `a[i] = v` on a list, where the index is inside.
abbrev pub set_elem? : List ℕ → (i v : ℕ) → Option (List ℕ)
set_elem? [] i v = none
set_elem? (x ∷ xs) zero v = some (v ∷ xs)
set_elem? (x ∷ xs) (suc i) v = elim (set_elem? xs i v) [ none ↦ none | some ys ↦ some (x ∷ ys) ]

-- An index behind the end panics.
abbrev pub or_panic : {A : Type 0} → Option A → Outcome A
or_panic none = panics
or_panic (some x) = done x

unfoldable pub read_disk : (addr : ℕ) → Virtio → Outcome ℕ
read_disk addr v = or_panic (get_elem? v.disk addr)

unfoldable pub write_disk : (addr value : ℕ) → Virtio → Outcome Virtio
write_disk addr value v =
    and_done (or_panic (set_elem? v.disk addr (u8 value))) λ disk. done (record v { disk = disk })

pub record VirtqDesc : Type 0 where
  pub addr : ℕ
  pub len : ℕ
  pub flags : ℕ
  pub next : ℕ

pub record VirtqAvail : Type 0 where
  pub flags : ℕ
  pub idx : ℕ
  pub ring_start_addr : ℕ

-- `flags & VIRTQ_DESC_F_NEXT` and `flags & VIRTQ_DESC_F_WRITE`, as whether they are set.
abbrev pub has_next : VirtqDesc → Bool
has_next d = d.flags % 2 == 1

abbrev pub is_writable : VirtqDesc → Bool
is_writable d = d.flags / 2 % 2 == 1

module _ (b : Bus) where
  open b use {State, device, set_device, read, write}

  unfoldable pub new_desc : (addr : ℕ) → Action State VirtqDesc
  new_desc addr = do
    a ← read word addr
    len ← read word (add32 addr 8)
    flags ← read half_word (add32 addr 12)
    next ← read half_word (add32 addr 14)
    pure (record { addr = a; len = len; flags = flags; next = next })

  unfoldable pub new_avail : (addr : ℕ) → Action State VirtqAvail
  new_avail addr = do
    flags ← read half_word addr
    idx ← read half_word (add32 addr 2)
    pure (record { flags = flags % 2 ^ 16; idx = idx % 2 ^ 16; ring_start_addr = add32 addr 4 })

  -- What changes the device alone.
  abbrev pub on_device : (Virtio → Outcome Virtio) → Action State (Unit {0})
  on_device f s = and_done (f (device s)) λ v. done (tt, set_device v s)

  -- The loop that writes the disk, with `left` rounds to go.
  unfoldable pub to_disk : (left i addr start : ℕ) → Action State (Unit {0})
  to_disk zero i addr start = pure tt
  to_disk (suc left) i addr start = do
    value ← read byte (add32 addr i)
    on_device (write_disk (add32 start i) value)
    to_disk left (i + 1) addr start

  -- The loop that reads the disk.
  unfoldable pub from_disk : (left i addr start : ℕ) → Action State (Unit {0})
  from_disk zero i addr start = pure tt
  from_disk (suc left) i addr start = do
    value ← gets (λ s. read_disk (add32 start i) (device s))
    write byte (add32 addr i) value
    from_disk left (i + 1) addr start

  unfoldable pub move_data : VirtqDesc → (start : ℕ) → Action State (Unit {0})
  move_data d start =
      if is_writable d then from_disk d.len 0 d.addr start else to_disk d.len 0 d.addr start

  unfoldable pub set_id : Virtio → Outcome Virtio
  set_id v = done (record v { id = add32 v.id 1 })

  -- Behind the transfer: the third descriptor, the status, and the used ring.
  unfoldable pub finish : VirtqueueAddr → (next head_index : ℕ) → Action State (Unit {0})
  finish virtq next head_index = do
    desc2 ← new_desc (add32 virtq.desc_addr (u32 (vring_desc_size * next)))
    check (desc2.flags % 2 == 0)
    write byte desc2.addr 0
    id ← gets (λ s. done ((device s).id))
    write word (add32 (add32 virtq.used_addr 4) (id % queue_size * 8)) head_index
    on_device set_id
    id' ← gets (λ s. done ((device s).id))
    write half_word (add32 virtq.used_addr 2) id'

  -- The alias `virtio` is the device on the bus.
  unfoldable pub disk_access : Action State (Unit {0})
  disk_access = do
    on_device (λ v. done (record v { interrupt_status = set_bit 0 v.interrupt_status }))
    virtq ← gets (λ s. current_queue (device s))
    avail ← new_avail virtq.avail_addr
    head_index ← read half_word (add32 avail.ring_start_addr (avail.idx % queue_size))
    desc0 ← new_desc (add32 virtq.desc_addr (u32 (vring_desc_size * head_index)))
    check (has_next desc0)
    desc1 ← new_desc (add32 virtq.desc_addr (u32 (vring_desc_size * desc0.next)))
    check (has_next desc1)
    sector ← read word (add32 desc0.addr 8)
    move_data desc1 (u32 (sector * sector_size))
    finish virtq desc1.next head_index
