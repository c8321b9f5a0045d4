-- ===== src/Devices/Virtio.antt =====
-- src/devices/viritio.rs: the block device, with its queue and its notification.
-- Arrays are functions from indices; arithmetic is that of a release build.
pub mod Access
pub mod Decode
pub mod Queue
pub mod Notify
pub mod Bytes
pub mod Disk
pub mod Loops
pub mod Serve
pub mod Requests
pub mod Roundtrip
mod Tests
use rv32_emulator.Common.{
  ℕ, ◌+◌, ◌-◌, ◌*◌, ◌/◌, ◌%◌, ◌^◌, add32, u32, Bool, true, false, not, Option, none, some, List, [],
  ◌∷◌, ◌++◌, ltb, ◌==◌, if◌then◌else◌,
}
use rv32_emulator.Devices.{
  put, in_range, load_access_fault, store_access_fault, Outcome, done, fault, panics, and_done,
}

-- The sizes of an access.
pub data Sizes : Type 0 where
  byte half_word word : Sizes

abbrev pub virtio_base : ℕ
virtio_base = 0x1000_1000

abbrev pub queue_size : ℕ
queue_size = 8

-- `u32::MAX`, in `queue_notify` for no notification.
abbrev pub no_notification : ℕ
no_notification = 2 ^ 32 - 1

pub record VirtqueueAddr : Type 0 where
  pub desc_addr : ℕ
  pub avail_addr : ℕ
  pub used_addr : ℕ

pub record Virtio : Type 0 where
  pub id : ℕ
  pub device_features : ℕ → ℕ
  pub device_features_sel : ℕ
  pub driver_features : ℕ → ℕ
  pub driver_features_sel : ℕ
  pub guest_page_size : ℕ
  pub queue_num : ℕ
  pub queue_align : ℕ
  pub queue_pfn : ℕ
  pub queue_notify : ℕ
  pub interrupt_status : ℕ
  pub status : ℕ
  pub config : ℕ → ℕ
  pub disk : List ℕ
  pub virtqueue : Option VirtqueueAddr

-- A division by a zero alignment panics.
unfoldable pub queue_addr : Virtio → Outcome VirtqueueAddr
queue_addr v =
    let base_addr = u32 (v.queue_pfn * v.guest_page_size) in
    let size = v.queue_num in
    let avail_ring_end = u32 (base_addr + 16 * size + (6 + 2 * size)) in
    if v.queue_align == 0
    then panics
    else done (record {
      desc_addr = base_addr;
      avail_addr = u32 (base_addr + 16 * size);
      used_addr = u32 ((avail_ring_end / v.queue_align + 1) * v.queue_align);
    })

unfoldable pub new : Virtio
new = record {
  id = 0;
  device_features = put 1 (2 ^ 3) (λ i. 0);
  device_features_sel = 0;
  driver_features = λ i. 0;
  driver_features_sel = 0;
  guest_page_size = 0;
  queue_num = 0;
  queue_align = 0x1000;
  queue_pfn = 0;
  queue_notify = no_notification;
  interrupt_status = 0;
  status = 0;
  config = put 2 0x03 (put 1 0x20 (λ i. 0));
  disk = [];
  virtqueue = none;
}

unfoldable pub init_virtqueue : Virtio → Outcome Virtio
unfolding queue_addr
init_virtqueue v = and_done (queue_addr v) λ queue. done (record v { virtqueue = some queue })

-- The method `virtqueue`.
unfoldable pub current_queue : Virtio → Outcome VirtqueueAddr
unfolding queue_addr
current_queue v = elim v.virtqueue [ some queue ↦ done queue | none ↦ queue_addr v ]

unfoldable pub reset : Virtio → Virtio
reset v = record v { id = 0; interrupt_status = 0 }

unfoldable pub is_interrupting : Virtio → Bool × Virtio
is_interrupting v =
    if not (v.queue_notify == no_notification)
    then (true, record v { queue_notify = no_notification })
    else (false, v)

unfoldable pub initialize : (binary : List ℕ) → Virtio → Virtio
initialize binary v = record v { disk = v.disk ++ binary }
