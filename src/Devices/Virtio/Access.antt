-- ===== src/Devices/Virtio/Access.antt =====
-- The register file of src/devices/viritio.rs: reads and writes by address.
use rv32_emulator.Common.{
  ℕ, ◌+◌, ◌-◌, ◌*◌, ◌/◌, ◌%◌, ◌^◌, add32, u32, Option, none, some, List, [], ◌∷◌, ltb, ◌==◌,
  if◌then◌else◌,
}
use rv32_emulator.Devices.{
  put, in_range, load_access_fault, store_access_fault, Outcome, done, fault, panics, and_done,
}
use rv32_emulator.Devices.Virtio.{
  Sizes, byte, half_word, word, virtio_base, queue_size, Virtio, init_virtqueue, reset,
}

-- The registers, by the constants for their ranges of addresses.
pub data Register : Type 0 where
  magic : Register
  version : Register
  device_id : Register
  vendor_id : Register
  host_features : Register
  host_features_sel : Register
  guest_features : Register
  guest_features_sel : Register
  page_size : Register
  queue_sel : Register
  queue_num_max : Register
  queue_length : Register
  queue_alignment : Register
  queue_page : Register
  notifier : Register
  interrupts : Register
  interrupt_ack : Register
  device_status : Register
  configuration : Register

abbrev pub first : Register → ℕ
first magic = virtio_base + 0x0
first version = virtio_base + 0x4
first device_id = virtio_base + 0x8
first vendor_id = virtio_base + 0xc
first host_features = virtio_base + 0x10
first host_features_sel = virtio_base + 0x14
first guest_features = virtio_base + 0x20
first guest_features_sel = virtio_base + 0x24
first page_size = virtio_base + 0x28
first queue_sel = virtio_base + 0x30
first queue_num_max = virtio_base + 0x34
first queue_length = virtio_base + 0x38
first queue_alignment = virtio_base + 0x3c
first queue_page = virtio_base + 0x40
first notifier = virtio_base + 0x50
first interrupts = virtio_base + 0x60
first interrupt_ack = virtio_base + 0x64
first device_status = virtio_base + 0x70
first configuration = virtio_base + 0x100

abbrev pub last : Register → ℕ
last magic = virtio_base + 0x3
last version = virtio_base + 0x7
last device_id = virtio_base + 0xb
last vendor_id = virtio_base + 0xf
last host_features = virtio_base + 0x13
last host_features_sel = virtio_base + 0x17
last guest_features = virtio_base + 0x23
last guest_features_sel = virtio_base + 0x27
last page_size = virtio_base + 0x2b
last queue_sel = virtio_base + 0x33
last queue_num_max = virtio_base + 0x37
last queue_length = virtio_base + 0x3b
last queue_alignment = virtio_base + 0x3f
last queue_page = virtio_base + 0x43
last notifier = virtio_base + 0x53
last interrupts = virtio_base + 0x63
last interrupt_ack = virtio_base + 0x67
last device_status = virtio_base + 0x73
last configuration = virtio_base + 0x107

abbrev pub registers : List Register
registers =
    magic ∷ version ∷ device_id ∷ vendor_id ∷ host_features ∷ host_features_sel ∷ guest_features
    ∷ guest_features_sel ∷ page_size ∷ queue_sel ∷ queue_num_max ∷ queue_length ∷ queue_alignment
    ∷ queue_page ∷ notifier ∷ interrupts ∷ interrupt_ack ∷ device_status ∷ configuration ∷ []

abbrev pub find_register : (a : ℕ) → List Register → Option Register
find_register a [] = none
find_register a (r ∷ rs) = if in_range (first r) (last r) a then some r else find_register a rs

-- The `match`es on the address: the ranges are disjoint.
unfoldable pub register_at : (a : ℕ) → Option Register
register_at a = find_register a registers

-- The part of a register that an access reads.
unfoldable pub part : Sizes → (offset reg : ℕ) → ℕ
part byte offset reg = reg / 2 ^ (offset * 8) % 2 ^ 8
part half_word offset reg = reg / 2 ^ (offset * 8) % 2 ^ 16
part word offset reg = reg / 2 ^ (offset * 8)

-- An element of an array of two.
unfoldable pub element : (array : ℕ → ℕ) → (index : ℕ) → Outcome ℕ
element array index = if ltb index 2 then done (array index) else panics

-- The arms of `read`, for the index of the address in the register.
unfoldable pub read_register : Sizes → Register → (index : ℕ) → Virtio → Outcome ℕ
unfolding part element
read_register size magic index v = done (part size index 0x7472_6976)
read_register size version index v = done (part size index 1)
read_register size device_id index v = done (part size index 2)
read_register size vendor_id index v = done (part size index 0x554d_4551)
read_register size host_features index v =
    and_done (element v.device_features v.device_features_sel) λ reg. done (part size index reg)
read_register size queue_num_max index v = done (part size index queue_size)
read_register size queue_page index v = done (part size index v.queue_pfn)
read_register size interrupts index v = done (part size index v.interrupt_status)
read_register size device_status index v = done (part size index v.status)
read_register byte configuration index v = done (part byte 0 (v.config index))
read_register half_word configuration index v = fault store_access_fault
read_register word configuration index v = fault store_access_fault
read_register size host_features_sel index v = fault load_access_fault
read_register size guest_features index v = fault load_access_fault
read_register size guest_features_sel index v = fault load_access_fault
read_register size page_size index v = fault load_access_fault
read_register size queue_sel index v = fault load_access_fault
read_register size queue_length index v = fault load_access_fault
read_register size queue_alignment index v = fault load_access_fault
read_register size notifier index v = fault load_access_fault
read_register size interrupt_ack index v = fault load_access_fault

unfoldable pub read : Sizes → (addr : ℕ) → Virtio → Outcome ℕ
unfolding read_register
read size addr v =
    let a = add32 addr virtio_base in
    elim (register_at a) [
      | some r ↦ read_register size r (a - first r) v
      | none ↦ fault load_access_fault
    ]

-- `reg &= !(mask << k)` and `reg |= (value & mask) << k` for a mask of `width` bits: the bits that
-- are set are clear by then, so that their sum is taken; what is shifted out of the word is lost.
unfoldable pub put_bits : (width k value reg : ℕ) → ℕ
put_bits width k value reg =
    u32 (reg % 2 ^ k + value % 2 ^ width * 2 ^ k) + reg / 2 ^ (k + width) * 2 ^ (k + width)

-- The new value of a register.
unfoldable pub merge : Sizes → (offset value reg : ℕ) → ℕ
unfolding put_bits
merge byte offset value reg = put_bits 8 (offset * 8) value reg
merge half_word offset value reg = put_bits 16 (offset * 8) value reg
merge word offset value reg = value

-- `reg & (1 << k)`
abbrev pub masked : (k reg : ℕ) → ℕ
masked k reg = reg / 2 ^ k % 2 * 2 ^ k

-- The arm of the status register in the second `match` of `write`.
unfoldable pub write_status : (reg : ℕ) → Virtio → Outcome Virtio
unfolding reset init_virtqueue
write_status reg v =
    let v1 = record v { status = reg } in
    let v2 = if v1.status == 0 then reset v1 else v1 in
    let started = if masked 2 v2.status / 2 ^ 3 == 1 then init_virtqueue v2 else done v2 in
    and_done started λ v3. if masked 7 v3.status / 2 ^ 7 == 1 then panics else done v3

-- The configuration space takes single bytes; the distance of the shift is taken modulo 32.
unfoldable pub write_config : Sizes → (index value : ℕ) → Virtio → Outcome Virtio
write_config byte index value v =
    done (record v { config = put index (value / 2 ^ (index * 8 % 32) % 2 ^ 8) v.config })
write_config half_word index value v = fault store_access_fault
write_config word index value v = fault store_access_fault

-- The arms of `write`, for the index of the address in the register.
unfoldable pub write_register : Sizes → Register → (index value : ℕ) → Virtio → Outcome Virtio
unfolding merge write_status write_config element
write_register size host_features_sel index value v =
    done (record v { device_features_sel = merge size index value v.device_features_sel })
write_register size guest_features index value v =
    and_done (element v.driver_features v.driver_features_sel) λ reg. done (record v {
      driver_features = put v.driver_features_sel (merge size index value reg) v.driver_features;
    })
write_register size guest_features_sel index value v =
    done (record v { driver_features_sel = merge size index value v.driver_features_sel })
write_register size page_size index value v =
    done (record v { guest_page_size = merge size index value v.guest_page_size })
write_register size queue_sel index value v = if value == 0 then done v else panics
write_register size queue_length index value v =
    done (record v { queue_num = merge size index value v.queue_num })
write_register size queue_alignment index value v =
    done (record v { queue_align = merge size index value v.queue_align })
write_register size queue_page index value v =
    done (record v { queue_pfn = merge size index value v.queue_pfn })
write_register size notifier index value v =
    done (record v { queue_notify = merge size index value v.queue_notify })
write_register size interrupt_ack index value v =
    done (record v { interrupt_status = merge size index value v.interrupt_status })
write_register size device_status index value v = write_status (merge size index value v.status) v
write_register size configuration index value v = write_config size index value v
write_register size magic index value v = fault store_access_fault
write_register size version index value v = fault store_access_fault
write_register size device_id index value v = fault store_access_fault
write_register size vendor_id index value v = fault store_access_fault
write_register size host_features index value v = fault store_access_fault
write_register size queue_num_max index value v = fault store_access_fault
write_register size interrupts index value v = fault store_access_fault

unfoldable pub write : Sizes → (addr value : ℕ) → Virtio → Outcome Virtio
unfolding write_register
write size addr value v =
    let a = add32 addr virtio_base in
    elim (register_at a) [
      | some r ↦ write_register size r (a - first r) value v
      | none ↦ fault store_access_fault
    ]
