-- ===== src/Emulator/Tests/Disk.antt =====
-- The theorems on the disk at a chain of three descriptors.
use rv32_emulator.Devices.Virtio.Roundtrip.{disk_access-roundtrip}
use rv32_emulator.Memory.{Bytes}
use rv32_emulator.Common.{
  ℕ, u8, ◌+◌, ◌<◌, ◌≤◌, ◌^◌, ◌≡◌, refl, arith, inl, true, false, some, List, [], length, set_bit,
  test_bit, add32,
}
use rv32_emulator.Memory.Word.{load32}
use rv32_emulator.Devices.{put, done, panics}
use rv32_emulator.Devices.Clint.{meip, msip, mtip}
use rv32_emulator.Devices.Plic
use rv32_emulator.Devices.Plic.{is_enable, get_interrupt}
use rv32_emulator.Devices.Virtio
use rv32_emulator.Devices.Virtio.{Virtio, VirtqueueAddr, current_queue}
use rv32_emulator.Devices.Virtio.Disk.{is_writable, disk_access}
use rv32_emulator.Devices.Virtio.Loops.{filled, Taken}
use rv32_emulator.Devices.Virtio.Serve.{
  desc1_of, desc2_of, head_of, start_of, IsRequest, Served, finished,
}
use rv32_emulator.Devices.Virtio.Requests.{
  disk_access-reads, disk_access-writes, disk_access-panics,
}
use rv32_emulator.Emulator.{supervisor_external, check_ints, is_posted, are_enabled}
use rv32_emulator.Emulator.Machine.{Machine, machine_bus, machine_cpu, queue, chain}
use rv32_emulator.Emulator.DiskRead.{check_ints-disk_read}
use rv32_emulator.Emulator.Tests.{disk, idle, serial_asks, is_due-idle, enabled, in_mie, not_posted}

request : IsRequest machine_bus queue (chain 3)
unfolding load32 add32
request = record {
  flags_main = tt;
  idx_main = tt;
  ring_main = tt;
  desc0_main = (tt, tt, tt, tt);
  desc1_main = (tt, tt, tt, tt);
  desc2_main = (tt, tt, tt, tt);
  sector_main = tt;
  status_main = tt;
  used_main = λ i lt. tt;
  id_main = tt;
  buffer_main = λ i lt. tt;
  next0 = refl;
  next1 = refl;
  next2 = refl;
  buffer_fits = omega arith;
  desc2_fits = omega arith;
  apart = inl (omega arith);
}

found : current_queue disk ≡ done queue
unfolding current_queue disk
found = refl

reads : is_writable (desc1_of (chain 3) queue) ≡ true
unfolding load32 add32
reads = refl

inside : start_of (chain 3) queue + (desc1_of (chain 3) queue).len ≤ length disk.disk
unfolding load32 add32 disk
inside = omega arith

inside32 : start_of (chain 3) queue + (desc1_of (chain 3) queue).len ≤ 2 ^ 32
unfolding load32 add32
inside32 = omega arith

disk_access-reads_example :
    Served machine_bus queue
      (desc2_of (chain 3) queue).addr
      (head_of (chain 3) queue)
      (filled
        (desc1_of (chain 3) queue).addr
        (desc1_of (chain 3) queue).len
        (start_of (chain 3) queue)
        disk.disk
        (chain 3))
      (record disk { interrupt_status = set_bit 0 disk.interrupt_status })
      (machine_bus.rest idle)
      (disk_access machine_bus idle)
unfolding idle disk
disk_access-reads_example =
    disk_access-reads machine_bus queue idle found request reads inside32 inside

-- The same for the driver's bytes "ok".
IsRequest-out : IsRequest machine_bus queue (chain 1)
unfolding load32 add32
IsRequest-out = record {
  flags_main = tt;
  idx_main = tt;
  ring_main = tt;
  desc0_main = (tt, tt, tt, tt);
  desc1_main = (tt, tt, tt, tt);
  desc2_main = (tt, tt, tt, tt);
  sector_main = tt;
  status_main = tt;
  used_main = λ i lt. tt;
  id_main = tt;
  buffer_main = λ i lt. tt;
  next0 = refl;
  next1 = refl;
  next2 = refl;
  buffer_fits = omega arith;
  desc2_fits = omega arith;
  apart = inl (omega arith);
}

writes : is_writable (desc1_of (chain 1) queue) ≡ false
unfolding load32 add32
writes = refl

inside_out : start_of (chain 1) queue + (desc1_of (chain 1) queue).len ≤ length disk.disk
unfolding load32 add32 disk
inside_out = omega arith

inside32_out : start_of (chain 1) queue + (desc1_of (chain 1) queue).len ≤ 2 ^ 32
unfolding load32 add32
inside32_out = omega arith

abbrev out : Machine
out = record idle { memory = chain 1 }

disk_access-writes_example :
    (disk' : List ℕ) × Taken
      (desc1_of (chain 1) queue).addr
      (desc1_of (chain 1) queue).len
      (start_of (chain 1) queue)
      (chain 1)
      disk.disk
      disk'
    × Served machine_bus queue
        (desc2_of (chain 1) queue).addr
        (head_of (chain 1) queue)
        (chain 1)
        (record disk { interrupt_status = set_bit 0 disk.interrupt_status; disk = disk' })
        (machine_bus.rest out)
        (disk_access machine_bus out)
unfolding idle disk
disk_access-writes_example =
    disk_access-writes machine_bus queue out found IsRequest-out writes inside32_out inside_out

-- A disk of no bytes.
abbrev empty : Machine
empty = record idle { block = record disk { disk = [] } }

found_empty : current_queue (record disk { disk = [] }) ≡ done queue
unfolding current_queue disk
found_empty = refl

some_byte : 0 < (desc1_of (chain 3) queue).len
unfolding load32 add32
some_byte = omega arith

outside : length {A = ℕ} [] ≤ start_of (chain 3) queue
outside = omega arith

disk_access-panics_example : disk_access machine_bus empty ≡ panics
unfolding idle
disk_access-panics_example =
    disk_access-panics machine_bus queue empty found_empty request some_byte outside

source_one : is_enable 1 1 (record Plic.new { enable_bits = put 32 2 (λ i. 0) }) ≡ true
unfolding is_enable test_bit
source_one = refl

-- The driver has notified the device.
abbrev read_asked : Machine
unfolding disk
read_asked = record serial_asks {
  block = record disk { queue_notify = 0 };
  controller = record Plic.new { enable_bits = put 32 2 (λ i. 0) };
}

check_ints-disk_read_example :
    (s' : Machine) × (check_ints machine_cpu read_asked ≡ done (some supervisor_external, s'))
    × (get_interrupt s'.controller ≡ some 1)
    × (s'.memory
        ≡ finished machine_bus queue (desc2_of (chain 3) queue).addr (head_of (chain 3) queue) 0 (
            filled
              (desc1_of (chain 3) queue).addr
              (desc1_of (chain 3) queue).len
              (start_of (chain 3) queue)
              disk.disk
              (chain 3)))
    × (s'.block.queue_notify ≡ Virtio.no_notification)
unfolding read_asked serial_asks idle disk are_enabled is_posted current_queue
check_ints-disk_read_example =
    check_ints-disk_read machine_cpu queue read_asked refl is_due-idle enabled (omega arith) found
      request reads inside32 inside source_one in_mie (not_posted meip) (not_posted msip)
      (not_posted mtip)

-- The state behind the write, and the same disk under a request that reads it.
wrote : (s1 : Machine) × (disk_access machine_bus out ≡ done (tt, s1))
unfolding idle disk
wrote =
    let (disk', taken, served) =
      disk_access-writes machine_bus queue out found IsRequest-out writes inside32_out inside_out in
    (served.after, served.returns)

abbrev again : Machine
again = record idle { block = record disk { disk = wrote.0.block.disk } }

found_again : current_queue again.block ≡ done queue
unfolding current_queue disk
found_again = refl

same_start : start_of (chain 3) queue ≡ start_of (chain 1) queue
unfolding load32 add32
same_start = refl

same_len : (desc1_of (chain 3) queue).len ≡ (desc1_of (chain 1) queue).len
unfolding load32 add32
same_len = refl

disk_access-roundtrip_example :
    (t1 : Machine) × (m : Bytes) × (disk_access machine_bus again ≡ done (tt, t1))
    × (t1.memory
        ≡ finished machine_bus queue
            (desc2_of (chain 3) queue).addr
            (head_of (chain 3) queue)
            again.block.id
            m)
    × ((i : ℕ)
        → i < (desc1_of (chain 1) queue).len
        → m ((desc1_of (chain 3) queue).addr + i)
          ≡ u8 (chain 1 ((desc1_of (chain 1) queue).addr + i)))
unfolding idle disk
disk_access-roundtrip_example =
    disk_access-roundtrip machine_bus queue queue out wrote.0 again found IsRequest-out writes
      inside32_out inside_out wrote.1 refl found_again request reads same_start same_len
