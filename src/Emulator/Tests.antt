-- ===== src/Emulator/Tests.antt =====
-- The theorems on the main loop and on the disk at a small machine.
mod Disk
use rv32_emulator.Common.{
  ℕ, zero, suc, ◌+◌, ◌<◌, ◌≤◌, ◌^◌, ◌≡◌, ◌⊎◌, ◌↔◌, refl, arith, inl, true, false, none, some, List,
  [], ◌∷◌, length, set_bit, test_bit, add32,
}
use rv32_emulator.Memory.Word.{load32}
use rv32_emulator.Devices.{put, done, panics}
use rv32_emulator.Devices.Clint.{
  Csr, time, sstatus, mip, mie, mstatus, Pending, ssip, stip, meip, msip, mtip, seip,
}
use rv32_emulator.Devices.Clint
use rv32_emulator.Devices.Uart
use rv32_emulator.Devices.Plic
use rv32_emulator.Devices.Plic.{is_enable, get_interrupt}
use rv32_emulator.Devices.Interrupt.{is_raised}
use rv32_emulator.Devices.Virtio
use rv32_emulator.Devices.Virtio.{Virtio, VirtqueueAddr, current_queue}
use rv32_emulator.Devices.Virtio.Disk.{is_writable, disk_access}
use rv32_emulator.Devices.Virtio.Loops.{filled, Taken}
use rv32_emulator.Devices.Virtio.Serve.{
  desc1_of, desc2_of, head_of, start_of, IsRequest, Served, finished,
}
use rv32_emulator.Devices.Virtio.Requests.{
  disk_access-reads, disk_access-writes, disk_access-panics,
}
use rv32_emulator.Emulator.{
  Interrupt, machine, machine_timer, supervisor_external, check_ints, take_pending, is_posted,
  are_enabled, run, interrupt_of,
}
use rv32_emulator.Emulator.Machine.{Machine, machine_bus, machine_cpu, machine_step, queue, chain}
use rv32_emulator.Emulator.Order.{IsTaken, take_pending_lem}
use rv32_emulator.Emulator.Gate.{is_due}
use rv32_emulator.Emulator.Explained.{Explained}
use rv32_emulator.Emulator.External.{serial, check_ints-external}
use rv32_emulator.Emulator.DiskRead.{check_ints-disk_read}
use rv32_emulator.Emulator.Command.Line.{con_line, exit_line}
use rv32_emulator.Emulator.Stepping.{no_step, one_more, stepping, stepping-con}
use rv32_emulator.Emulator.Loop.{Rounds, Stops, run_lem}

abbrev disk : Virtio
unfolding Virtio.new
disk = record Virtio.new { virtqueue = some queue; disk = b'h' ∷ b'i' ∷ b'!' ∷ [] }

-- A machine on which nothing is asked for.
abbrev idle : Machine
unfolding disk Clint.new Uart.new Plic.new
idle = record {
  memory = chain 3;
  block = disk;
  registers = λ r. 0;
  timer = Clint.new;
  port = Uart.new;
  controller = Plic.new;
  privilege = machine;
  left = 2;
}

-- The timer interrupt and the external one of the supervisor are posted, and enabled in MIE.
abbrev two_posted : Machine
two_posted = record idle { registers = λ r. 0x280 }

take_pending_lem_example :
    (((b : Pending) → is_posted machine_cpu b two_posted ≡ false)
      × (take_pending machine_cpu two_posted ≡ (none, two_posted)))
    ⊎ ((b : Pending) × (s' : Machine) × (take_pending machine_cpu two_posted
          ≡ (some (interrupt_of b), s'))
        × IsTaken machine_cpu b two_posted s')
take_pending_lem_example = take_pending_lem machine_cpu two_posted

-- The serial port asks, with everything in its way enabled.
abbrev serial_asks : Machine
unfolding Uart.new Plic.new
serial_asks = record idle {
  registers = λ r. elim r [ time ↦ 0 | mip ↦ 0 | mie ↦ 0x200 | mstatus ↦ 8 | sstatus ↦ 0 ];
  port = record Uart.new { interrupting = true };
  controller = record Plic.new { enable_bits = put 32 0x400 (λ i. 0) };
}

is_due-idle : is_due idle.timer ≡ false
unfolding test_bit idle
is_due-idle = refl

enabled : are_enabled machine_cpu serial_asks ≡ true
unfolding are_enabled test_bit serial_asks idle
enabled = refl

source : is_enable 1 10 serial_asks.controller ≡ true
unfolding is_enable test_bit serial_asks
source = refl

in_mie : test_bit 9 (serial_asks.registers mie) ≡ true
unfolding test_bit serial_asks
in_mie = refl

not_posted : (b : Pending) → is_posted machine_cpu b serial_asks ≡ false
unfolding is_posted test_bit serial_asks
not_posted meip = refl
not_posted msip = refl
not_posted mtip = refl
not_posted seip = refl
not_posted ssip = refl
not_posted stip = refl

rings : Uart.is_interrupting serial_asks.port ≡ true
unfolding Uart.is_interrupting serial_asks
rings = refl

check_ints-external_example :
    (s' : Machine) × (check_ints machine_cpu serial_asks ≡ done (some supervisor_external, s'))
    × (get_interrupt s'.controller ≡ some 10)
    × (is_raised 10 s'.controller ≡ true)
    × (is_posted machine_cpu seip s' ≡ false)
    × (s'.memory ≡ idle.memory)
    × (s'.block ≡ disk)
unfolding serial_asks idle
check_ints-external_example =
    check_ints-external machine_cpu serial_asks serial_asks 10 refl is_due-idle enabled
      (serial rings refl) source in_mie (not_posted meip) (not_posted msip) (not_posted mtip)

-- The line "con 1f", on a machine that can make as many steps as its number says.
abbrev far : Machine
far = record idle { left = 0x21 }

stepping-con_example :
    stepping machine_bus
      (λ s. s.left)
      machine_step
      2
      2
      (con_line (1 ∷ 15 ∷ []) ∷ exit_line ∷ [])
      far
    ≡ done (some (record idle { left = 0x1e }))
unfolding idle
stepping-con_example =
    stepping-con machine_bus (λ s. s.left) machine_step 0 2 1 1 (15 ∷ []) [] far
      (record idle { left = 0x20 }) (record idle { left = 0x1f }) (record idle { left = 0x1e })
      (omega arith, (omega arith, tt)) (omega arith) refl (one_more (omega arith) refl no_step) refl
      (omega arith) refl
