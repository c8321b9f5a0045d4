-- ===== src/Emulator/Machine.antt =====
-- An example of a processor: it has the registers and the devices that src/main.rs uses, all
-- addresses are main memory, and it can still make a number of steps.
use rv32_emulator.Common.{ℕ, zero, suc, refl, ap}
use rv32_emulator.Memory.{Bytes}
use rv32_emulator.Devices.{put, done}
use rv32_emulator.Devices.Bus.{Bus, load, store}
use rv32_emulator.Devices.Clint.{Csr, Clint}
use rv32_emulator.Devices.Csrs.{csrs}
use rv32_emulator.Devices.Plic.{Plic}
use rv32_emulator.Devices.Uart.{Uart}
use rv32_emulator.Devices.Virtio.{Virtio, VirtqueueAddr}
use rv32_emulator.Emulator.{Privilege, Cpu, Stepped, ok, failed}

pub record Machine : Type 0 where
  pub memory : Bytes
  pub block : Virtio
  pub registers : Csr → ℕ
  pub timer : Clint
  pub port : Uart
  pub controller : Plic
  pub privilege : Privilege
  pub left : ℕ

abbrev pub machine_bus : Bus
machine_bus = record {
  State = Machine;
  Rest = (Csr → ℕ) × Plic × Uart × Clint × Privilege × ℕ;
  memory = λ s. s.memory;
  device = λ s. s.block;
  rest = λ s. (s.registers, s.controller, s.port, s.timer, s.privilege, s.left);
  set_device = λ v s. record s { block = v };
  read = λ size a s. done (load size s.memory a, s);
  write = λ size a v s. done (tt, record s { memory = store size s.memory a v });
  IsMain = λ size a. Unit {0};
  read_main = λ size a s h. refl;
  write_main = λ size a v s h. (_, refl, refl, refl, refl);
  memory_apart = λ v s. refl;
  rest_apart = λ v s. refl;
  device_put = λ v s. refl;
}

abbrev pub machine_cpu : Cpu
machine_cpu = record {
  bus = machine_bus;
  csr = csrs;
  registers = λ s. s.registers;
  set_registers = λ r s. record s { registers = r };
  privilege = λ s. s.privilege;
  clint = λ s. s.timer;
  uart = λ s. s.port;
  plic = λ s. s.controller;
  set_plic = λ p s. record s { controller = p };
  registers_put = λ r s. refl;
  plic_put = λ p s. refl;
  plic_apart = λ r s. refl;
  registers_apart = λ p s. refl;
  registers_rest = λ s s' e. ap (λ r. r.0) e;
  plic_rest = λ s s' e. ap (λ r. r.1) e;
  memory_registers = λ r s. refl;
  memory_plic = λ p s. refl;
  device_registers = λ r s. refl;
  device_plic = λ p s. refl;
}

abbrev pub machine_step : Machine → Stepped Machine
machine_step s = elim s.left [ zero ↦ failed s | suc n ↦ ok (record s { left = n }) ]

-- The virtqueue of one page at 0x1000, and in it a chain of three descriptors for two bytes at the
-- address 0x4000; the flags of the second say which way they go.
abbrev pub queue : VirtqueueAddr
queue = record { desc_addr = 0x1000; avail_addr = 0x1080; used_addr = 0x2000 }

abbrev pub chain : (flags : ℕ) → Bytes
chain flags = put 0x1001 0x30 (
    put 0x1008 16 (
      put 0x100c 1 (
        put 0x100e 1 (
          put 0x1011 0x40 (
            put 0x1018 2 (
              put 0x101c flags (
                put 0x101e 2 (
                  put 0x1021 0x50 (
                    put 0x1028 1
                      (put 0x102c 2 (put 0x4000 b'o' (put 0x4001 b'k' (λ a. 0)))))))))))))
