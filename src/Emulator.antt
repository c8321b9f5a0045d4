-- ===== src/Emulator.antt =====
-- src/main.rs: what the main loop does between two steps of the processor, `check_ints`, and the
-- loop. The processor is that of the virtual machine's package, and a parameter.
pub mod Order
pub mod Gate
pub mod External
pub mod DiskRead
pub mod Loop
pub mod Explained
pub mod Command
pub mod Stepping
pub mod Machine
mod Tests
use rv32_emulator.Common.{
  ℕ, zero, suc, ◌+◌, ◌/◌, ◌^◌, ◌≡◌, ◌⊎◌, inl, inr, refl, Bool, true, false, not, ◌&&◌, ◌||◌, Option,
  none, some, ltb, leb, ◌==◌, if◌then◌else◌, test_bit,
}
use rv32_emulator.Devices.{Outcome, done, fault, panics, and_done}
use rv32_emulator.Devices.Bus.{Bus}
use rv32_emulator.Devices.Bus.Action.{Action, ◌>>=◌, ◌>>◌, pure, gets, modify}
use rv32_emulator.Devices.Clint.{
  Csr, mip, mie, mstatus, sstatus, Pending, meip, msip, mtip, seip, ssip, stip, CpuCsr, Clint,
  raise, lower,
}
use rv32_emulator.Devices.Clint
use rv32_emulator.Devices.Uart.{Uart}
use rv32_emulator.Devices.Uart
use rv32_emulator.Devices.Plic.{Plic, update_pending}
use rv32_emulator.Devices.Virtio
use rv32_emulator.Devices.Virtio.Disk.{disk_access}

pub data Privilege : Type 0 where
  machine supervisor user : Privilege

pub data Interrupt : Type 0 where
  machine_external machine_software machine_timer : Interrupt
  supervisor_external supervisor_software supervisor_timer : Interrupt

-- What a step of the processor returns: `Ok`, the exception that is passed over, or another one.
pub data Stepped (S : Type 0) : Type 0 where
  ok access_fault failed : S → Stepped S

pub Stepped-cases :
    {S : Type 0} (x : Stepped S)
    → ((s : S) × (x ≡ ok s)) ⊎ ((s : S) × ((x ≡ access_fault s) ⊎ (x ≡ failed s)))
Stepped-cases (ok s) = inl (s, refl)
Stepped-cases (access_fault s) = inr (s, inl refl)
Stepped-cases (failed s) = inr (s, inr refl)

-- What `main.rs` relies on of the processor: it holds the four devices and the control registers; what
-- was put there last is there, apart from the others, from the memory and from the block device.
pub record Cpu : Type 1 where
  pub bus : Bus
  pub csr : CpuCsr
  pub registers : bus.State → csr.State
  pub set_registers : csr.State → bus.State → bus.State
  pub privilege : bus.State → Privilege
  pub clint : bus.State → Clint
  pub uart : bus.State → Uart
  pub plic : bus.State → Plic
  pub set_plic : Plic → bus.State → bus.State
  pub registers_put : (r : csr.State) (s : bus.State) → registers (set_registers r s) ≡ r
  pub plic_put : (p : Plic) (s : bus.State) → plic (set_plic p s) ≡ p
  pub plic_apart : (r : csr.State) (s : bus.State) → plic (set_registers r s) ≡ plic s
  pub registers_apart : (p : Plic) (s : bus.State) → registers (set_plic p s) ≡ registers s
  pub registers_rest : (s s' : bus.State) → bus.rest s' ≡ bus.rest s → registers s' ≡ registers s
  pub plic_rest : (s s' : bus.State) → bus.rest s' ≡ bus.rest s → plic s' ≡ plic s
  pub memory_registers :
      (r : csr.State) (s : bus.State) → bus.memory (set_registers r s) ≡ bus.memory s
  pub memory_plic : (p : Plic) (s : bus.State) → bus.memory (set_plic p s) ≡ bus.memory s
  pub device_registers :
      (r : csr.State) (s : bus.State) → bus.device (set_registers r s) ≡ bus.device s
  pub device_plic : (p : Plic) (s : bus.State) → bus.device (set_plic p s) ≡ bus.device s

abbrev pub uart_irq : ℕ
uart_irq = 10

abbrev pub virtio_irq : ℕ
virtio_irq = 1

-- `expect`
abbrev pub expected : {A : Type 0} → Outcome A → Outcome A
expected (done x) = done x
expected (fault e) = panics
expected panics = panics

abbrev pub interrupt_of : Pending → Interrupt
interrupt_of meip = machine_external
interrupt_of msip = machine_software
interrupt_of mtip = machine_timer
interrupt_of seip = supervisor_external
interrupt_of ssip = supervisor_software
interrupt_of stip = supervisor_timer

module _ (c : Cpu) where
  open c use {bus, csr, registers, set_registers, privilege, clint, uart, plic, set_plic}

  abbrev pub State : Type 0
  State = bus.State

  -- The first block: the timer, where bit MSIP of the software register of the timer is set too.
  unfoldable pub early_timer : State → Outcome Bool
  early_timer s = and_done (expected (Clint.read true 0xbff8 (clint s))) λ mtime.
      and_done (expected (Clint.read true 0x4000 (clint s))) λ mtimecmp.
        and_done (expected (Clint.read true 0 (clint s))) λ word.
          let masked = if test_bit (csr.place msip) word then 2 ^ csr.place msip else 0 in
          done (leb mtimecmp mtime && masked / 2 ^ 3 == 1)

  -- Whether interrupts are globally enabled.
  unfoldable pub are_enabled : State → Bool
  are_enabled s = elim (privilege s) [
    | machine ↦ test_bit 3 (csr.csr_read mstatus (registers s))
    | supervisor ↦ test_bit 1 (csr.csr_read sstatus (registers s))
    | user ↦ true
  ]

  -- The disk access of a notified device, and the source that interrupts.
  unfoldable pub poll_devices : Action State ℕ
  poll_devices s =
      let irq = if Uart.is_interrupting (uart s) then uart_irq else 0 in
      let (interrupting, v) = Virtio.is_interrupting (bus.device s) in
      let s1 = bus.set_device v s in
      let served = expected (disk_access bus s1) in
      if interrupting then and_done served (λ (u, s2). done (virtio_irq, s2)) else done (irq, s1)

  -- `if irq != 0 { ... }`
  unfoldable pub post_external : (irq : ℕ) → Action State (Unit {0})
  post_external irq s =
      if irq == 0
      then done (tt, s)
      else and_done (update_pending irq (plic s))
          λ p. let s1 = set_plic p s in done (tt, set_registers (raise csr seip (registers s1)) s1)

  -- `(pending & BIT) != 0`: the bit is set in both registers.
  unfoldable pub is_posted : Pending → State → Bool
  is_posted b s =
      test_bit (csr.place b) (csr.csr_read mie (registers s))
      && test_bit (csr.place b) (csr.csr_read mip (registers s))

  unfoldable pub take : Pending → State → Option Interrupt × State
  take b s = (some (interrupt_of b), set_registers (lower csr b (registers s)) s)

  -- The tests of the pending bits, in order.
  unfoldable pub take_pending : State → Option Interrupt × State
  unfolding is_posted take
  take_pending s =
      if is_posted meip s
      then take meip s
      else if is_posted msip s
      then take msip s
      else if is_posted mtip s
      then take mtip s
      else if is_posted seip s
      then take seip s
      else if is_posted ssip s
      then take ssip s
      else if is_posted stip s
      then take stip s
      else (none, s)

  unfoldable pub check_ints : Action State (Option Interrupt)
  unfolding early_timer are_enabled poll_devices post_external take_pending
  check_ints s = and_done (early_timer s) λ early.
      let rest = (poll_devices >>= λ irq. post_external irq >> λ s2. done (take_pending s2)) s in
      if early then done (some machine_timer, s) else if are_enabled s then rest else done (none, s)

  -- `while cpu.step().is_ok() { ... }`: the state in which it ends. The step and the trap are those of
  -- the processor; `none` says that the loop did not end within its rounds.
  unfoldable pub run :
      (step : State → Stepped State)
      → (take_trap : Interrupt → State → State) → (rounds : ℕ) → State
      → Outcome (Option State)
  unfolding check_ints
  run step take_trap zero s = done none
  run step take_trap (suc rounds) s = elim (step s) [
    | access_fault s' ↦ done (some s')
    | failed s' ↦ done (some s')
    | ok s1 ↦ and_done (check_ints s1) λ (found, s2). elim found [
      | none ↦ run step take_trap rounds s2
      | some int ↦ run step take_trap rounds (take_trap int s2)
    ]
  ]
