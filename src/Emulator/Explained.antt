-- ===== src/Emulator/Explained.antt =====
-- Each result of `check_ints`, by what the privileged architecture asks of it and by its timer block.
use rv32_emulator.Common.{ℕ, ◌≡◌, ◌⊎◌, true, false, Option, some, none, test_bit}
use rv32_emulator.Devices.{done}
use rv32_emulator.Devices.Clint.{mstatus, sstatus, Pending}
use rv32_emulator.Emulator.{
  machine, supervisor, user, Interrupt, machine_timer, interrupt_of, Cpu, State, poll_devices,
  post_external, is_posted, check_ints,
}
use rv32_emulator.Emulator.Order.{IsTaken}
use rv32_emulator.Emulator.Gate.{is_due}

module _ (c : Cpu) where
  open c use {csr, registers, privilege, clint}
  open csr use {csr_read, place}

  -- Interrupts are globally enabled: in machine mode by MIE, bit 3 of MSTATUS, in supervisor mode by
  -- SIE, bit 1 of SSTATUS, and in user mode always.
  abbrev pub IsOpen : State c → Type 0
  IsOpen s =
      ((privilege s ≡ machine) × (test_bit 3 (csr_read mstatus (registers s)) ≡ true))
      ⊎ ((privilege s ≡ supervisor) × (test_bit 1 (csr_read sstatus (registers s)) ≡ true))
      ⊎ (privilege s ≡ user)

  abbrev pub IsShut : State c → Type 0
  IsShut s =
      ((privilege s ≡ machine) × (test_bit 3 (csr_read mstatus (registers s)) ≡ false))
      ⊎ ((privilege s ≡ supervisor) × (test_bit 1 (csr_read sstatus (registers s)) ≡ false))

  -- The state in which the devices have been looked at, and what they ask for is posted.
  abbrev pub IsBehind : State c → State c → Type 0
  IsBehind s s2 =
      (irq : ℕ) × (s1 : State c) × (poll_devices c s ≡ done (irq, s1))
      × (post_external c irq s1 ≡ done (tt, s2))

  -- What a result of `check_ints` and the state that it leaves mean.
  pub data Explained (s : State c) : Option Interrupt → State c → Type 0 where
    timer : is_due (clint s) ≡ true → Explained s (some machine_timer) s
    shut : is_due (clint s) ≡ false → IsShut s → Explained s none s
    idle :
        {s2 : State c}
        → is_due (clint s) ≡ false
        → IsOpen s
        → IsBehind s s2
        → ((b : Pending) → is_posted c b s2 ≡ false)
        → Explained s none s2
    taken :
        {b : Pending} {s2 s3 : State c}
        → is_due (clint s) ≡ false
        → IsOpen s
        → IsBehind s s2
        → IsTaken c b s2 s3
        → Explained s (some (interrupt_of b)) s3

  Returned : State c → Type 0
  Returned s =
      (found : Option Interrupt) × (s' : State c) × (check_ints c s ≡ done (found, s'))
      × Explained s found s'
