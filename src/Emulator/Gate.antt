-- ===== src/Emulator/Gate.antt =====
-- The first two blocks of `check_ints`: the timer, and the global enable bits.
use rv32_emulator.Common.{◌≡◌, refl, u32, Bool, ◌&&◌, leb, Bool-cases, inl, inr, test_bit}
use rv32_emulator.Devices.{done}
use rv32_emulator.Devices.Clint.{Clint, msip, CpuCsr}
use rv32_emulator.Devices.Clint
use rv32_emulator.Emulator.{Cpu, State, early_timer}

-- Whether the time has come, of the low words of the two registers, and bit 3 of the software
-- interrupt register is set.
abbrev pub is_due : Clint → Bool
is_due c = leb (u32 c.mtimecmp) (u32 c.mtime) && test_bit 3 (u32 c.msip_word)

module _ (c : Cpu) where
  open c use {csr, clint}

  pub early_timer-is_due :
      (s : State c) → csr.place msip ≡ 3 → early_timer c s ≡ done (is_due (clint s))
  unfolding early_timer Clint.read
  early_timer-is_due s three = rw three (elim (Bool-cases (test_bit 3 (u32 (clint s).msip_word))) [
    | inl on ↦ rw on refl
    | inr off ↦ rw off refl
  ])
