-- ===== src/Devices/Tests.antt =====
-- The theorems on the devices at short runs.
use rv32_emulator.Common.{
  ℕ, List, ◌%◌, ◌↔◌, ◌≢◌, inr, none, some, leb, ◌^◌, ◌||◌, ◌+◌, ◌≤◌, ◌≡◌, refl, arith, true, false,
  [], ◌∷◌, ◌++◌, length, test_bit, set_bit, clear_bit,
}
use rv32_emulator.Uart.{echo}
use rv32_emulator.Uart.Echo.{found, AreUpperCase}
use rv32_emulator.Devices.{put, done, fault, panics, load_access_fault, store_access_fault}
use rv32_emulator.Devices.Plic
use rv32_emulator.Devices.Plic.{Plic, is_enable, update_pending, get_interrupt}
use rv32_emulator.Devices.Registers.{
  Register, Exists, address_of, priority_of, pending_word, enable_word, threshold_of, claim_of,
  written, accesses, accesses-fault,
}
use rv32_emulator.Devices.Interrupt.{
  sclaim, is_raised, raise_complete, complete-panics, raise-elsewhere,
}
use rv32_emulator.Devices.Clint
use rv32_emulator.Devices.Clint.{
  Csr, time, mip, mie, mstatus, sstatus, Pending, meip, msip, mtip, seip, ssip, stip, CpuCsr, Clint,
  increment, ticks,
}
use rv32_emulator.Devices.Csrs.{csrs}
use rv32_emulator.Devices.Timer.{is_pending, increment_lem, halves}
use rv32_emulator.Devices.Uart.{new, load, deliver, got, take_input}
use rv32_emulator.Devices.Delivery.{
  System, read, offer, poll_idle, poll_ready, take, Reach, start, next, in_flight, delivery,
  delivery-echo,
}

-- A read of "h", a poll in between, its delivery, a read of "i", a poll and the byte.
run : (s : System) × Reach s × (in_flight s ≡ b'i' ∷ []) × (s.accepted ≡ b'h' ∷ b'i' ∷ [])
unfolding load new set_bit clear_bit test_bit deliver take_input
run = (
  _,
  next
      (next
        (next
          (next (next (next start (read (got b'h') refl)) (poll_idle refl refl refl))
            (offer refl refl))
          (read (got b'i') refl))
        (poll_ready refl refl refl))
      (take refl refl),
  refl,
  refl,
)

delivery_example : found run.0.polls ++ in_flight run.0 ≡ run.0.accepted
delivery_example = delivery (run.1)

delivery-echo_example :
    (received : List ℕ) × (received ++ in_flight run.0 ≡ run.0.accepted)
    × AreUpperCase received (echo run.0.polls)
    × (length (in_flight run.0) ≤ 2)
delivery-echo_example = delivery-echo (run.1)

-- A controller on which source 10 is enabled for context 1.
abbrev enabled : Plic
enabled = record Plic.new { enable_bits = put 32 0x400 (λ i. 0) }

raise_complete_example :
    (q : Plic) × (r : Plic) × (update_pending 10 enabled ≡ done q)
    × (get_interrupt q ≡ some 10)
    × (is_raised 10 q ≡ true)
    × (Plic.write true sclaim 10 q ≡ done r)
    × (get_interrupt r ≡ none)
    × (is_raised 10 r ≡ false)
    × (test_bit 11 (r.pending_bits 2) ≡ test_bit 11 (enabled.pending_bits 2))
unfolding is_enable test_bit
raise_complete_example =
    raise_complete 10 2 11 enabled (omega arith) (omega arith) refl (inr (omega arith))

complete-panics_example : (Plic.write true sclaim 200 enabled ≡ panics) ↔ (128 ≤ 200)
complete-panics_example = complete-panics 200 enabled

raised_ten : (q : Plic) × (update_pending 10 enabled ≡ done q)
unfolding update_pending
raised_ten = (_, refl)

raise-elsewhere_example : (raised_ten.0).pending_bits 0 ≡ enabled.pending_bits 0
raise-elsewhere_example = raise-elsewhere 10 enabled (omega arith) (raised_ten.1)

accesses_example :
    (Plic.read true 0x201000 enabled ≡ done (enabled.threshold 1))
    × (Plic.write true 0x201000 3 enabled ≡ written (threshold_of 1) 3 enabled)
accesses_example = accesses (threshold_of 1) 3 enabled (omega arith)

-- A timer that stands three ticks before its comparison value, with the software interrupt asked for.
abbrev soon : Clint
soon = record { mtime = 2 ^ 33; mtimecmp = 2 ^ 33 + 3; msip_word = 1 }

abbrev none_pending : Csr → ℕ
none_pending r = 0

seip-ne_msip : seip ≢ msip
seip-ne_msip = cc

seip-ne_mtip : seip ≢ mtip
seip-ne_mtip = cc

increment_lem_example :
    let (c', s') = increment csrs soon none_pending in
    (c' ≡ record soon { mtime = (2 ^ 33 + 1) % 2 ^ 64 })
    × (is_pending csrs mtip s' ≡ leb (2 ^ 33 + 3) c'.mtime)
    × (is_pending csrs msip s' ≡ (test_bit 0 1 || is_pending csrs msip none_pending))
    × (is_pending csrs seip s' ≡ is_pending csrs seip none_pending)
increment_lem_example = increment_lem csrs soon none_pending seip seip-ne_msip seip-ne_mtip

halves_example :
    (Clint.write true 0x4004 7 soon ≡ done (record soon { mtimecmp = 7 }))
    × (Clint.read true 0x4000 (record soon { mtimecmp = 7 }) ≡ done 7)
    × (Clint.write true 0xbffc 7 soon ≡ done (record soon { mtime = 7 }))
    × (Clint.read true 0xbff8 (record soon { mtime = 7 }) ≡ done 7)
halves_example = halves 4 0 7 soon (omega arith) (omega arith) (omega arith)

-- Behind the last pending word stands no register.
none_there : true ≡ true → (r : Register) → Exists r → address_of r ≢ 0x1080
none_there h (priority_of i) lt e = absurd (omega arith)
none_there h (pending_word i) lt e = absurd (omega arith)
none_there h (enable_word i) lt e = absurd (omega arith)
none_there h (threshold_of i) lt e = absurd (omega arith)
none_there h (claim_of i) lt e = absurd (omega arith)

accesses-fault_example :
    (Plic.read true 0x1080 enabled ≡ fault load_access_fault)
    × (Plic.write true 0x1080 1 enabled ≡ fault store_access_fault)
accesses-fault_example = accesses-fault true 0x1080 1 enabled (omega arith) none_there
