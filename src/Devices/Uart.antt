-- ===== src/Devices/Uart.antt =====
-- src/devices/uart.rs: the emulated serial port, and the thread that reads the standard input. The
-- mutex makes an access and a delivery one step each; the size of an access is given as whether it
-- is `Sizes::Byte`.
use rv32_emulator.Common.{
  ℕ, u8, Bool, true, false, not, List, [], ◌∷◌, ltb, ◌==◌, if◌then◌else◌, set_bit, clear_bit,
}
use rv32_emulator.Devices.{put, load_access_fault, store_access_fault, Outcome, done, fault, panics}

abbrev pub uart_size : ℕ
uart_size = 0x100

-- The offset of the line status register, and the places of its bits RX and TX.
abbrev pub uart_lsr : ℕ
uart_lsr = 5

abbrev pub uart_lsr_rx : ℕ
uart_lsr_rx = 0

abbrev pub uart_lsr_tx : ℕ
uart_lsr_tx = 5

pub record Uart : Type 0 where
  pub mem : ℕ → ℕ
  pub interrupting : Bool

unfoldable pub new : Uart
new = record { mem = put uart_lsr (set_bit uart_lsr_tx 0) (λ a. 0); interrupting = false }

unfoldable pub is_interrupting : Uart → Bool
is_interrupting u = u.interrupting

unfoldable pub load : (is_byte : Bool) → (addr : ℕ) → Uart → Outcome (ℕ × Uart)
load is_byte addr u =
    if not is_byte
    then fault load_access_fault
    else if addr == 0
    then done
        (u.mem 0, record u { mem = put uart_lsr (clear_bit uart_lsr_rx (u.mem uart_lsr)) u.mem })
    else if ltb addr uart_size
    then done (u.mem addr, u)
    else panics

-- The second component is what is printed.
unfoldable pub store : (is_byte : Bool) → (addr value : ℕ) → Uart → Outcome (Uart × List ℕ)
store is_byte addr value u =
    if not is_byte
    then fault store_access_fault
    else if addr == 0
    then done (u, u8 value ∷ [])
    else if ltb addr uart_size
    then done (record u { mem = put addr (u8 value) u.mem }, [])
    else panics

-- What the thread does behind its wait: the byte, the flag, and the bit RX.
unfoldable pub deliver : (byte : ℕ) → Uart → Uart
deliver byte u = record {
  mem = put uart_lsr (set_bit uart_lsr_rx (u.mem uart_lsr)) (put 0 byte u.mem);
  interrupting = true;
}

-- The thread: its buffer of one byte, and whether it is behind a read that has succeeded.
pub record Reader : Type 0 where
  pub byte : ℕ
  pub holds : Bool

-- A read of the standard input: a byte, the end of the input, which is `Ok(0)` and leaves the buffer
-- as it was, or an error.
pub data Input : Type 0 where
  got : ℕ → Input
  at_end : Input
  failed : Input

unfoldable pub take_input : Input → Reader → Reader
take_input (got c) r = record { byte = c; holds = true }
take_input at_end r = record r { holds = true }
take_input failed r = r
