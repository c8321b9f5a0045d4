-- ===== src/Devices/Bus.antt =====
-- The processor of the virtual machine's package as src/devices/viritio.rs uses it: reads and writes
-- through its bus, and the block device that hangs on it.
pub mod Action
use rv32_emulator.Common.{ℕ, ◌+◌, ◌*◌, ◌/◌, ◌^◌, ◌≡◌, add32}
use rv32_emulator.Memory.{Bytes, store8}
use rv32_emulator.Memory.Word.{load32, store32}
use rv32_emulator.Devices.{Outcome, done}
use rv32_emulator.Devices.Virtio.{Sizes, byte, half_word, word, Virtio}

-- What stands in memory at an address, the least significant byte first.
abbrev pub load : Sizes → Bytes → ℕ → ℕ
load byte m a = m a
load half_word m a = m a + 256 * m (add32 a 1)
load word m a = load32 m a

abbrev pub store : Sizes → Bytes → ℕ → ℕ → Bytes
store byte m a v = store8 m a v
store half_word m a v = store8 (store8 m a v) (add32 a 1) (v / 256)
store word m a v = store32 m a v

-- What the source relies on of the processor: at the addresses of the main memory it reads what
-- stands there and writes what it is given, and neither concerns the device; and the device that is
-- taken from the bus is the one that was put there, apart from the memory. The rest of the processor,
-- with its registers and the other devices, is apart from both.
pub record Bus : Type 1 where
  pub State : Type 0
  pub Rest : Type 0
  pub memory : State → Bytes
  pub device : State → Virtio
  pub rest : State → Rest
  pub set_device : Virtio → State → State
  pub read : Sizes → ℕ → State → Outcome (ℕ × State)
  pub write : Sizes → ℕ → ℕ → State → Outcome (Unit {0} × State)
  pub IsMain : Sizes → ℕ → Type 0
  pub read_main :
      (size : Sizes) (a : ℕ) (s : State)
      → IsMain size a
      → read size a s ≡ done (load size (memory s) a, s)
  pub write_main :
      (size : Sizes) (a v : ℕ) (s : State)
      → IsMain size a
      → (s' : State) × (write size a v s ≡ done (tt, s'))
        × (memory s' ≡ store size (memory s) a v)
        × (device s' ≡ device s)
        × (rest s' ≡ rest s)
  pub memory_apart : (v : Virtio) (s : State) → memory (set_device v s) ≡ memory s
  pub rest_apart : (v : Virtio) (s : State) → rest (set_device v s) ≡ rest s
  pub device_put : (v : Virtio) (s : State) → device (set_device v s) ≡ v
