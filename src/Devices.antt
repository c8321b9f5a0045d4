-- ===== src/Devices.antt =====
-- The devices of the emulator (src/devices): what their register accesses give.
pub mod Uart
pub mod Delivery
pub mod Clint
pub mod Timer
pub mod Plic
pub mod Registers
pub mod Interrupt
pub mod Virtio
pub mod Bus
pub mod Csrs
mod Tests
use rv32_emulator.Common.{ℕ, Bool, ◌&&◌, leb, ◌==◌, if◌then◌else◌}

-- The two exceptions that the devices raise.
pub data Fault : Type 0 where
  load_access_fault store_access_fault : Fault

-- An access gives a value, raises an exception of the guest, or stops the emulator with a panic, as
-- an index behind the end of an array does.
pub data Outcome {ℓ} (A : Type ℓ) : Type ℓ where
  done : A → Outcome A
  fault : Fault → Outcome A
  panics : Outcome A

-- `a[i] = v`
abbrev pub put : (i v : ℕ) → (ℕ → ℕ) → ℕ → ℕ
put i v a j = if j == i then v else a j

-- `first..=last`
abbrev pub in_range : (first last a : ℕ) → Bool
in_range first last a = leb first a && leb a last

-- What follows a step that may not return, as `?` and the evaluation order have it.
abbrev pub and_done {ℓ κ} : {A : Type ℓ} {B : Type κ} → Outcome A → (A → Outcome B) → Outcome B
and_done (done x) f = f x
and_done (fault e) f = fault e
and_done panics f = panics
