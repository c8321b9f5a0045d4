-- ===== src/Devices/Bus/Action.antt =====
-- Steps on a state that may raise an exception or panic, as a row of `?` has it. A state behind
-- either is not looked at again.
use rv32_emulator.Common.{Bool, if◌then◌else◌}
use rv32_emulator.Devices.{Outcome, done, panics, and_done}

abbrev pub Action : Type 0 → Type 0 → Type 0
Action S A = S → Outcome (A × S)

infixl 5 ◌>>=◌ ◌>>◌
abbrev pub ◌>>=◌ : {S A B : Type 0} → Action S A → (A → Action S B) → Action S B
◌>>=◌ m f s = and_done (m s) λ (a, s'). f a s'

abbrev pub ◌>>◌ : {S B : Type 0} → Action S (Unit {0}) → Action S B → Action S B
m >> k = m >>= λ _. k

module _ {S : Type 0} where
  abbrev pub pure : {A : Type 0} → A → Action S A
  pure a s = done (a, s)

  -- A value that the state determines, or a panic.
  abbrev pub gets : {A : Type 0} → (S → Outcome A) → Action S A
  gets f s = and_done (f s) λ a. done (a, s)

  abbrev pub modify : (S → S) → Action S (Unit {0})
  modify f s = done (tt, f s)

  -- `assert_eq!`
  abbrev pub check : Bool → Action S (Unit {0})
  check c s = if c then done (tt, s) else panics
