-- ===== src/Emulator/Stepping.antt =====
-- The step mode of src/main.rs, without what it prints. At the end of the input a line is empty.
use rv32_emulator.Common.{
  ℕ, zero, suc, ◌^◌, ◌<◌, ◌≡◌, ◌≢◌, ◌↔◌, ◌⊎◌, refl, ◌∙◌, sym, arith, Bool-cases, inl, inr, true,
  false, Option, none, some, List, [], ◌∷◌, ◌==◌,
}
use rv32_emulator.Devices.{Outcome, done, panics, and_done}
use rv32_emulator.Devices.Bus.{Bus}
use rv32_emulator.Devices.Virtio.{word}
use rv32_emulator.Emulator.{Stepped, ok, access_fault, failed, Stepped-cases, expected}
use rv32_emulator.Emulator.Command.{exit, dump, nothing, show, continue_to, command}
use rv32_emulator.Emulator.Command.Line.{value_of, AreDigits, con_line, exit_line, command-lines}

abbrev pub first_line : List (List ℕ) → List ℕ
first_line [] = []
first_line (line ∷ lines) = line

abbrev pub further_lines : List (List ℕ) → List (List ℕ)
further_lines [] = []
further_lines (line ∷ lines) = lines

module _ (b : Bus) (pc : b.State → ℕ) (step : b.State → Stepped b.State) where
  open b use {State, read}

  -- `while cpu.get_pc() != address`; `none` says that the rounds did not suffice.
  unfoldable pub run_to : (rounds address : ℕ) → State → Outcome (Option State)
  run_to zero address s = done none
  run_to (suc rounds) address s = elim (pc s == address) [
    | true ↦ done (some s)
    | false ↦ elim (step s) [
      | ok s' ↦ run_to rounds address s'
      | access_fault s' ↦ panics
      | failed s' ↦ panics
    ]
  ]

  -- The loop: the state in which it ends. Each `con` has `fuel` rounds.
  unfoldable pub stepping : (rounds fuel : ℕ) → List (List ℕ) → State → Outcome (Option State)
  unfolding run_to command
  stepping zero fuel lines s = done none
  stepping (suc rounds) fuel lines s =
      let answer : State → Outcome (Option State) = λ s'.
        and_done (command (first_line lines)) λ cmd. elim cmd [
          | exit ↦ done (some s')
          | dump ↦ stepping rounds fuel (further_lines lines) s'
          | nothing ↦ stepping rounds fuel (further_lines lines) s'
          | show a ↦
              and_done (expected (read word a s'))
                λ (value, s2). stepping rounds fuel (further_lines lines) s2
          | continue_to a ↦ and_done (run_to fuel a s') λ reached. elim reached [
            | none ↦ done none
            | some s2 ↦ stepping rounds fuel (further_lines lines) s2
          ]
        ] in
      elim (step s) [ ok s' ↦ answer s' | access_fault s' ↦ answer s' | failed s' ↦ done (some s') ]

  -- A number of steps that succeed, none of them from the address.
  pub data Steps (address : ℕ) : ℕ → State → State → Type 0 where
    no_step : {s : State} → Steps address zero s s
    one_more :
        {n : ℕ} {s s1 s2 : State}
        → pc s ≢ address
        → step s ≡ ok s1
        → Steps address n s1 s2
        → Steps address (suc n) s s2

  run_to-here :
      (n : ℕ) {address : ℕ} (s : State) → pc s ≡ address → run_to (suc n) address s ≡ done (some s)
  unfolding run_to
  run_to-here n {address} s here =
      let e : (pc s == address) ≡ true = ground (arith, here) in rw (run_to, e) refl

  run_to-next :
      (n : ℕ) {address : ℕ} (s : State) {s1 : State}
      → pc s ≢ address
      → step s ≡ ok s1
      → run_to (suc n) address s ≡ run_to n address s1
  unfolding run_to
  run_to-next n {address} s away ran =
      let e : (pc s == address) ≡ false = ground (arith, away) in rw (run_to, e, ran) refl

  run_to-Steps :
      (n : ℕ) {k address : ℕ} {s s' : State}
      → Steps address k s s'
      → pc s' ≡ address
      → k < n
      → run_to n address s ≡ done (some s')
  run_to-Steps zero steps here lt = absurd (omega arith)
  run_to-Steps (suc n) {s = s} no_step here lt = run_to-here n s here
  run_to-Steps (suc n) {s = s} (one_more away ran steps) here lt =
      run_to-next n s away ran ∙ run_to-Steps n steps here (omega arith)

  run_to-panics :
      (n : ℕ) {address : ℕ} (s s1 : State)
      → pc s ≢ address
      → (step s ≡ access_fault s1) ⊎ (step s ≡ failed s1)
      → run_to (suc n) address s ≡ panics
  unfolding run_to
  run_to-panics n {address} s s1 away (inl ran) =
      let e : (pc s == address) ≡ false = ground (arith, away) in rw (run_to, e, ran) refl
  run_to-panics n {address} s s1 away (inr ran) =
      let e : (pc s == address) ≡ false = ground (arith, away) in rw (run_to, e, ran) refl

  run_to-only :
      (n : ℕ) (address : ℕ) (s s' : State)
      → run_to n address s ≡ done (some s')
      → (k : ℕ) × (k < n) × Steps address k s s' × (pc s' ≡ address)
  unfolding run_to
  run_to-only zero address s s' ran = absurd cc
  run_to-only (suc n) address s s' ran = elim (Bool-cases (pc s == address)) [
    | inl same ↦
        let here : pc s ≡ address = ground (arith, same) in
        let e : s ≡ s' = let both = sym (run_to-here n s here) ∙ ran in cc in
        rw (sym e) (0, omega arith, no_step, here)
    | inr other ↦
        let away : pc s ≢ address = ground (arith, other) in
        elim (Stepped-cases (step s)) [
          | inl (s1, stepped) ↦
              let (k, lt, steps, here) =
                run_to-only n address s1 s' (sym (run_to-next n s away stepped) ∙ ran) in
              (suc k, omega arith, one_more away stepped steps, here)
          | inr (s1, bad) ↦ absurd (let e = sym (run_to-panics n s s1 away bad) ∙ ran in cc)
        ]
  ]

  -- `con` returns within `n` rounds, exactly if fewer than `n` steps that succeed lead from the state
  -- to the first one at the address.
  pub run_to_lem :
      (n address : ℕ) (s s' : State)
      → (run_to n address s ≡ done (some s'))
        ↔ ((k : ℕ) × (k < n) × Steps address k s s' × (pc s' ≡ address))
  run_to_lem n address s s' =
      (run_to-only n address s s', λ (k, lt, steps, here). run_to-Steps n steps here lt)

  -- A step, the line "con " with the hexadecimal digits of an address below 2 ^ 32, and fewer steps
  -- than `con` has rounds that lead there for the first time, each of which succeeds: with one more
  -- step and the line "exit", the emulator ends in the state behind that step.
  pub stepping-con :
      (rounds fuel k d : ℕ) (ds : List ℕ) (lines : List (List ℕ)) (s s1 s2 s3 : State)
      → AreDigits (d ∷ ds)
      → value_of (d ∷ ds) 0 < 2 ^ 32
      → step s ≡ ok s1
      → Steps (value_of (d ∷ ds) 0) k s1 s2
      → pc s2 ≡ value_of (d ∷ ds) 0
      → k < fuel
      → step s2 ≡ ok s3
      → stepping (suc (suc rounds)) fuel (con_line (d ∷ ds) ∷ exit_line ∷ lines) s ≡ done (some s3)
  unfolding stepping
  stepping-con rounds fuel k d ds lines s s1 s2 s3 are small first steps here lt last =
      let reached = run_to-Steps fuel steps here lt in
      let cmd = (command-lines d ds are small).0 in
      rw (stepping, first, cmd) (rw (reached, last) refl)
