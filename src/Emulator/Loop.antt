-- ===== src/Emulator/Loop.antt =====
-- The main loop: which states it reaches, and when it ends.
use rv32_emulator.Common.{
  ℕ, zero, suc, ◌<◌, ◌≡◌, ◌↔◌, ◌≢◌, ◌⊎◌, inl, inr, refl, sym, ◌∙◌, arith, some, none,
}
use rv32_emulator.Devices.{Outcome, done, fault, panics, and_done}
use rv32_emulator.Emulator.{
  Stepped, ok, access_fault, failed, Stepped-cases, Cpu, State, Interrupt, check_ints, run,
}

-- An exception or a panic.
abbrev pub IsOther : {A : Type 0} → Outcome A → Type 1
IsOther {A} o = (B : Type 0) (f : A → Outcome B) (b : B) → and_done o f ≢ done b

pub Outcome-cases : {A : Type 0} (o : Outcome A) → ((a : A) × (o ≡ done a)) ⊎ IsOther o
Outcome-cases (done a) = inl (a, refl)
Outcome-cases (fault e) = inr (λ B f b e. cc)
Outcome-cases panics = inr (λ B f b e. cc)

module _ (c : Cpu) (step : State c → Stepped (State c))
    (take_trap : Interrupt → State c → State c) where
  -- A number of rounds of the loop, in each of which the step succeeds and `check_ints` returns.
  pub data Rounds : ℕ → State c → State c → Type 0 where
    no_round : {s : State c} → Rounds zero s s
    quiet :
        {n : ℕ} {s s1 s2 s3 : State c}
        → step s ≡ ok s1
        → check_ints c s1 ≡ done (none, s2)
        → Rounds n s2 s3
        → Rounds (suc n) s s3
    trapped :
        {n : ℕ} {s s1 s2 s3 : State c} {int : Interrupt}
        → step s ≡ ok s1
        → check_ints c s1 ≡ done (some int, s2)
        → Rounds n (take_trap int s2) s3
        → Rounds (suc n) s s3

  -- A step that is not `Ok`, which leaves the state `s'`.
  abbrev pub Stops : State c → State c → Type 0
  Stops s s' = (step s ≡ access_fault s') ⊎ (step s ≡ failed s')

  run-Stops :
      (m : ℕ) (s s' : State c) → Stops s s' → run c step take_trap (suc m) s ≡ done (some s')
  unfolding run
  run-Stops m s s' (inl stops) = rw (run, stops) refl
  run-Stops m s s' (inr stops) = rw (run, stops) refl

  run-quiet :
      (m : ℕ) (s : State c) {s1 s2 : State c}
      → step s ≡ ok s1
      → check_ints c s1 ≡ done (none, s2)
      → run c step take_trap (suc m) s ≡ run c step take_trap m s2
  unfolding run
  run-quiet m s stepped checked = rw (run, stepped) (rw checked refl)

  run-trapped :
      (m : ℕ) (s : State c) {s1 s2 : State c} {int : Interrupt}
      → step s ≡ ok s1
      → check_ints c s1 ≡ done (some int, s2)
      → run c step take_trap (suc m) s ≡ run c step take_trap m (take_trap int s2)
  unfolding run
  run-trapped m s stepped checked = rw (run, stepped) (rw checked refl)

  run-other :
      (m : ℕ) (s : State c) {s1 s' : State c}
      → step s ≡ ok s1
      → IsOther (check_ints c s1)
      → run c step take_trap (suc m) s ≢ done (some s')
  unfolding run
  run-other m s stepped other = rw (run, stepped) (other _ _ _)

  run-enough :
      (m : ℕ) {n : ℕ} {s t s' : State c}
      → Rounds n s t
      → Stops t s'
      → n < m
      → run c step take_trap m s ≡ done (some s')
  run-enough zero rounds stops lt = absurd (omega arith)
  run-enough (suc m) {s = s} {s' = s'} no_round stops lt = run-Stops m s s' stops
  run-enough (suc m) {s = s} (quiet stepped checked rest) stops lt =
      run-quiet m s stepped checked ∙ run-enough m rest stops (omega arith)
  run-enough (suc m) {s = s} (trapped stepped checked rest) stops lt =
      run-trapped m s stepped checked ∙ run-enough m rest stops (omega arith)

  run-only :
      (m : ℕ) (s s' : State c)
      → run c step take_trap m s ≡ done (some s')
      → (n : ℕ) × (t : State c) × (n < m) × Rounds n s t × Stops t s'
  unfolding run
  run-only zero s s' ran = absurd cc
  run-only (suc m) s s' ran = elim (Stepped-cases (step s)) [
    | inr (s1, stops) ↦
        let same : s1 ≡ s' = let e = sym (run-Stops m s s1 stops) ∙ ran in cc in
        (0, s, omega arith, no_round, rw (sym same) stops)
    | inl (s1, stepped) ↦ elim (Outcome-cases (check_ints c s1)) [
      | inl ((none, s2), checked) ↦
          let (n, t, lt, rounds, stops) =
            run-only m s2 s' (sym (run-quiet m s stepped checked) ∙ ran) in
          (suc n, t, omega arith, quiet stepped checked rounds, stops)
      | inl ((some int, s2), checked) ↦
          let (n, t, lt, rounds, stops) =
            run-only m (take_trap int s2) s' (sym (run-trapped m s stepped checked) ∙ ran) in
          (suc n, t, omega arith, trapped stepped checked rounds, stops)
      | inr other ↦ absurd (run-other m s stepped other ran)
    ]
  ]

  -- Within `m` rounds the loop ends in a state, exactly if fewer than `m` rounds, of a step that
  -- succeeds and of `check_ints` with its trap each, lead to a state where a step fails and leaves
  -- that one.
  pub run_lem :
      (m : ℕ) (s s' : State c)
      → (run c step take_trap m s ≡ done (some s'))
        ↔ ((n : ℕ) × (t : State c) × (n < m) × Rounds n s t × Stops t s')
  run_lem m s s' = (run-only m s s', λ (n, t, lt, rounds, stops). run-enough m rounds stops lt)
