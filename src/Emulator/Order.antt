-- ===== src/Emulator/Order.antt =====
-- Which interrupt `check_ints` takes.
use rv32_emulator.Common.{
  ℕ, suc, ◌<◌, sym, ap, ◌∙◌, ◌≡◌, ◌≢◌, refl, arith, true, false, some, none, ◌&&◌, ◌⊎◌, inl, inr,
  Bool-cases, ◌==◌, if◌then◌else◌, test_bit,
}
use rv32_emulator.Devices.Clint.{mip, mie, Pending, meip, msip, mtip, seip, ssip, stip, lower}
use rv32_emulator.Devices.Timer.{is_pending, is_pending-lower, is_pending-lower_other}
use rv32_emulator.Emulator.{Cpu, State, interrupt_of, is_posted, take, take_pending}

-- The priorities of the privileged architecture, the highest first.
abbrev pub rank : Pending → ℕ
rank meip = 0
rank msip = 1
rank mtip = 2
rank seip = 3
rank ssip = 4
rank stip = 5

of_rank : ℕ → Pending
of_rank n =
    if n == 0
    then meip
    else if n == 1
    then msip
    else if n == 2
    then mtip
    else if n == 3
    then seip
    else if n == 4
    then ssip
    else stip

of_rank-rank : (b : Pending) → of_rank (rank b) ≡ b
unfolding of_rank
of_rank-rank meip = refl
of_rank-rank msip = refl
of_rank-rank mtip = refl
of_rank-rank seip = refl
of_rank-rank ssip = refl
of_rank-rank stip = refl

<-cases : (m n : ℕ) → m < suc n → (m < n) ⊎ (m ≡ n)
<-cases m n lt = omega arith

rank-less : (b : Pending) → rank b < 6
rank-less meip = omega arith
rank-less msip = omega arith
rank-less mtip = omega arith
rank-less seip = omega arith
rank-less ssip = omega arith
rank-less stip = omega arith

module _ (c : Cpu) where
  open c use {csr, registers, set_registers, registers_put}
  open csr use {csr_read, place, read_other}

  -- What an interrupt that is taken leaves.
  pub record IsTaken (b : Pending) (s s' : State c) : Type 0 where
    pub was_posted : is_posted c b s ≡ true
    pub is_highest : (b' : Pending) → rank b' < rank b → is_posted c b' s ≡ false
    pub is_gone : is_posted c b s' ≡ false
    pub others_kept : (b' : Pending) → b' ≢ b → is_posted c b' s' ≡ is_posted c b' s

  is_posted-after :
      (b' b : Pending) (s : State c)
      → is_posted c b' (set_registers (lower csr b (registers s)) s) ≡ (
          test_bit (place b') (csr_read mie (registers s))
          && is_pending csr b' (lower csr b (registers s)))
  unfolding is_posted lower
  is_posted-after b' b s =
      rw (registers_put (lower csr b (registers s)) s)
        (rw (read_other mie mip _ (registers s) (cc) (inr refl)) refl)

  pub is_posted-lower :
      (b : Pending) (s : State c)
      → is_posted c b (set_registers (lower csr b (registers s)) s) ≡ false
  is_posted-lower b s =
      rw (is_posted-after b b s) (rw (is_pending-lower csr b (registers s)) (ground arith))

  take-IsTaken :
      (b : Pending) (s : State c)
      → is_posted c b s ≡ true
      → ((b' : Pending) → rank b' < rank b → is_posted c b' s ≡ false)
      → IsTaken b s (take c b s).1
  unfolding take is_posted
  take-IsTaken b s on first = record {
    was_posted = on;
    is_highest = first;
    is_gone = is_posted-lower b s;
    others_kept = λ b' ne.
        rw (is_posted-after b' b s) (rw (is_pending-lower_other csr b' b (registers s) ne) refl);
  }

  -- The `n` interrupts of the highest priority are not posted.
  abbrev IsIdle : State c → ℕ → Type 0
  IsIdle s n = (b : Pending) → rank b < n → is_posted c b s ≡ false

  IsIdle-next :
      (s : State c) (b : Pending)
      → IsIdle s (rank b)
      → is_posted c b s ≡ false
      → IsIdle s (suc (rank b))
  IsIdle-next s b idle off b' lt = elim (<-cases (rank b') (rank b) lt) [
    | inl less ↦ idle b' less
    | inr same ↦
        ap (λ x. is_posted c x s) (sym (of_rank-rank b') ∙ ap of_rank same ∙ of_rank-rank b) ∙ off
  ]

  -- Of the interrupts that are posted, in MIP and MIE, the one with the highest priority of the
  -- architecture is taken: it is no longer posted then, and the others are as before. When none is
  -- posted, none is taken and the state stays.
  pub take_pending_lem :
      (s : State c)
      → (((b : Pending) → is_posted c b s ≡ false) × (take_pending c s ≡ (none, s)))
        ⊎ ((b : Pending) × (s' : State c) × (take_pending c s ≡ (some (interrupt_of b), s'))
            × IsTaken b s s')
  unfolding take_pending take
  take_pending_lem s =
      let k0 : IsIdle s 0 = λ b lt. absurd (omega arith) in
      elim (Bool-cases (is_posted c meip s)) [
        | inl on ↦ inr (meip, _, rw on refl, take-IsTaken meip s on k0)
        | inr o0 ↦
            let k1 = IsIdle-next s meip k0 o0 in
            elim (Bool-cases (is_posted c msip s)) [
              | inl on ↦ inr (msip, _, rw o0 (rw on refl), take-IsTaken msip s on k1)
              | inr o1 ↦
                  let k2 = IsIdle-next s msip k1 o1 in
                  elim (Bool-cases (is_posted c mtip s)) [
                    | inl on ↦ inr (mtip, _, rw o0 (rw o1 (rw on refl)), take-IsTaken mtip s on k2)
                    | inr o2 ↦
                        let k3 = IsIdle-next s mtip k2 o2 in
                        elim (Bool-cases (is_posted c seip s)) [
                          | inl on ↦ inr (
                            seip,
                            _,
                            rw o0 (rw o1 (rw o2 (rw on refl))),
                            take-IsTaken seip s on k3,
                          )
                          | inr o3 ↦
                              let k4 = IsIdle-next s seip k3 o3 in
                              elim (Bool-cases (is_posted c ssip s)) [
                                | inl on ↦ inr (
                                  ssip,
                                  _,
                                  rw o0 (rw o1 (rw o2 (rw o3 (rw on refl)))),
                                  take-IsTaken ssip s on k4,
                                )
                                | inr o4 ↦
                                    let k5 = IsIdle-next s ssip k4 o4 in
                                    elim (Bool-cases (is_posted c stip s)) [
                                      | inl on ↦ inr (
                                        stip,
                                        _,
                                        rw o0 (rw o1 (rw o2 (rw o3 (rw o4 (rw on refl))))),
                                        take-IsTaken stip s on k5,
                                      )
                                      | inr o5 ↦ inl (
                                        λ b. IsIdle-next s stip k5 o5 b (rank-less b),
                                        rw o0 (rw o1 (rw o2 (rw o3 (rw o4 (rw o5 refl))))),
                                      )
                                    ]
                              ]
                        ]
                  ]
            ]
      ]
