-- ===== src/Devices/Csrs.antt =====
-- An example of the processor's control registers that src/devices/clint.rs writes.
use rv32_emulator.Common.{
  ℕ, ◌≡◌, ◌≢◌, refl, sym, ap, ◌∙◌, inl, inr, arith, ◌==◌, if◌then◌else◌, Bool-cases, false,
}
use rv32_emulator.Devices.Clint.{
  Csr, time, mip, mie, mstatus, sstatus, Pending, meip, msip, mtip, seip, ssip, stip, CpuCsr,
}

-- Control registers that are a function, with the places of the RISC-V specification.
abbrev pub place_of : Pending → ℕ
place_of meip = 11
place_of msip = 3
place_of mtip = 7
place_of seip = 9
place_of ssip = 1
place_of stip = 5

abbrev pub code : Csr → ℕ
code time = 0
code mip = 1
code mie = 2
code mstatus = 3
code sstatus = 4

named : ℕ → Csr
named n =
    if n == 0
    then time
    else if n == 1
    then mip
    else if n == 2
    then mie
    else if n == 3
    then mstatus
    else sstatus

named-code : (r : Csr) → named (code r) ≡ r
unfolding named
named-code time = refl
named-code mip = refl
named-code mie = refl
named-code mstatus = refl
named-code sstatus = refl

pub code-ne : (r r' : Csr) → r ≢ r' → (code r == code r') ≡ false
code-ne r r' ne = elim (Bool-cases (code r == code r')) [
  | inr apart ↦ apart
  | inl same ↦
      let e : code r ≡ code r' = ground (arith, same) in
      absurd (ne (sym (named-code r) ∙ ap named e ∙ named-code r'))
]

at_place : ℕ → Pending
at_place n =
    if n == 11
    then meip
    else if n == 3
    then msip
    else if n == 7
    then mtip
    else if n == 9
    then seip
    else if n == 1
    then ssip
    else stip

at_place-place_of : (b : Pending) → at_place (place_of b) ≡ b
unfolding at_place
at_place-place_of meip = refl
at_place-place_of msip = refl
at_place-place_of mtip = refl
at_place-place_of seip = refl
at_place-place_of ssip = refl
at_place-place_of stip = refl

pub place_of-ne : (b b' : Pending) → b ≢ b' → place_of b ≢ place_of b'
place_of-ne b b' ne e = ne (sym (at_place-place_of b) ∙ ap at_place e ∙ at_place-place_of b')

abbrev pub csrs : CpuCsr
csrs = record {
  State = Csr → ℕ;
  csr_read = λ r s. s r;
  csr_write = λ r v s r'. if code r' == code r then v else s r';
  place = place_of;
  read_mip = λ v s. refl;
  read_other = λ r r' v s ne which. rw (code-ne r r' ne) refl;
  places_differ = place_of-ne;
}
