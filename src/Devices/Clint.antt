-- ===== src/Devices/Clint.antt =====
-- src/devices/clint.rs: the timer. Its registers have 64 bits. The control registers of the processor
-- are those of the virtual machine's package, and a parameter. The size of an access is given as
-- whether it is `Sizes::Word`.
use rv32_emulator.Common.{
  ℕ, suc, zero, ◌+◌, ◌%◌, ◌^◌, ◌≡◌, ◌≢◌, ◌⊎◌, u32, Bool, not, ◌&&◌, ltb, leb, if◌then◌else◌,
  set_bit, clear_bit, test_bit,
}
use rv32_emulator.Devices.{load_access_fault, store_access_fault, Outcome, done, fault}

-- The control registers that the source names, and the bits of MIP and MIE.
pub data Csr : Type 0 where
  time mip mie mstatus sstatus : Csr

pub data Pending : Type 0 where
  meip msip mtip seip ssip stip : Pending

-- What the source relies on of `CpuCsr`: MIP holds what was written last, a write to TIME or MIP
-- leaves the other registers, and the bits have places of their own.
pub record CpuCsr : Type 1 where
  pub State : Type 0
  pub csr_read : Csr → State → ℕ
  pub csr_write : Csr → ℕ → State → State
  pub place : Pending → ℕ
  pub read_mip : (v : ℕ) (s : State) → csr_read mip (csr_write mip v s) ≡ v
  pub read_other :
      (r r' : Csr) (v : ℕ) (s : State)
      → r ≢ r'
      → (r' ≡ time) ⊎ (r' ≡ mip)
      → csr_read r (csr_write r' v s) ≡ csr_read r s
  pub places_differ : (b b' : Pending) → b ≢ b' → place b ≢ place b'

pub record Clint : Type 0 where
  pub mtime : ℕ
  pub mtimecmp : ℕ
  pub msip_word : ℕ

unfoldable pub new : Clint
new = record { mtime = 0; mtimecmp = 0; msip_word = 0 }

-- `first..end`
abbrev pub within : (first last a : ℕ) → Bool
within first last a = leb first a && ltb a last

unfoldable pub read : (is_word : Bool) → (addr : ℕ) → Clint → Outcome ℕ
read is_word addr c =
    if not is_word
    then fault load_access_fault
    else if within 0x4000 0x4008 addr
    then done (u32 c.mtimecmp)
    else if within 0xbff8 0xc000 addr
    then done (u32 c.mtime)
    else if within 0 4 addr
    then done (u32 c.msip_word)
    else fault load_access_fault

unfoldable pub write : (is_word : Bool) → (addr value : ℕ) → Clint → Outcome Clint
write is_word addr value c =
    if not is_word
    then fault store_access_fault
    else if within 0x4000 0x4008 addr
    then done (record c { mtimecmp = value })
    else if within 0xbff8 0xc000 addr
    then done (record c { mtime = value })
    else if within 0 4 addr
    then done (record c { msip_word = value })
    else fault store_access_fault

module _ (u : CpuCsr) where
  open u use {State, csr_read, csr_write, place}

  -- `state.write(MIP, state.read(MIP) | BIT)`, and with `& !BIT`.
  unfoldable pub raise : Pending → State → State
  raise b s = csr_write mip (set_bit (place b) (csr_read mip s)) s

  unfoldable pub lower : Pending → State → State
  lower b s = csr_write mip (clear_bit (place b) (csr_read mip s)) s

  -- The first test of `increment`: the software interrupt.
  unfoldable pub post_software : Clint → State → State
  post_software c s = if test_bit 0 c.msip_word then raise msip s else s

  -- The other two: the timer interrupt.
  unfoldable pub post_timer : Clint → State → State
  post_timer c s =
      let s' = if ltb c.mtime c.mtimecmp then lower mtip s else s in
      if leb c.mtimecmp c.mtime then raise mtip s' else s'

  unfoldable pub increment : Clint → State → Clint × State
  increment c s =
      let c' = record c { mtime = (c.mtime + 1) % 2 ^ 64 } in
      (c', post_timer c' (post_software c' (csr_write time (u32 c'.mtime) s)))

  -- A number of ticks.
  unfoldable pub ticks : ℕ → Clint → State → Clint × State
  ticks zero c s = (c, s)
  ticks (suc n) c s = let (c', s') = increment c s in ticks n c' s'
