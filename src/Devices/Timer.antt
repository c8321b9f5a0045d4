-- ===== src/Devices/Timer.antt =====
-- The timer interrupt, and the timer's registers as the guest sees them.
use rv32_emulator.Common.{
  ℕ, suc, zero, ◌+◌, ◌%◌, ◌^◌, ◌<◌, ◌≡◌, ◌≢◌, inl, inr, refl, ap, ◌∙◌, arith, u32, Bool, true,
  false, ◌||◌, ltb, leb, Bool-cases, test_bit, test_bit-set_bit_self, test_bit-clear_bit_self,
  test_bit-set_bit_other, test_bit-clear_bit_other,
}
use rv32_emulator.Devices.{done}
use rv32_emulator.Devices.Clint.{
  time, mip, Pending, msip, mtip, CpuCsr, Clint, read, write, raise, lower, post_software,
  post_timer, increment, ticks,
}

-- Each of the two registers of 64 bits is one word: a word written to either half becomes the whole
-- register, and both halves read as that word. So of a comparison value or a time that is written
-- in two halves only the last half is kept.
pub halves :
    (a a' value : ℕ) (c : Clint)
    → value < 2 ^ 32
    → a < 8
    → a' < 8
    → (write true (0x4000 + a) value c ≡ done (record c { mtimecmp = value }))
      × (read true (0x4000 + a') (record c { mtimecmp = value }) ≡ done value)
      × (write true (0xbff8 + a) value c ≡ done (record c { mtime = value }))
      × (read true (0xbff8 + a') (record c { mtime = value }) ≡ done value)
unfolding read write
halves a a' value c small lo lo' = (ground arith, ground arith, ground arith, ground arith)

module _ (u : CpuCsr) where
  open u use {State, csr_read, csr_write, place, read_mip, read_other, places_differ}

  -- Whether an interrupt is pending.
  abbrev pub is_pending : Pending → State → Bool
  is_pending b s = test_bit (place b) (csr_read mip s)

  pub is_pending-raise : (b : Pending) (s : State) → is_pending b (raise u b s) ≡ true
  unfolding raise
  is_pending-raise b s = rw (read_mip _ s) (test_bit-set_bit_self (place b) _)

  pub is_pending-lower : (b : Pending) (s : State) → is_pending b (lower u b s) ≡ false
  unfolding lower
  is_pending-lower b s = rw (read_mip _ s) (test_bit-clear_bit_self (place b) _)

  pub is_pending-raise_other :
      (b b' : Pending) (s : State) → b ≢ b' → is_pending b (raise u b' s) ≡ is_pending b s
  unfolding raise
  is_pending-raise_other b b' s ne =
      rw (read_mip _ s) (test_bit-set_bit_other _ _ _ (places_differ b b' ne))

  pub is_pending-lower_other :
      (b b' : Pending) (s : State) → b ≢ b' → is_pending b (lower u b' s) ≡ is_pending b s
  unfolding lower
  is_pending-lower_other b b' s ne =
      rw (read_mip _ s) (test_bit-clear_bit_other _ _ _ (places_differ b b' ne))

  is_pending-time :
      (b : Pending) (v : ℕ) (s : State) → is_pending b (csr_write time v s) ≡ is_pending b s
  is_pending-time b v s = rw (read_other mip time v s (cc) (inl refl))

  timer-mtip : (c : Clint) (s : State) → is_pending mtip (post_timer u c s) ≡ leb c.mtimecmp c.mtime
  unfolding post_timer
  timer-mtip c s = elim (Bool-cases (leb c.mtimecmp c.mtime)) [
    | inl reached ↦ rw reached (is_pending-raise mtip _)
    | inr early ↦
        let less : ltb c.mtime c.mtimecmp ≡ true = ground (arith, early) in
        rw (early, less) (is_pending-lower mtip s)
  ]

  timer-other :
      (b : Pending) (c : Clint) (s : State)
      → b ≢ mtip
      → is_pending b (post_timer u c s) ≡ is_pending b s
  unfolding post_timer
  timer-other b c s ne = elim (Bool-cases (leb c.mtimecmp c.mtime)) [
    | inl reached ↦
        let late : ltb c.mtime c.mtimecmp ≡ false = ground (arith, reached) in
        rw (reached, late) (is_pending-raise_other b mtip s ne)
    | inr early ↦
        let less : ltb c.mtime c.mtimecmp ≡ true = ground (arith, early) in
        rw (early, less) (is_pending-lower_other b mtip s ne)
  ]

  software-msip :
      (c : Clint) (s : State)
      → is_pending msip (post_software u c s) ≡ (test_bit 0 c.msip_word || is_pending msip s)
  unfolding post_software
  software-msip c s = elim (Bool-cases (test_bit 0 c.msip_word)) [
    | inl set ↦ rw set (is_pending-raise msip s)
    | inr clear ↦ rw clear refl
  ]

  software-other :
      (b : Pending) (c : Clint) (s : State)
      → b ≢ msip
      → is_pending b (post_software u c s) ≡ is_pending b s
  unfolding post_software
  software-other b c s ne = elim (Bool-cases (test_bit 0 c.msip_word)) [
    | inl set ↦ rw set (is_pending-raise_other b msip s ne)
    | inr clear ↦ rw clear refl
  ]

  -- A tick moves the time by one, modulo 2 ^ 64. Behind it the timer interrupt is pending exactly if
  -- the time has reached the comparison value; the software interrupt is pending if it was, or if
  -- the lowest bit of its register is set; no other interrupt has changed. (The comment on MTIMECMP
  -- in the source has the comparison the other way round; that on `increment` agrees.)
  pub increment_lem :
      (c : Clint) (s : State) (b : Pending)
      → b ≢ msip
      → b ≢ mtip
      → let (c', s') = increment u c s in
        (c' ≡ record c { mtime = (c.mtime + 1) % 2 ^ 64 })
        × (is_pending mtip s' ≡ leb c.mtimecmp c'.mtime)
        × (is_pending msip s' ≡ (test_bit 0 c.msip_word || is_pending msip s))
        × (is_pending b s' ≡ is_pending b s)
  unfolding increment
  increment_lem c s b ne ne' =
      let c' = record c { mtime = (c.mtime + 1) % 2 ^ 64 } in
      let s1 = csr_write time (u32 c'.mtime) s in
      (
        refl,
        timer-mtip c' _,
        timer-other msip c' _ (cc)
            ∙ software-msip c' s1
            ∙ rw (is_pending-time msip (u32 c'.mtime) s) refl,
        timer-other b c' _ ne' ∙ software-other b c' s1 ne ∙ is_pending-time b (u32 c'.mtime) s,
      )

  -- After any number of ticks but none, with a time that does not wrap, the timer interrupt is
  -- pending exactly if the time has reached the comparison value: so it comes with the tick that
  -- reaches the value, not before, and stays.
  pub ticks-fire :
      (n : ℕ) (c : Clint) (s : State)
      → c.mtime + suc n < 2 ^ 64
      → is_pending mtip (ticks u (suc n) c s).1 ≡ leb c.mtimecmp (c.mtime + suc n)
  unfolding ticks increment
  ticks-fire zero c s fits =
      let now : (c.mtime + 1) % 2 ^ 64 ≡ c.mtime + 1 = omega arith in
      let c' = record c { mtime = c.mtime + 1 } in rw now (timer-mtip c' _)
  ticks-fire (suc n) c s fits =
      ticks-fire n (increment u c s).0 (increment u c s).1 (omega arith)
      ∙ ap (leb c.mtimecmp) (omega arith)
