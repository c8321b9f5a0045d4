-- ===== src/Fib/Ends.antt =====
-- When the loop of `fast_fib` of c_test/fib.c ends.
use rv32_emulator.Common.{
  ℕ, zero, suc, ◌+◌, ◌-◌, ◌^◌, ◌≤◌, ◌<◌, ◌≡◌, ◌≢◌, refl, ◌⊎◌, inl, inr, arith, add32, true, none,
  some,
}
use rv32_emulator.Fib.{lt_int, le_int, fast_loop, fast_fib}
use rv32_emulator.Fib.Agree.{fib_agree, fib_negative}

-- Every `int` is at most the greatest one.
le_int-greatest : (i : ℕ) → le_int i (2 ^ 31 - 1) ≡ true
unfolding lt_int
le_int-greatest i = ground arith

fast_loop-forever : (rounds i a b : ℕ) → fast_loop rounds i (2 ^ 31 - 1) a b ≡ none
unfolding fast_loop
fast_loop-forever zero i a b = refl
fast_loop-forever (suc rounds) i a b =
    rw (le_int-greatest i) (fast_loop-forever rounds (add32 i 1) b (add32 a b))

-- With more rounds than its argument, `fast_fib` returns, unless the argument is the greatest `int`:
-- there the counter of the loop never exceeds it, and no number of rounds is enough.
pub fast_fib-ends :
    (rounds n : ℕ)
    → n < rounds
    → n < 2 ^ 32
    → ((n ≢ 2 ^ 31 - 1) × ((v : ℕ) × (fast_fib rounds n ≡ some v)))
      ⊎ ((n ≡ 2 ^ 31 - 1) × ((more : ℕ) → fast_fib more n ≡ none))
unfolding fast_fib
fast_fib-ends rounds n enough small = elim (cases n) [
  | inl low ↦ inl (omega arith, (_, (fib_agree rounds n enough low).0))
  | inr (inl at) ↦ inr (at, λ more. rw at (fast_loop-forever more 2 0 1))
  | inr (inr high) ↦
      let e : rounds ≡ suc (rounds - 1) = omega arith in
      inl (omega arith, (1, rw e ((fib_negative (rounds - 1) n high small).0)))
]
  where
    cases : (k : ℕ) → (k + 1 < 2 ^ 31) ⊎ ((k ≡ 2 ^ 31 - 1) ⊎ (2 ^ 31 ≤ k))
    cases k = ground arith
