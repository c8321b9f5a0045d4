-- ===== src/CString/Ends.antt =====
-- When `strlen` of c_test/string.c ends, on any memory.
use rv32_emulator.Common.{
  ℕ, zero, suc, ◌+◌, ◌-◌, ◌%◌, ◌^◌, ◌≤◌, ◌<◌, ◌≡◌, ◌≢◌, refl, ◌⊎◌, inl, inr, arith, add32, none,
  some, ◌==◌, Bool-cases,
}
use rv32_emulator.Memory.{Bytes}
use rv32_emulator.CString.{strlen_loop, strlen}

-- The byte at index `i` of the string, where the index and the address wrap.
abbrev pub byte_at : Bytes → (str i : ℕ) → ℕ
byte_at m str i = m (add32 str (i % 2 ^ 32))

-- The loop stops at the first zero byte, or makes all its rounds.
strlen_loop-ends :
    (fuel i str : ℕ) (m : Bytes)
    → ((k : ℕ) × (strlen_loop fuel (i % 2 ^ 32) str m ≡ some ((i + k) % 2 ^ 32))
        × (byte_at m str (i + k) ≡ 0)
        × ((j : ℕ) → j < k → byte_at m str (i + j) ≢ 0))
      ⊎ ((strlen_loop fuel (i % 2 ^ 32) str m ≡ none)
          × ((j : ℕ) → j < fuel → byte_at m str (i + j) ≢ 0))
unfolding strlen_loop
strlen_loop-ends zero i str m = inr (refl, λ j lt. absurd (omega arith))
strlen_loop-ends (suc fuel) i str m =
    let next : add32 (i % 2 ^ 32) 1 ≡ (i + 1) % 2 ^ 32 = unfold add32 in omega arith in
    let here : i + 0 ≡ i = omega arith in
    elim (Bool-cases (byte_at m str i == 0)) [
      | inl stops ↦
          inl (
            0,
            rw (here, stops) refl,
            rw here (ground (arith, stops)),
            λ j lt. absurd (omega arith),
          )
      | inr goes ↦
          let first : byte_at m str i ≢ 0 = ground (arith, goes) in
          elim (strlen_loop-ends fuel (i + 1) str m) [
            | inl (k, run, at, before) ↦
                let shift : i + 1 + k ≡ i + (1 + k) = omega arith in
                inl (
                  1 + k,
                  rw (next, goes) (rw shift at run),
                  rw shift at at,
                  later (1 + k) first (λ j lt. before j (omega arith)),
                )
            | inr (run, before) ↦
                inr (rw (next, goes) run, later (suc fuel) first (λ j lt. before j (omega arith)))
          ]
    ]
  where
    later :
        (k : ℕ)
        → byte_at m str i ≢ 0
        → ((j : ℕ) → j + 1 < k → byte_at m str (i + 1 + j) ≢ 0)
        → (j : ℕ) → j < k
        → byte_at m str (i + j) ≢ 0
    later k first rest zero lt = let here : i + 0 ≡ i = omega arith in rw here first
    later k first rest (suc j) lt =
        let e : i + suc j ≡ i + 1 + j = omega arith in rw e (rest j (omega arith))

-- On any memory, and with 2 ^ 32 rounds or more, `strlen` either ends at the first zero byte from
-- the start of the string on, where addresses wrap, and returns its distance; or there is no zero
-- byte in the whole memory, and it makes all its rounds without an end.
pub strlen-ends :
    (fuel str : ℕ) (m : Bytes)
    → 2 ^ 32 ≤ fuel
    → str < 2 ^ 32
    → ((n : ℕ) × (strlen fuel str m ≡ some n)
        × (n < 2 ^ 32)
        × (m (add32 str n) ≡ 0)
        × ((j : ℕ) → j < n → m (add32 str j) ≢ 0))
      ⊎ ((strlen fuel str m ≡ none) × ((a : ℕ) → a < 2 ^ 32 → m a ≢ 0))
unfolding strlen
strlen-ends fuel str m enough small = elim (strlen_loop-ends fuel 0 str m) [
  | inl (k, run, at, before) ↦
      let whole : 0 + k ≡ k = omega arith in
      inl (
        k % 2 ^ 32,
        rw whole at run,
        omega arith,
        rw whole at at,
        λ j lt.
            let small_j : j % 2 ^ 32 ≡ j = omega arith in
            let plain : 0 + j ≡ j = omega arith in
            rw small_j at (rw plain at (before j (omega arith))),
      )
  | inr (run, before) ↦ inr (
    run,
    λ a lt.
        let j = (a + 2 ^ 32 - str) % 2 ^ 32 in
        let plain : 0 + j ≡ j = omega arith in
        let there : add32 str (j % 2 ^ 32) ≡ a = unfold add32 in omega arith in
        rw there at (rw plain at (before j (omega arith))),
  )
]
