-- ===== src/Fib/Agree.antt =====
-- The three functions compute the Fibonacci numbers.
use rv32_emulator.Common.{
  ℕ, zero, suc, ◌+◌, ◌-◌, ◌%◌, ◌^◌, ◌≤◌, ◌<◌, ◌≡◌, refl, sym, ap, inl, inr, arith, add32, sub32,
  true, false, Bool-cases, none, some, ◌==◌, ltb,
}
use rv32_emulator.Fib.{lt_int, cursed_fib, fast_loop, fast_fib, fib, max_input}

-- The Fibonacci numbers, by the definition.
abbrev pub fibonacci : ℕ → ℕ
fibonacci zero = 0
fibonacci (suc zero) = 1
fibonacci (suc (suc n)) = fibonacci (suc n) + fibonacci n

-- The number and its successor, which is quick to compute.
fib_pair : ℕ → ℕ × ℕ
fib_pair zero = (0, 1)
fib_pair (suc n) = let (a, b) = fib_pair n in (b, a + b)

fib_pair_lem : (n : ℕ) → (fib_pair n).0 ≡ fibonacci n × (fib_pair n).1 ≡ fibonacci (suc n)
unfolding fib_pair
fib_pair_lem zero = (refl, refl)
fib_pair_lem (suc n) = let (p, q) = fib_pair_lem n in (q, omega arith)

fibonacci-le-suc : (n : ℕ) → fibonacci n ≤ fibonacci (suc n)
fibonacci-le-suc zero = omega arith
fibonacci-le-suc (suc n) = omega arith

fibonacci_mono : (n k : ℕ) → fibonacci n ≤ fibonacci (k + n)
fibonacci_mono n zero = let e : 0 + n ≡ n = omega arith in rw e (omega arith)
fibonacci_mono n (suc k) =
    let e : suc k + n ≡ suc (k + n) = omega arith in
    rw e (omega (arith, fibonacci_mono n k, fibonacci-le-suc (k + n)))

pub fibonacci-fits : (n : ℕ) → n ≤ max_input → fibonacci n < 2 ^ 31
unfolding fib_pair
fibonacci-fits n h =
    let e : 45 - n + n ≡ 45 = omega arith in
    let top : fibonacci 45 ≡ 1134903170 = sym (fib_pair_lem 45).0 in
    let below : fibonacci n ≤ fibonacci 45 = rw e at (fibonacci_mono n (45 - n)) in
    omega (arith, below, top)

-- The order of `int`s that are not negative.
pub lt_int-eq : (a b : ℕ) → a < 2 ^ 31 → b < 2 ^ 31 → lt_int a b ≡ ltb a b
unfolding lt_int
lt_int-eq a b ha hb =
    let ea : (a + 2 ^ 31) % 2 ^ 32 ≡ a + 2 ^ 31 = omega arith in
    let eb : (b + 2 ^ 31) % 2 ^ 32 ≡ b + 2 ^ 31 = omega arith in rw (ea, eb) (ground arith)

-- A negative `int` comes before one that is not.
lt_int-negative : (a b : ℕ) → 2 ^ 31 ≤ a → a < 2 ^ 32 → b < 2 ^ 31 → lt_int a b ≡ true
unfolding lt_int
lt_int-negative a b la ha hb =
    let ea : (a + 2 ^ 31) % 2 ^ 32 ≡ a - 2 ^ 31 = omega arith in
    let eb : (b + 2 ^ 31) % 2 ^ 32 ≡ b + 2 ^ 31 = omega arith in rw (ea, eb) (ground arith)

cursed_fib_lem :
    (depth n : ℕ) → n < depth → n < 2 ^ 31 → cursed_fib depth n ≡ some (fibonacci n % 2 ^ 32)
unfolding cursed_fib
cursed_fib_lem zero n h small = elim h [ ]
cursed_fib_lem (suc depth) zero h small = unfold lt_int in refl
cursed_fib_lem (suc depth) (suc zero) h small = unfold lt_int in refl
cursed_fib_lem (suc depth) (suc (suc n)) h small =
    let one : sub32 (suc (suc n)) 1 ≡ suc n = unfold sub32 in omega arith in
    let two : sub32 (suc (suc n)) 2 ≡ n = unfold sub32 in omega arith in
    rw
      (
        one,
        two,
        lt_int-eq (suc (suc n)) 1 small (omega arith),
        lt_int-eq (suc (suc n)) 2 small (omega arith),
      )
      (rw
        (
          cursed_fib_lem depth (suc n) (omega arith) (omega arith),
          cursed_fib_lem depth n (omega arith) (omega arith),
        )
        (unfold add32 in ground arith))

fib_lem : (depth n : ℕ) → n < depth → n < 2 ^ 31 → fib depth n ≡ some (fibonacci n % 2 ^ 32)
unfolding fib
fib_lem zero n h small = elim h [ ]
fib_lem (suc depth) zero h small = refl
fib_lem (suc depth) (suc zero) h small = refl
fib_lem (suc depth) (suc (suc n)) h small =
    let one : sub32 (suc (suc n)) 1 ≡ suc n = unfold sub32 in omega arith in
    let two : sub32 (suc (suc n)) 2 ≡ n = unfold sub32 in omega arith in
    rw (one, two)
      (rw
        (
          fib_lem depth (suc n) (omega arith) (omega arith),
          fib_lem depth n (omega arith) (omega arith),
        )
        (unfold add32 in ground arith))

-- At the start of a round with `i = k + 2` the variables hold two neighbouring numbers.
fast_loop_lem :
    (rounds k n : ℕ)
    → k < n
    → n < rounds + (k + 1)
    → n + 1 < 2 ^ 31
    → fast_loop rounds (k + 2) n (fibonacci k % 2 ^ 32) (fibonacci (suc k) % 2 ^ 32)
      ≡ some (fibonacci n % 2 ^ 32)
unfolding fast_loop
fast_loop_lem zero k n h enough small = absurd (omega arith)
fast_loop_lem (suc rounds) k n h enough small =
    let next : add32 (k + 2) 1 ≡ suc k + 2 = unfold add32 in omega arith in
    let sum : add32 (fibonacci k % 2 ^ 32) (fibonacci (suc k) % 2 ^ 32)
        ≡ fibonacci (suc (suc k)) % 2 ^ 32 =
      unfold add32 in omega arith in
    rw (next, sum, lt_int-eq n (k + 2) (omega arith) (omega arith))
      (elim (Bool-cases (ltb n (k + 2))) [
        | inl done ↦
            let e : n ≡ suc k = ground arith in
            rw done (ap (λ (x : ℕ). some (fibonacci x % 2 ^ 32)) (sym e))
        | inr more ↦ rw more (fast_loop_lem rounds (suc k) n (ground arith) (omega arith) small)
      ])

fast_fib_lem :
    (rounds n : ℕ) → n ≤ rounds → n + 1 < 2 ^ 31 → fast_fib rounds n ≡ some (fibonacci n % 2 ^ 32)
unfolding fast_fib
fast_fib_lem rounds zero h small = refl
fast_fib_lem rounds (suc n) h small =
    let ne : (suc n == 0) ≡ false = ground arith in
    rw ne (fast_loop_lem rounds 0 (suc n) (omega arith) (omega arith) small)

-- For every argument that is no negative `int` and not the greatest one, at which the counter of the
-- loop overflows, the three functions return the same: the Fibonacci
-- number modulo 2 ^ 32. More rounds, or nested calls, than the argument are enough.
pub fib_agree :
    (fuel n : ℕ)
    → n < fuel
    → n + 1 < 2 ^ 31
    → (fast_fib fuel n ≡ some (fibonacci n % 2 ^ 32))
      × (cursed_fib fuel n ≡ some (fibonacci n % 2 ^ 32))
      × (fib fuel n ≡ some (fibonacci n % 2 ^ 32))
fib_agree fuel n h small = (
  fast_fib_lem fuel n (omega arith) small,
  cursed_fib_lem fuel n h (omega arith),
  fib_lem fuel n h (omega arith),
)

fib-none : (depth n : ℕ) → depth < n → n < 2 ^ 32 → fib depth n ≡ none
unfolding fib
fib-none zero n h small = refl
fib-none (suc depth) n h small =
    let less : sub32 n 1 ≡ n - 1 = unfold sub32 in omega arith in
    let stuck = fib-none depth (n - 1) (omega arith) (omega arith) in
    rw less (rw stuck (ground arith))

-- For a negative `int` the three differ: the loop returns 1, the recursion by order 0, and the one
-- that tests for 0 and 1 goes on through more nested calls than 2 ^ 31.
pub fib_negative :
    (fuel n : ℕ)
    → 2 ^ 31 ≤ n
    → n < 2 ^ 32
    → (fast_fib (suc fuel) n ≡ some 1)
      × (cursed_fib (suc fuel) n ≡ some 0)
      × (fib (2 ^ 31 - 1) n ≡ none)
unfolding fast_fib fast_loop cursed_fib
fib_negative fuel n lo hi = (
  rw (lt_int-negative n 2 lo hi (omega arith)) (ground arith),
  rw (lt_int-negative n 1 lo hi (omega arith)) refl,
  fib-none (2 ^ 31 - 1) n (omega arith) hi,
)
