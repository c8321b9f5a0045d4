-- ===== src/Memory/Compare.antt =====
-- `memcmp` decides the lexicographic order of two ranges.
use rv32_emulator.Common.{
  ℕ, zero, suc, ◌+◌, ◌-◌, ◌^◌, ◌≤◌, ◌<◌, ◌≡◌, refl, ◌⊎◌, inl, inr, arith, add32-eq, ltb, ltb→lt,
  sym, Bool-cases,
}
use rv32_emulator.Memory.{Bytes, compare_loop, memcmp}

-- The two ranges agree below `k`.
abbrev pub SameBelow : (s1 s2 k : ℕ) → Bytes → Type 0
SameBelow s1 s2 k m = (i : ℕ) → i < k → m (s1 + i) ≡ m (s2 + i)

-- The range at `s1` comes before that at `s2`: at the first difference it has the smaller byte.
abbrev pub Before : (s1 s2 n : ℕ) → Bytes → Type 0
Before s1 s2 n m = (k : ℕ) × (k < n) × SameBelow s1 s2 k m × (m (s1 + k) < m (s2 + k))

-- What the result of a comparison of `n` bytes says: -1, 0 or 1 as a word, with its meaning.
abbrev pub Compared : (s1 s2 n : ℕ) → Bytes → ℕ → Type 0
Compared s1 s2 n m r =
    ((r ≡ 2 ^ 32 - 1) × Before s1 s2 n m)
    ⊎ (((r ≡ 0) × SameBelow s1 s2 n m) ⊎ ((r ≡ 1) × Before s2 s1 n m))

below_or_last : (i k : ℕ) → i < k + 1 → (i < k) ⊎ (i ≡ k)
below_or_last i k p = ground arith

SameBelow-suc :
    (s1 s2 k : ℕ) (m : Bytes)
    → SameBelow s1 s2 k m
    → m (s1 + k) ≡ m (s2 + k)
    → SameBelow s1 s2 (k + 1) m
SameBelow-suc s1 s2 k m h e i p = elim (below_or_last i k p) [
  | inl b ↦ h i b
  | inr last ↦ rw last e
]

module _ (s1 s2 : ℕ) (m : Bytes) where
  compare_loop-Compared :
      (left i n : ℕ)
      → i + left ≡ n
      → s1 + n ≤ 2 ^ 32
      → s2 + n ≤ 2 ^ 32
      → SameBelow s1 s2 i m
      → Compared s1 s2 n m (compare_loop left i s1 s2 m)
  unfolding compare_loop
  compare_loop-Compared zero i n e h1 h2 agree = inr (inl (refl, λ j p. agree j (omega arith)))
  compare_loop-Compared (suc left) i n e h1 h2 agree =
      rw (add32-eq s1 i (omega arith), add32-eq s2 i (omega arith))
        (elim (Bool-cases (ltb (m (s1 + i)) (m (s2 + i)))) [
          | inl lo ↦ rw lo (inl (refl, (i, omega arith, agree, ltb→lt _ _ lo)))
          | inr not_lo ↦ elim (Bool-cases (ltb (m (s2 + i)) (m (s1 + i)))) [
            | inl hi ↦
                rw (not_lo, hi)
                  (inr (inr (refl, (i, omega arith, (λ j p. sym (agree j p)), ltb→lt _ _ hi))))
            | inr not_hi ↦
                rw (not_lo, not_hi)
                  (compare_loop-Compared left (i + 1) n (omega arith) h1 h2
                    (SameBelow-suc s1 s2 i m agree (ground arith)))
          ]
        ])

-- `memcmp(s1, s2, n)` is -1, 0 or 1 as a word: -1 exactly where the first difference among the `n`
-- bytes has the smaller byte at `s1`, 0 where all agree, 1 where the smaller byte is at `s2`; the
-- ranges must not wrap.
pub memcmp-Compared :
    (s1 s2 n : ℕ) (m : Bytes)
    → s1 + n ≤ 2 ^ 32
    → s2 + n ≤ 2 ^ 32
    → Compared s1 s2 n m (memcmp s1 s2 n m)
unfolding memcmp
memcmp-Compared s1 s2 n m h1 h2 =
    compare_loop-Compared s1 s2 m n 0 n (omega arith) h1 h2 (λ i p. absurd (omega arith))
