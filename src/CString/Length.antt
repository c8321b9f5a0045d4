-- ===== src/CString/Length.antt =====
-- `strlen`, `strcmp` and `strchr` against lists of characters.
use rv32_emulator.Common.{
  ℕ, zero, suc, ◌+◌, ◌-◌, ◌^◌, ◌<◌, ◌≡◌, ◌≢◌, refl, ◌∙◌, sym, ap, ◌⊎◌, inl, inr, arith, sub32,
  add32-eq, true, false, Bool-cases, ltb, ltb→lt, is_negative, some, List, [], ◌∷◌, ◌++◌, length,
  All, ◌==◌,
}
use rv32_emulator.Memory.{Bytes}
use rv32_emulator.Memory.Range.{IsBytes}
use rv32_emulator.Alloc.{null}
use rv32_emulator.CString.{strlen_loop, strlen, strcmp, strchr}
use rv32_emulator.CString.Content.{Holds}

strlen_loop_lem :
    (fuel i str : ℕ) (m : Bytes) (cs : List ℕ)
    → length cs < fuel
    → Holds m (str + i) cs
    → strlen_loop fuel i str m ≡ some (i + length cs)
unfolding strlen_loop
strlen_loop_lem zero i str m cs enough h = elim enough [ ]
strlen_loop_lem (suc fuel) i str m [] enough h = rw (add32-eq str i h.1) (ground arith)
strlen_loop_lem (suc fuel) i str m (c ∷ cs) enough h =
    let there : str + i + 1 ≡ str + (i + 1) = omega arith in
    let rest = strlen_loop_lem fuel (i + 1) str m cs (omega arith) (rw there at h.3) in
    rw (add32-eq str i (omega arith), add32-eq i 1 (omega arith)) (ground (arith, rest))

-- `strlen` of a string is its number of characters; one round more than that is enough.
pub strlen_lem :
    (fuel str : ℕ) (m : Bytes) (cs : List ℕ)
    → length cs < fuel
    → Holds m str cs
    → strlen fuel str m ≡ some (length cs)
unfolding strlen
strlen_lem fuel str m cs enough h =
    let e : str ≡ str + 0 = omega arith in
    strlen_loop_lem fuel 0 str m cs enough (rw e at h) ∙ ap some (omega arith)

-- The lexicographic order, by the characters as unsigned bytes.
pub data Less : List ℕ → List ℕ → Type 0 where
  shorter : {d : ℕ} {ds : List ℕ} → Less [] (d ∷ ds)
  smaller : {c d : ℕ} {cs ds : List ℕ} → c < d → Less (c ∷ cs) (d ∷ ds)
  later : {c d : ℕ} {cs ds : List ℕ} → c ≡ d → Less cs ds → Less (c ∷ cs) (d ∷ ds)

-- What the sign of the result says.
abbrev pub Ordered : List ℕ → List ℕ → ℕ → Type 0
Ordered cs ds r =
    (Less cs ds × (is_negative r ≡ true))
    ⊎ (((cs ≡ ds) × (r ≡ 0)) ⊎ (Less ds cs × (is_negative r ≡ false) × (r ≢ 0)))

Ordered-cons :
    (c d : ℕ) (cs ds : List ℕ) (r : ℕ) → c ≡ d → Ordered cs ds r → Ordered (c ∷ cs) (d ∷ ds) r
Ordered-cons c d cs ds r e (inl (l, neg)) = inl (later e l, neg)
Ordered-cons c d cs ds r e (inr (inl (same, z))) = inr (inl (cc, z))
Ordered-cons c d cs ds r e (inr (inr (l, pos, ne))) = inr (inr (later (sym e) l, pos, ne))

-- Of two strings of bytes, `strcmp` returns a negative number if the first comes before the second
-- in lexicographic order, zero if they are equal, and a positive number otherwise; one round more
-- than the first string has characters is enough.
pub strcmp-Ordered :
    (fuel s1 s2 : ℕ) (m : Bytes) (cs ds : List ℕ)
    → IsBytes m
    → length cs < fuel
    → Holds m s1 cs
    → Holds m s2 ds
    → (r : ℕ) × (strcmp fuel s1 s2 m ≡ some r) × Ordered cs ds r
unfolding strcmp sub32
strcmp-Ordered zero s1 s2 m cs ds bytes enough h k = elim enough [ ]
strcmp-Ordered (suc fuel) s1 s2 m [] [] bytes enough h k = (0, ground arith, inr (inl (refl, refl)))
strcmp-Ordered (suc fuel) s1 s2 m [] (d ∷ ds) bytes enough h k =
    (2 ^ 32 - d, ground (arith, bytes s2), inl (shorter, ground (arith, bytes s2)))
strcmp-Ordered (suc fuel) s1 s2 m (c ∷ cs) [] bytes enough h k =
    (c, ground (arith, bytes s1), inr (inr (shorter, ground (arith, bytes s1), h.1)))
strcmp-Ordered (suc fuel) s1 s2 m (c ∷ cs) (d ∷ ds) bytes enough h k = elim (Bool-cases (c == d)) [
  | inl same ↦
      let (r, run, ord) =
        strcmp-Ordered fuel (s1 + 1) (s2 + 1) m cs ds bytes (omega arith) h.3 k.3 in
      (
        r,
        rw (add32-eq s1 1 h.2, add32-eq s2 1 k.2) (ground (arith, run)),
        Ordered-cons c d cs ds r (ground arith) ord,
      )
  | inr differ ↦ elim (Bool-cases (ltb c d)) [
    | inl lo ↦ (
      2 ^ 32 + c - d,
      ground (arith, bytes s1, bytes s2),
      inl (smaller (ltb→lt c d lo), ground (arith, bytes s1, bytes s2)),
    )
    | inr hi ↦ (
      c - d,
      ground (arith, bytes s1, bytes s2),
      inr (inr (smaller (ground arith), ground (arith, bytes s1, bytes s2), ground arith)),
    )
  ]
]

-- `p` is where the first `c` of the string at `s` stands, or NULL if there is none.
abbrev pub FirstAt : (s c : ℕ) → List ℕ → ℕ → Type 0
FirstAt s c cs p =
    ((p ≡ null) × All (λ d. d ≢ c) cs)
    ⊎ ((front : List ℕ) × (back : List ℕ) × (cs ≡ front ++ (c ∷ back))
        × All (λ d. d ≢ c) front
        × (p ≡ s + length front))

FirstAt-cons :
    (s c d : ℕ) (cs : List ℕ) (p : ℕ) → d ≢ c → FirstAt (s + 1) c cs p → FirstAt s c (d ∷ cs) p
FirstAt-cons s c d cs p ne (inl (z, nowhere)) = inl (z, (ne, nowhere))
FirstAt-cons s c d cs p ne (inr (front, back, e, clear, at)) =
    inr (d ∷ front, back, ap (λ (l : List ℕ). d ∷ l) e, (ne, clear), omega arith)

-- `strchr(s, c)` returns the place of the first character equal to `c`, and NULL if the string has
-- none: so also for the terminator, which is never found. One round more than the string has
-- characters is enough.
pub strchr-FirstAt :
    (fuel s c : ℕ) (m : Bytes) (cs : List ℕ)
    → length cs < fuel
    → Holds m s cs
    → (p : ℕ) × (strchr fuel s c m ≡ some p) × FirstAt s c cs p
unfolding strchr
strchr-FirstAt zero s c m cs enough h = elim enough [ ]
strchr-FirstAt (suc fuel) s c m [] enough h = (null, ground arith, inl (refl, tt))
strchr-FirstAt (suc fuel) s c m (d ∷ cs) enough h = elim (Bool-cases (d == c)) [
  | inl hit ↦
      (s, ground arith, inr ([], cs, ap (λ (x : ℕ). x ∷ cs) (ground arith), tt, omega arith))
  | inr miss ↦
      let (p, run, first) = strchr-FirstAt fuel (s + 1) c m cs (omega arith) h.3 in
      (p, rw (add32-eq s 1 h.2) (ground (arith, run)), FirstAt-cons s c d cs p (ground arith) first)
]
