-- ===== src/CString/Search.antt =====
-- `strstr` compares the needle with the rest of the haystack up to its end.
use rv32_emulator.Common.{
  ℕ, zero, suc, ◌+◌, ◌<◌, ◌≡◌, ◌≢◌, refl, ◌∙◌, sym, ap, ◌⊎◌, inl, inr, arith, add32-eq, Bool-cases,
  true, some, is_negative, List, [], ◌∷◌, ◌++◌, length, ◌==◌,
}
use rv32_emulator.Memory.{Bytes}
use rv32_emulator.Memory.Range.{IsBytes}
use rv32_emulator.Alloc.{null}
use rv32_emulator.CString.{strstr_loop, strstr}
use rv32_emulator.CString.Content.{Holds}
use rv32_emulator.CString.Length.{Less, shorter, smaller, later, Ordered, strcmp-Ordered}

Less-irrefl : {cs ds : List ℕ} → Less cs ds → cs ≢ ds
Less-irrefl shorter e = cc
Less-irrefl (smaller {c} {d} lt) e = let same : c ≡ d = cc in absurd (omega arith)
Less-irrefl (later {cs} {ds} eq less) e = let same : cs ≡ ds = cc in Less-irrefl less same

Ordered-zero : (cs ds : List ℕ) (r : ℕ) → Ordered cs ds r → (r ≡ 0 → cs ≡ ds) × (r ≢ 0 → cs ≢ ds)
Ordered-zero cs ds r (inl (less, neg)) =
    ((λ z. absurd (let e : is_negative 0 ≡ true = rw z at neg in cc)), λ ne. Less-irrefl less)
Ordered-zero cs ds r (inr (inl (same, z))) = ((λ _. same), λ ne. absurd (ne z))
Ordered-zero cs ds r (inr (inr (less, _, ne))) =
    ((λ z. absurd (ne z)), λ _ e. Less-irrefl less (sym e))

-- `p` is where the string `cs` at `s` has `ns` for the whole of its rest, or NULL.
abbrev pub AtEnd : (s : ℕ) → (cs ns : List ℕ) → ℕ → Type 0
AtEnd s cs ns p =
    ((p ≡ null) × ((front back : List ℕ) → cs ≡ front ++ back → back ≢ [] → back ≢ ns))
    ⊎ ((front : List ℕ) × (cs ≡ front ++ ns) × (ns ≢ []) × (p ≡ s + length front))

AtEnd-cons :
    (s c : ℕ) (cs ns : List ℕ) (p : ℕ)
    → (c ∷ cs) ≢ ns
    → AtEnd (s + 1) cs ns p
    → AtEnd s (c ∷ cs) ns p
AtEnd-cons s c cs ns p ne (inl (z, nowhere)) = inl (z, split)
  where
    split : (front back : List ℕ) → (c ∷ cs) ≡ front ++ back → back ≢ [] → back ≢ ns
    split [] back e full = rw (← e) ne
    split (d ∷ front) back e full =
        let rest : cs ≡ front ++ back = cc in nowhere front back rest full
AtEnd-cons s c cs ns p ne (inr (front, e, full, at)) =
    inr (c ∷ front, ap (λ (l : List ℕ). c ∷ l) e, full, omega arith)

strstr_loop-AtEnd :
    (fuel rounds haystack needle : ℕ) (m : Bytes) (cs ns : List ℕ)
    → IsBytes m
    → length cs < fuel
    → length cs < rounds
    → Holds m haystack cs
    → Holds m needle ns
    → (p : ℕ) × (strstr_loop fuel rounds haystack needle m ≡ some p) × AtEnd haystack cs ns p
unfolding strstr_loop
strstr_loop-AtEnd fuel zero s n m cs ns bytes enough more h k = elim more [ ]
strstr_loop-AtEnd fuel (suc rounds) s n m [] ns bytes enough more h k =
    (null, ground arith, inl (refl, split))
  where
    split : (front back : List ℕ) → [] ≡ front ++ back → back ≢ [] → back ≢ ns
    split [] back e full = absurd (full (sym e))
    split (d ∷ front) back e full = cc
strstr_loop-AtEnd fuel (suc rounds) s n m (c ∷ cs) ns bytes enough more h k =
    let (r, run, ord) = strcmp-Ordered fuel s n m (c ∷ cs) ns bytes enough h k in
    let (p, rest, found) =
      strstr_loop-AtEnd fuel rounds (s + 1) n m cs ns bytes (omega arith) (omega arith) h.3 k in
    rw (add32-eq s 1 h.2, run)
      (elim (Bool-cases (r == 0)) [
        | inl hit ↦ (
          s,
          ground (arith, hit),
          inr (
            [],
            (Ordered-zero (c ∷ cs) ns r ord).0 (ground arith),
            (λ e. whole (Ordered-zero (c ∷ cs) ns r ord) (ground arith) e),
            omega arith,
          ),
        )
        | inr miss ↦ (
          p,
          ground (arith, miss, rest),
          AtEnd-cons s c cs ns p ((Ordered-zero (c ∷ cs) ns r ord).1 (ground arith)) found,
        )
      ])
  where
    whole : {r : ℕ} → (r ≡ 0 → (c ∷ cs) ≡ ns) × (r ≢ 0 → (c ∷ cs) ≢ ns) → r ≡ 0 → ns ≢ []
    whole w z e = let same : (c ∷ cs) ≡ [] = w.0 z ∙ e in cc

-- `strstr` returns the place in the haystack from which on the needle is the whole of the rest, and
-- NULL if the needle is no non-empty end of the haystack: an occurrence of the needle with anything
-- behind it is not found. Fuel for one round more than the haystack has characters is enough.
pub strstr-AtEnd :
    (fuel haystack needle : ℕ) (m : Bytes) (cs ns : List ℕ)
    → IsBytes m
    → length cs < fuel
    → Holds m haystack cs
    → Holds m needle ns
    → (p : ℕ) × (strstr fuel haystack needle m ≡ some p) × AtEnd haystack cs ns p
unfolding strstr
strstr-AtEnd fuel haystack needle m cs ns bytes enough h k =
    strstr_loop-AtEnd fuel fuel haystack needle m cs ns bytes enough enough h k
