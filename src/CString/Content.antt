-- ===== src/CString/Content.antt =====
-- What it is for memory to hold a terminated string.
use rv32_emulator.Common.{
  ℕ, suc, ◌+◌, ◌^◌, ◌≤◌, ◌<◌, ◌≡◌, ◌≢◌, ◌∙◌, arith, List, [], ◌∷◌, ◌++◌, length,
}
use rv32_emulator.Memory.{Bytes}

-- At `p` stand the characters of `cs`, none of them zero, and a terminator; no address wraps.
abbrev pub Holds : Bytes → ℕ → List ℕ → Type 0
Holds m p [] = (m p ≡ 0) × (p < 2 ^ 32)
Holds m p (c ∷ cs) = (m p ≡ c) × (c ≢ 0) × (p + 1 < 2 ^ 32) × Holds m (p + 1) cs

pub Holds-fits : (m : Bytes) (p : ℕ) (cs : List ℕ) → Holds m p cs → p + length cs < 2 ^ 32
Holds-fits m p [] h = omega arith
Holds-fits m p (c ∷ cs) h = omega (arith, Holds-fits m (p + 1) cs h.3)

-- The string depends on its own bytes only.
pub Holds-ext :
    (m m' : Bytes) (p : ℕ) (cs : List ℕ)
    → ((a : ℕ) → p ≤ a → a ≤ p + length cs → m' a ≡ m a)
    → Holds m p cs
    → Holds m' p cs
Holds-ext m m' p [] same h = (same p (omega arith) (omega arith) ∙ h.0, h.1)
Holds-ext m m' p (c ∷ cs) same h = (
  same p (omega arith) (omega arith) ∙ h.0,
  h.1,
  h.2,
  Holds-ext m m' (p + 1) cs (λ a lo hi. same a (omega arith) (omega arith)) h.3,
)

-- A string behind its first part.
pub Holds-append :
    (m : Bytes) (p : ℕ) (cs ds : List ℕ) → Holds m p (cs ++ ds) → Holds m (p + length cs) ds
Holds-append m p [] ds h = let e : p + 0 ≡ p = omega arith in rw e h
Holds-append m p (c ∷ cs) ds h =
    let e : p + suc (length cs) ≡ p + 1 + length cs = omega arith in
    rw e (Holds-append m (p + 1) cs ds h.3)
