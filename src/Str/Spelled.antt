-- ===== src/Str/Spelled.antt =====
-- Rows of characters in memory, without a terminator.
use rv32_emulator.Common.{ℕ, suc, ◌+◌, ◌<◌, ◌≡◌, ◌∙◌, arith, List, [], ◌∷◌, ◌++◌, length}
use rv32_emulator.Memory.{Bytes}
use rv32_emulator.Str.Fields.{SameOn}

-- From `p` on stand the characters of `cs`.
abbrev pub Spelled : Bytes → ℕ → List ℕ → Type 0
Spelled m p [] = Unit {0}
Spelled m p (c ∷ cs) = (m p ≡ c) × Spelled m (p + 1) cs

pub Spelled-ext :
    (m m' : Bytes) (p : ℕ) (cs : List ℕ)
    → SameOn p (p + length cs) m m'
    → Spelled m p cs
    → Spelled m' p cs
Spelled-ext m m' p [] same h = tt
Spelled-ext m m' p (c ∷ cs) same h = (
  same p (omega arith) (omega arith) ∙ h.0,
  Spelled-ext m m' (p + 1) cs (λ a lo hi. same a (omega arith) (omega arith)) h.1,
)

pub Spelled-append :
    (m : Bytes) (p : ℕ) (cs ds : List ℕ)
    → Spelled m p cs
    → Spelled m (p + length cs) ds
    → Spelled m p (cs ++ ds)
Spelled-append m p [] ds h k = let e : p + 0 ≡ p = omega arith in rw e at k
Spelled-append m p (c ∷ cs) ds h k =
    let e : p + suc (length cs) ≡ p + 1 + length cs = omega arith in
    (h.0, Spelled-append m (p + 1) cs ds h.1 (rw e at k))

-- The same characters at another place.
pub Spelled-shift :
    (q r : ℕ) (ds : List ℕ) (m m' : Bytes)
    → ((i : ℕ) → i < length ds → m' (r + i) ≡ m (q + i))
    → Spelled m q ds
    → Spelled m' r ds
Spelled-shift q r [] m m' same h = tt
Spelled-shift q r (c ∷ ds) m m' same h =
    let e : r + 0 ≡ r = omega arith in
    let e' : q + 0 ≡ q = omega arith in
    let first : m' r ≡ m q = rw (e, e') at (same 0 (omega arith)) in
    (
      first ∙ h.0,
      Spelled-shift (q + 1) (r + 1) ds m m'
          (λ i lt.
            let f : r + 1 + i ≡ r + (i + 1) = omega arith in
            let f' : q + 1 + i ≡ q + (i + 1) = omega arith in
            rw (f, f') (same (i + 1) (omega arith)))
          h.1,
    )
