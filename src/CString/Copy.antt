-- ===== src/CString/Copy.antt =====
-- `strcpy` and `strcat` between strings that do not overlap.
use rv32_emulator.Common.{
  ℕ, zero, suc, ◌+◌, ◌^◌, ◌<◌, ◌≡◌, refl, ◌∙◌, ◌⊎◌, inl, arith, add32-eq, some, List, [], ◌∷◌, ◌++◌,
  length,
}
use rv32_emulator.Memory.{Bytes, store8}
use rv32_emulator.Memory.Range.{IsBytes, store8-IsBytes, store8_byte}
use rv32_emulator.CString.{copy_string, strcpy, skip_string, strcat}
use rv32_emulator.CString.Content.{Holds, Holds-ext}

-- The string at `src` and the room that its copy takes at `d` have no byte in common.
abbrev pub Apart : (d src n : ℕ) → Type 0
Apart d src n = (src + n < d) ⊎ (d + n < src)

-- The copy stands at `d`, and no byte outside it has changed.
abbrev pub Copied : (d : ℕ) → List ℕ → Bytes → Bytes → Type 0
Copied d cs m m' = Holds m' d cs × ((a : ℕ) → (a < d) ⊎ (d + length cs < a) → m' a ≡ m a)

copy_string-Copied :
    (fuel d src : ℕ) (m : Bytes) (cs : List ℕ)
    → IsBytes m
    → length cs < fuel
    → d + length cs < 2 ^ 32
    → Apart d src (length cs)
    → Holds m src cs
    → (m' : Bytes) × (copy_string fuel d src m ≡ some m') × Copied d cs m m'
unfolding copy_string
copy_string-Copied zero d src m cs bytes enough room apart h = elim enough [ ]
copy_string-Copied (suc fuel) d src m [] bytes enough room apart h = (
  store8 m d 0,
  ground arith,
  (
    (store8_byte m d 0 d (omega arith) ∙ ground arith, omega arith),
    λ a out. store8_byte m d 0 a (omega arith) ∙ ground arith,
  ),
)
copy_string-Copied (suc fuel) d src m (c ∷ cs) bytes enough room apart h =
    let small : c < 256 = omega (arith, bytes src) in
    let m1 = store8 m d c in
    let there =
      Holds-ext m m1 (src + 1) cs (λ a lo hi. store8_byte m d c a small ∙ ground arith) h.3 in
    let (m', run, (held, kept)) =
      copy_string-Copied fuel (d + 1) (src + 1) m1 cs (store8-IsBytes m d c bytes) (omega arith)
        (omega arith) (omega arith) there in
    (
      m',
      rw (add32-eq src 1 h.2, add32-eq d 1 (omega arith), h.0) (ground (arith, run)),
      (
        (kept d (omega arith) ∙ store8_byte m d c d small ∙ ground arith, h.1, omega arith, held),
        λ a out. kept a (omega arith) ∙ store8_byte m d c a small ∙ ground arith,
      ),
    )

-- `strcpy(dest, src)` returns `dest`, where the string and its terminator then stand, and changes
-- no other byte, if the two places do not overlap; one round more than the string has characters is
-- enough.
pub strcpy-Copied :
    (fuel dest src : ℕ) (m : Bytes) (cs : List ℕ)
    → IsBytes m
    → length cs < fuel
    → dest + length cs < 2 ^ 32
    → Apart dest src (length cs)
    → Holds m src cs
    → (m' : Bytes) × (strcpy fuel dest src m ≡ some (dest, m')) × Copied dest cs m m'
unfolding strcpy
strcpy-Copied fuel dest src m cs bytes enough room apart h =
    let (m', run, done) = copy_string-Copied fuel dest src m cs bytes enough room apart h in
    (m', rw run, done)

skip_string_lem :
    (fuel d : ℕ) (m : Bytes) (ds : List ℕ)
    → length ds < fuel
    → Holds m d ds
    → skip_string fuel d m ≡ some (d + length ds)
unfolding skip_string
skip_string_lem zero d m ds enough h = elim enough [ ]
skip_string_lem (suc fuel) d m [] enough h = ground arith
skip_string_lem (suc fuel) d m (c ∷ ds) enough h =
    rw (add32-eq d 1 h.2) (ground (arith, skip_string_lem fuel (d + 1) m ds (omega arith) h.3))

-- A string in front of another one, in a memory that kept the first part.
Holds-join :
    (m m' : Bytes) (d : ℕ) (ds cs : List ℕ)
    → Holds m d ds
    → ((a : ℕ) → a < d + length ds → m' a ≡ m a)
    → Holds m' (d + length ds) cs
    → Holds m' d (ds ++ cs)
Holds-join m m' d [] cs h kept k = let e : d + 0 ≡ d = omega arith in rw e at k
Holds-join m m' d (c ∷ ds) cs h kept k =
    let e : d + suc (length ds) ≡ d + 1 + length ds = omega arith in
    (
      kept d (omega arith) ∙ h.0,
      h.1,
      h.2,
      Holds-join m m' (d + 1) ds cs h.3 (λ a lt. kept a (omega arith)) (rw e at k),
    )

-- `strcat(dest, src)` returns `dest`, where the old string followed by the one at `src` then
-- stands, and changes no byte but those behind the old string, if what it appends does not overlap
-- its source; one round more than the longer string has characters is enough.
pub strcat_lem :
    (fuel dest src : ℕ) (m : Bytes) (ds cs : List ℕ)
    → IsBytes m
    → length ds < fuel
    → length cs < fuel
    → dest + length ds + length cs < 2 ^ 32
    → Apart (dest + length ds) src (length cs)
    → Holds m dest ds
    → Holds m src cs
    → (m' : Bytes) × (strcat fuel dest src m ≡ some (dest, m'))
      × Holds m' dest (ds ++ cs)
      × ((a : ℕ) → (a < dest + length ds) ⊎ (dest + length ds + length cs < a) → m' a ≡ m a)
unfolding strcat
strcat_lem fuel dest src m ds cs bytes enough enough' room apart h k =
    let (m', run, (held, kept)) =
      copy_string-Copied fuel (dest + length ds) src m cs bytes enough' room apart k in
    (
      m',
      rw (skip_string_lem fuel dest m ds enough h) (rw run refl),
      Holds-join m m' dest ds cs h (λ a lt. kept a (inl lt)) held,
      kept,
    )
