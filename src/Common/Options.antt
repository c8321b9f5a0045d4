-- ===== src/Common/Options.antt =====
-- Chains of results that may be missing.
use mathlib.Core.Path.{◌≡◌, refl}
use mathlib.Core.Option.{Option, none, some}

abbrev pub and_then {ℓ κ} : {A : Type ℓ} {B : Type κ} → Option A → (A → Option B) → Option B
and_then none k = none
and_then (some a) k = k a

-- Inversion of a chain that has a result.
pub and_then-some {ℓ κ} :
    {A : Type ℓ} {B : Type κ} (o : Option A) (k : A → Option B) {b : B}
    → and_then o k ≡ some b
    → (a : A) × (o ≡ some a) × (k a ≡ some b)
and_then-some none k h = cc
and_then-some (some a) k h = (a, refl, h)
