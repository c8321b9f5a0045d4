-- ===== src/Output/Written.antt =====
-- What reaches the serial port.
use mathlib.Core.List.{append_assoc, append-nil}
use rv32_emulator.Common.{
  ℕ, zero, suc, ◌+◌, ◌<◌, ◌≡◌, refl, arith, add32-eq, some, List, [], ◌∷◌, ◌++◌, length, u8,
}
use rv32_emulator.Memory.{Bytes}
use rv32_emulator.Memory.Range.{IsBytes}
use rv32_emulator.CString.Content.{Holds}
use rv32_emulator.Output.{Serial, put_character, put_string, puts, fputs}

put_string_lem :
    (fuel s : ℕ) (m : Bytes) (out : Serial) (cs : List ℕ)
    → IsBytes m
    → length cs < fuel
    → Holds m s cs
    → put_string fuel s m out ≡ some (out ++ cs)
unfolding put_string put_character
put_string_lem zero s m out cs bytes enough h = elim enough [ ]
put_string_lem (suc fuel) s m out [] bytes enough h = rw append-nil (ground arith)
put_string_lem (suc fuel) s m out (c ∷ cs) bytes enough h =
    let byte : u8 (m s) ≡ c = omega (arith, bytes s, h.0) in
    let rest = put_string_lem fuel (s + 1) m (out ++ c ∷ []) cs bytes (omega arith) h.3 in
    rw (add32-eq s 1 h.2, byte) (rw rest (rw append_assoc (ground arith)))

-- `puts` of a string writes its characters and a newline behind what was written before, and `fputs`
-- its characters alone, to whatever stream; both return 0. One round more than the characters is
-- enough.
pub puts-fputs :
    (fuel s stream : ℕ) (m : Bytes) (out : Serial) (cs : List ℕ)
    → IsBytes m
    → length cs < fuel
    → Holds m s cs
    → (puts fuel s m out ≡ some (0, out ++ (cs ++ b'\n' ∷ [])))
      × (fputs fuel s stream m out ≡ some (0, out ++ cs))
unfolding puts fputs put_character
puts-fputs fuel s stream m out cs bytes enough h = (
  rw (put_string_lem fuel s m out cs bytes enough h) (rw append_assoc refl),
  rw (put_string_lem fuel s m out cs bytes enough h) refl,
)
