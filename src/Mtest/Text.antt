-- ===== src/Mtest/Text.antt =====
-- The texts of the literals of `main` of mtest.c.
use rv32_emulator.Common.{ℕ, List, [], ◌∷◌}

abbrev pub hey_there : List ℕ
hey_there = b'h' ∷ b'e' ∷ b'y' ∷ b' ' ∷ b't' ∷ b'h' ∷ b'e' ∷ b'r' ∷ b'e' ∷ b'!' ∷ []

abbrev pub hey_where : List ℕ
hey_where = b'h' ∷ b'e' ∷ b'y' ∷ b' ' ∷ b'w' ∷ b'h' ∷ b'e' ∷ b'r' ∷ b'e' ∷ b'!' ∷ []

abbrev pub doom : List ℕ
doom =
    b'i' ∷ b's' ∷ b'n' ∷ b'\'' ∷ b't' ∷ b' ' ∷ b'd' ∷ b'o' ∷ b'o' ∷ b'm' ∷ b' ' ∷ b'g' ∷ b'r' ∷ b'e'
    ∷ b'a' ∷ b't' ∷ b'?' ∷ []

abbrev pub test_text : List ℕ
test_text =
    b't' ∷ b'h' ∷ b'i' ∷ b's' ∷ b' ' ∷ b'i' ∷ b's' ∷ b' ' ∷ b'a' ∷ b' ' ∷ b't' ∷ b'e' ∷ b's' ∷ b't'
    ∷ []

abbrev pub have_you : List ℕ
have_you = b'h' ∷ b'a' ∷ b'v' ∷ b'e' ∷ b' ' ∷ b'y' ∷ b'o' ∷ b'u' ∷ []

abbrev pub prayed_today : List ℕ
prayed_today =
    b'p' ∷ b'r' ∷ b'a' ∷ b'y' ∷ b'e' ∷ b'd' ∷ b' ' ∷ b't' ∷ b'o' ∷ b'd' ∷ b'a' ∷ b'y' ∷ b'?' ∷ []

abbrev pub batman : List ℕ
batman =
    b' ' ∷ b'I' ∷ b' ' ∷ b'A' ∷ b'M' ∷ b' ' ∷ b'B' ∷ b'A' ∷ b'T' ∷ b'M' ∷ b'A' ∷ b'N' ∷ b'!' ∷ []
