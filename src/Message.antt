-- ===== src/Message.antt =====
-- c_test/global.c: `get_msg` and its static variable.
use rv32_emulator.Common.{ℕ, ◌≡◌, refl, List, [], ◌∷◌, ◌==◌, if◌then◌else◌}
use rv32_emulator.Alloc.{null}

-- The static variable `global_string` before and after, with what is returned.
pub get_msg : (nmsg global_string : ℕ) → ℕ × ℕ
get_msg nmsg global_string = let kept = if nmsg == null then global_string else nmsg in (kept, kept)

-- The results of a row of calls, from a value of the variable on.
pub get_msgs : List ℕ → (global_string : ℕ) → List ℕ
unfolding get_msg
get_msgs [] g = []
get_msgs (n ∷ ns) g = let (r, g') = get_msg n g in r ∷ get_msgs ns g'

-- The last pointer of a list that is not NULL, or `g`.
abbrev pub last_given : List ℕ → ℕ → ℕ
last_given [] g = g
last_given (n ∷ ns) g = last_given ns (if n == null then g else n)

abbrev pub last_of : List ℕ → ℕ → ℕ
last_of [] g = g
last_of (r ∷ rs) g = last_of rs r

-- After any row of calls the last result is the last pointer that was given and not NULL, or the
-- initial message if there was none.
pub get_msgs-last_given : (ns : List ℕ) (g : ℕ) → last_of (get_msgs ns g) g ≡ last_given ns g
unfolding get_msgs
get_msgs-last_given [] g = refl
get_msgs-last_given (n ∷ ns) g = get_msgs-last_given ns (if n == null then g else n)
