-- ===== src/Standard/Line.antt =====
-- `get_string` returns the line that arrives at the serial port.
use mathlib.Core.List.{append_assoc, append-nil}
use rv32_emulator.Common.{
  ℕ, suc, ◌+◌, ◌-◌, ◌*◌, ◌^◌, ◌<◌, ◌≡◌, ◌≢◌, refl, ◌∙◌, ap, true, false, arith, some, List, [], ◌∷◌,
  ◌++◌, length, length-append, All, ◌==◌,
}
use rv32_emulator.Memory.{Bytes, store8}
use rv32_emulator.Memory.Range.{store8_byte}
use rv32_emulator.Alloc.{Machine, heap_limit, free}
use rv32_emulator.Alloc.Free.{free-data}
use rv32_emulator.CString.Content.{Holds, Holds-ext}
use rv32_emulator.CString.Length.{strlen_lem}
use rv32_emulator.Uart.{Poll, is_idle}
use rv32_emulator.Str.{string_new, string_data}
use rv32_emulator.Str.Owns.{Owns}
use rv32_emulator.Str.Spelled.{Spelled}
use rv32_emulator.Str.Append.{Room, string_append_char-Owns, string_shrink_lem}
use rv32_emulator.Str.Create.{string_new_len-Owns}
use rv32_emulator.Str.Room.{Ready, Clear}
use rv32_emulator.Standard.{read_line, finish_line, get_string}

-- The polls bring the characters of `line` and a newline, with idle polls between; `rest` follows.
pub data Brings : List Poll → (line : List ℕ) → (rest : List Poll) → Type 0 where
  idle :
      {p : Poll} {ps : List Poll} {line : List ℕ} {rest : List Poll}
      → is_idle p ≡ true
      → Brings ps line rest
      → Brings (p ∷ ps) line rest
  char :
      {p : Poll} {ps : List Poll} {line : List ℕ} {rest : List Poll}
      → is_idle p ≡ false
      → (p.received == b'\n') ≡ false
      → p.received < 256
      → Brings ps line rest
      → Brings (p ∷ ps) (p.received ∷ line) rest
  newline :
      {p : Poll} {rest : List Poll}
      → is_idle p ≡ false
      → (p.received == b'\n') ≡ true
      → Brings (p ∷ rest) [] rest

-- Heap enough for `more` further characters behind `n`, with a capacity of `cap`: each block that
-- is outgrown has half the capacity of the next.
abbrev pub Budget : (s : Machine) → (n more cap : ℕ) → Type 0
Budget s n more cap = s.heap_end + 16 * more + 4 * (n + more + 1) + 16 < heap_limit + 2 * cap

Room-Budget :
    (s t : Machine) (n more cap cap' : ℕ)
    → Budget s n (suc more) cap
    → Room s t n cap cap'
    → Budget t (n + 1) more cap'
Room-Budget s t n more cap cap' b room = ground arith

-- Room for the next character, whether or not the object has to grow.
grow_fits :
    (s : Machine) (n more cap : ℕ)
    → Budget s n (suc more) cap
    → n + 1 ≡ cap
    → s.heap_end + (16 + cap * 2) < heap_limit
grow_fits s n more cap b full = omega arith

read_line-Owns :
    {ps : List Poll} {line : List ℕ} {rest : List Poll} (fuel str : ℕ)
    → Brings ps line rest
    → (s : Machine) (d cap : ℕ) (cs : List ℕ) → Owns s str d cap cs
    → Budget s (length cs) (length line + 1) cap
    → (t : Machine) × (d' : ℕ) × (cap' : ℕ) × (read_line (suc (suc fuel)) str ps s ≡ some (rest, t))
      × Owns t str d' cap' (cs ++ line)
      × Budget t (length cs + length line) 1 cap'
unfolding read_line
read_line-Owns fuel str (idle quiet more) s d cap cs own budget =
    let (t, d', cap', run, own', left) = read_line-Owns fuel str more s d cap cs own budget in
    (t, d', cap', rw quiet run, own', left)
read_line-Owns fuel str (newline here ends) s d cap cs own budget =
    (s, d, cap, rw (here, ends) refl, rw append-nil own, omega arith)
read_line-Owns fuel str (char {p} {line = line} here other small more) s d cap cs own budget =
    let c = p.received in
    let (u, d1, cap1, run1, own1, ends, head, room) =
      string_append_char-Owns fuel str c s own small
        (λ full. grow_fits s (length cs) (length line + 1) cap (omega arith) full) in
    let longer : length (cs ++ c ∷ []) ≡ length cs + 1 = length-append cs (c ∷ []) ∙ omega arith in
    let left : Budget u (length (cs ++ c ∷ [])) (length line + 1) cap1 =
      rw longer (Room-Budget s u (length cs) (length line + 1) cap cap1 (omega arith) room) in
    let (t, d', cap', run, own', left') =
      read_line-Owns fuel str more u d1 cap1 (cs ++ c ∷ []) own1 left in
    (
      t,
      d',
      cap',
      rw (here, other) (rw run1 run),
      rw append_assoc at own',
      omega (arith, left', longer),
    )

-- Characters and a zero make a terminated string.
Holds-Spelled :
    (m : Bytes) (p : ℕ) (cs : List ℕ)
    → All (λ c. c ≢ 0) cs
    → p + length cs < 2 ^ 32
    → Spelled m p (cs ++ 0 ∷ [])
    → Holds m p cs
Holds-Spelled m p [] ok fits h = (h.0, omega arith)
Holds-Spelled m p (c ∷ cs) ok fits h =
    (h.0, ok.0, omega arith, Holds-Spelled m (p + 1) cs ok.1 (omega arith) h.1)

finish_line-Holds :
    (fuel str : ℕ) (s : Machine) (d cap : ℕ) (cs : List ℕ)
    → Owns s str d cap cs
    → All (λ c. c ≢ 0) cs
    → Budget s (length cs) 1 cap
    → (t : Machine) × (d' : ℕ) × (finish_line (suc (suc fuel)) str s ≡ some (d', t))
      × Holds t.bytes d' cs
unfolding finish_line string_data
finish_line-Holds fuel str s d cap cs own ok budget =
    let bound = own.live.end_below in
    let (u, d', cap', run, own', ends, head, room) =
      string_append_char-Owns fuel str 0 s own (omega arith)
        (λ full. grow_fits s (length cs) 0 cap (omega arith) full) in
    let shrunk =
      string_shrink_lem (suc (suc fuel)) str s
        (rw (own.at_length) (omega (arith, own.room, own.placed)))
        (rw (own.at_length, own.at_capacity) own.room) in
    let e : str ≡ str - 13 + 13 = omega (arith, own'.str_placed, own'.live.head_above) in
    let freed : free str u ≡ record u { bytes = store8 u.bytes (str - 13 + 9) 1 } =
      ap (λ (q : ℕ). free q u) e
      ∙ free-data (str - 13) u (omega (arith, own'.str_placed, own'.live.head_above))
          (omega (arith, own'.apart, own'.placed, own'.live.end_below)) in
    let longer = length-append cs (0 ∷ []) in
    let held : Holds u.bytes d' cs =
      Holds-Spelled u.bytes d' cs ok
        (omega (arith, own'.placed, own'.room, own'.live.end_below, longer)) own'.spelled in
    (
      free str u,
      d',
      rw shrunk (rw run (rw (own'.at_data))),
      rw freed (
          Holds-ext u.bytes _ d' cs
            (λ a lo hi.
              store8_byte u.bytes (str - 13 + 9) 1 a (omega arith) ∙ ground (arith, own'.apart))
            held),
    )

-- Where the polls bring a line without zero bytes and a newline, and the heap, live or not yet in
-- use, ends at `e` with room for the line, `get_string` returns behind the newline, with a pointer
-- at which the terminated line stands. Idle polls do not matter; two rounds of the walk of `malloc`
-- and of `strlen` are enough. Room is 20 bytes a character and some 100 more.
pub get_string-Holds :
    {ps : List Poll} {line : List ℕ} {rest : List Poll} (fuel empty e : ℕ) (s : Machine)
    → Brings ps line rest
    → All (λ c. c ≢ 0) line
    → Ready s e
    → Holds s.bytes empty []
    → Clear empty 0 e
    → e + 20 * length line + 90 < heap_limit
    → (t : Machine) × (d : ℕ) × (get_string (suc (suc fuel)) empty ps s ≡ some (d, rest, t))
      × Holds t.bytes d line
unfolding get_string string_new
get_string-Holds {line} fuel empty e s brings ok ready blank clear fits =
    let (s1, run1, own1, end1, _, _) =
      string_new_len-Owns fuel empty e s [] ready (omega arith) clear (omega arith) tt in
    let (s2, d2, cap2, run2, own2, left) =
      read_line-Owns fuel (e + 13) brings s1 (e + 41) 1 [] own1 (omega arith) in
    let (t, d, run3, held) =
      finish_line-Holds fuel (e + 13) s2 d2 cap2 line own2 ok (omega arith) in
    (
      t,
      d,
      rw (strlen_lem (suc (suc fuel)) empty s.bytes [] (omega arith) blank)
          (rw run1 (rw run2 (rw run3))),
      held,
    )
