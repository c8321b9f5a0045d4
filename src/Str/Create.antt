-- ===== src/Str/Create.antt =====
-- `string_new_len` on a heap with room.
use rv32_emulator.Common.{
  ℕ, suc, ◌+◌, ◌-◌, ◌^◌, ◌≤◌, ◌<◌, ◌≡◌, refl, ◌∙◌, sym, ap, ◌⊎◌, inl, false, arith, add32-eq, some,
  List, length, ◌==◌, if◌then◌else◌,
}
use rv32_emulator.Memory.Range.{IsBytes, within}
use rv32_emulator.Memory.Copy.{memcpy_lem}
use rv32_emulator.Memory.Word.{store32-IsBytes}
use rv32_emulator.Alloc.{Machine, null, heap_limit, malloc}
use rv32_emulator.Alloc.Frame.{SameFrom}
use rv32_emulator.Alloc.Live.{IsLive}
use rv32_emulator.Str.{
  sizeof_string, data_of, set_data, set_length, set_capacity, copy_bytes, fill_new, string_new_len,
}
use rv32_emulator.Str.Fields.{
  Inside, data_of_ext, length_of_ext, set_data-outside, set_length-outside, set_capacity-outside,
  data_of-set_data, length_of-set_length, capacity_of-set_capacity,
}
use rv32_emulator.Str.Owns.{Owns, IsLive-ext}
use rv32_emulator.Str.Spelled.{Spelled, Spelled-ext, Spelled-shift}
use rv32_emulator.Str.Room.{Ready, Grown, malloc-Grown, Clear}

module _ (s : Machine) (str d n source : ℕ) (live : IsLive s)
    (placed : (str ≡ s.mem_head + 13) ⊎ (s.mem_head + 29 ≤ str)) (at : str + 28 ≡ d)
    (end_at : s.heap_end ≡ d + n + 4) (clear : (source + n + 13 ≤ str) ⊎ (d + n + 4 ≤ source))
    (source_fits : source + n ≤ 2 ^ 32) where
  inside : Inside str
  inside = omega (arith, live.end_below)

  abbrev linked : Machine
  linked = set_data str d s

  abbrev filled : Machine
  filled = copy_bytes d source n linked

  abbrev final : Machine
  final = set_capacity str (n + 1) (set_length str n filled)

  linked-IsBytes : IsBytes linked.bytes
  unfolding set_data
  linked-IsBytes = store32-IsBytes s.bytes str d live.are_bytes

  filled-at :
      (a : ℕ)
      → filled.bytes a ≡ (if within d n a then linked.bytes (source + (a - d)) else linked.bytes a)
  filled-at a =
      (memcpy_lem d source n linked.bytes linked-IsBytes (omega (arith, live.end_below)) source_fits
          (omega arith)).1
        a

  data_of-linked : data_of linked.bytes str ≡ d
  data_of-linked = data_of-set_data str inside d s (omega (arith, live.end_below))

  fill_new-eq : fill_new str d source n s ≡ (str, final)
  unfolding fill_new
  fill_new-eq = rw data_of-linked (rw (add32-eq n 1 (omega (arith, live.end_below))) (ground arith))

  final-at : (a : ℕ) → (a < str + 4) ⊎ (str + 12 ≤ a) → final.bytes a ≡ filled.bytes a
  final-at a out =
      set_capacity-outside str inside (n + 1) _ a (omega arith)
      ∙ set_length-outside str inside n filled a (omega arith)

  final-IsLive : IsLive final
  unfolding set_data set_length set_capacity
  final-IsLive =
      IsLive-ext s final live refl refl
        (store32-IsBytes _ _ _ (store32-IsBytes _ _ _ filled-IsBytes))
        (λ a lo hi.
          final-at a (omega (arith, placed))
          ∙ filled-at a
          ∙ ground (arith, placed)
          ∙ set_data-outside str inside d s a (omega (arith, placed)))
    where
      filled-IsBytes : IsBytes filled.bytes
      filled-IsBytes a =
          rw (filled-at a) (ground (arith, linked-IsBytes a, linked-IsBytes (source + (a - d))))

  pub fill_new-Owns :
      (cs : List ℕ)
      → length cs ≡ n
      → Spelled s.bytes source cs
      → Owns (fill_new str d source n s).1 str d (n + 1) cs
  unfolding set_data set_length set_capacity
  fill_new-Owns cs count spelled = rw fill_new-eq (record {
    live = final-IsLive;
    str_placed = placed;
    apart = omega arith;
    placed = omega arith;
    room = omega arith;
    at_data =
        data_of_ext str inside linked.bytes final.bytes
          (λ a lo hi. final-at a (omega arith) ∙ filled-at a ∙ ground arith)
        ∙ data_of-linked;
    at_length =
        length_of_ext str inside (set_length str n filled).bytes final.bytes (λ a lo hi.
          set_capacity-outside str inside (n + 1) (set_length str n filled) a (omega arith))
        ∙ length_of-set_length str inside n filled (omega (arith, live.end_below))
        ∙ sym count;
    at_capacity =
        capacity_of-set_capacity str inside (n + 1) (set_length str n filled)
          (omega (arith, live.end_below));
    spelled = Spelled-shift source d cs s.bytes final.bytes moved spelled;
  })
    where
      source_byte :
          (i : ℕ)
          → i < length cs
          → (if within d n (d + i)
              then linked.bytes (source + (d + i - d))
              else linked.bytes (d + i))
            ≡ linked.bytes (source + i)
      source_byte i lt = let e : d + i - d ≡ i = omega arith in rw e (ground arith)

      moved : (i : ℕ) → i < length cs → final.bytes (d + i) ≡ s.bytes (source + i)
      moved i lt =
          final-at (d + i) (omega arith)
          ∙ filled-at (d + i)
          ∙ source_byte i lt
          ∙ set_data-outside str inside d s (source + i) (omega arith)

  -- Nothing is written but the fields and the characters.
  pub fill_new-kept :
      (a : ℕ) → (a < str) ⊎ (d + n ≤ a) → (fill_new str d source n s).1.bytes a ≡ s.bytes a
  fill_new-kept a out = rw fill_new-eq (
      final-at a (omega arith)
      ∙ filled-at a
      ∙ ground arith
      ∙ set_data-outside str inside d s a (omega arith))

  pub fill_new-str : fill_new str d source n s ≡ (str, (fill_new str d source n s).1)
  fill_new-str = rw fill_new-eq

  pub fill_new-heap_end : (fill_new str d source n s).1.heap_end ≡ s.heap_end
  unfolding set_data set_length set_capacity
  fill_new-heap_end = rw fill_new-eq

  pub fill_new-mem_head : (fill_new str d source n s).1.mem_head ≡ s.mem_head
  unfolding set_data set_length set_capacity
  fill_new-mem_head = rw fill_new-eq

new_len_run :
    (fuel source n e : ℕ) (s s1 s2 : Machine)
    → n + 1 < 2 ^ 32
    → malloc fuel sizeof_string s ≡ some (e + 13, s1)
    → malloc fuel (n + 1) s1 ≡ some (e + 28 + 13, s2)
    → string_new_len fuel source n s ≡ some (fill_new (e + 13) (e + 41) source n s2)
unfolding string_new_len
new_len_run fuel source n e s s1 s2 small run1 run2 =
    let at : e + 28 + 13 ≡ e + 41 = omega arith in
    let not_null : (e + 13 == null) ≡ false = ground arith in
    rw run1 (rw (not_null, add32-eq n 1 small) (rw run2 (rw at)))

-- The second block lies behind the first.
Grown-twice :
    (s s1 s2 : Machine) (e n : ℕ)
    → Grown s s1 e sizeof_string
    → Grown s1 s2 (e + 28) n
    → ((e + 13 ≡ s2.mem_head + 13) ⊎ (s2.mem_head + 29 ≤ e + 13))
      × ((a : ℕ) → (a < e) ⊎ (e + 41 ≤ a) → s2.bytes a ≡ s.bytes a)
Grown-twice s s1 s2 e n one two = (
  rw (two.same_head one.live) one.placed,
  λ a out. two.kept a (omega arith) ∙ one.kept a (omega arith),
)

new_len_Owns :
    (fuel source e : ℕ) (s s1 s2 : Machine) (cs : List ℕ)
    → e + (45 + length cs) < heap_limit
    → Clear source (length cs) e
    → source + length cs ≤ 2 ^ 32
    → Spelled s.bytes source cs
    → malloc (suc (suc fuel)) sizeof_string s ≡ some (e + 13, s1)
    → Grown s s1 e sizeof_string
    → malloc (suc (suc fuel)) (length cs + 1) s1 ≡ some (e + 28 + 13, s2)
    → Grown s1 s2 (e + 28) (length cs + 1)
    → (t : Machine) × (string_new_len (suc (suc fuel)) source (length cs) s ≡ some (e + 13, t))
      × Owns t (e + 13) (e + 41) (length cs + 1) cs
      × (t.heap_end ≡ e + (45 + length cs))
      × SameFrom e s t
      × (IsLive s → t.mem_head ≡ s.mem_head)
new_len_Owns fuel source e s s1 s2 cs room clear fits spelled run1 one run2 two =
    let n = length cs in
    let (placed, kept) = Grown-twice s s1 s2 e (n + 1) one two in
    let at : e + 13 + 28 ≡ e + 41 = omega arith in
    let end_at : s2.heap_end ≡ e + 41 + n + 4 = omega (arith, two.end_at) in
    let apart : (source + n + 13 ≤ e + 13) ⊎ (e + 41 + n + 4 ≤ source) = omega arith in
    let ends : (fill_new (e + 13) (e + 41) source n s2).1.heap_end ≡ e + (45 + n) =
      fill_new-heap_end s2 (e + 13) (e + 41) n source two.live placed at end_at apart fits
      ∙ omega arith in
    let there = Spelled-ext s.bytes s2.bytes source cs (λ a lo hi. kept a (omega arith)) spelled in
    (
      (fill_new (e + 13) (e + 41) source n s2).1,
      new_len_run (suc (suc fuel)) source n e s s1 s2 (omega arith) run1 run2
          ∙ ap some
              (fill_new-str s2 (e + 13) (e + 41) n source two.live placed at end_at apart fits),
      fill_new-Owns s2 (e + 13) (e + 41) n source two.live placed at end_at apart fits cs refl
          there,
      ends,
      λ a out.
          fill_new-kept s2 (e + 13) (e + 41) n source two.live placed at end_at apart fits a
            (omega (arith, ends))
          ∙ kept a (omega (arith, ends)),
      λ live.
          fill_new-mem_head s2 (e + 13) (e + 41) n source two.live placed at end_at apart fits
          ∙ two.same_head one.live
          ∙ one.same_head live,
    )

-- With room in a ready heap, and a source outside the new memory, `string_new_len` returns a
-- well-formed string object that holds the `length` characters at the source with a capacity of
-- one more, in a live heap, and changes no byte but those that it takes at the end of the heap; the
-- head of the block list is not moved in a live heap. Two rounds of the walk of `malloc` are enough.
pub string_new_len-Owns :
    (fuel source e : ℕ) (s : Machine) (cs : List ℕ)
    → Ready s e
    → e + (45 + length cs) < heap_limit
    → Clear source (length cs) e
    → source + length cs ≤ 2 ^ 32
    → Spelled s.bytes source cs
    → (t : Machine) × (string_new_len (suc (suc fuel)) source (length cs) s ≡ some (e + 13, t))
      × Owns t (e + 13) (e + 41) (length cs + 1) cs
      × (t.heap_end ≡ e + (45 + length cs))
      × SameFrom e s t
      × (IsLive s → t.mem_head ≡ s.mem_head)
string_new_len-Owns fuel source e s cs ready room clear fits spelled =
    let (s1, run1, one) = malloc-Grown fuel sizeof_string e s ready (omega arith) in
    let (s2, run2, two) =
      malloc-Grown fuel (length cs + 1) (e + 28) s1 (inl (one.live, omega (arith, one.end_at)))
        (omega arith) in
    new_len_Owns fuel source e s s1 s2 cs room clear fits spelled run1 one run2 two
