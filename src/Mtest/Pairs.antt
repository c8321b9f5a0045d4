-- ===== src/Mtest/Pairs.antt =====
-- The scopes of mtest.c that make two string objects, or append to one, run on a heap with room.
use rv32_emulator.Common.{
  ℕ, suc, ◌+◌, ◌*◌, ◌<◌, ◌∙◌, sym, inl, inr, arith, List, [], ◌∷◌, ◌++◌, length, length-append,
}
use rv32_emulator.Alloc.{Machine, heap_start, heap_limit}
use rv32_emulator.Alloc.Frame.{SameFrom-trans}
use rv32_emulator.CString.Content.{Holds-fits}
use rv32_emulator.CString.Length.{strlen_lem}
use rv32_emulator.Str.{string_append, free_str}
use rv32_emulator.Str.Owns.{Owns}
use rv32_emulator.Str.Room.{Ready}
use rv32_emulator.Str.Grow.{Owns_ext}
use rv32_emulator.Str.Release.{Owns-above, free_str-Released}
use rv32_emulator.Str.Extend.{string_append_len-doubled}
use rv32_emulator.Mtest.{Shown, array_test, append_test}
use rv32_emulator.Mtest.Runs.{
  Literal, Literal-kept, Holds-Spelled, starting_with, exactly, prints-nil, Runs,
}
use rv32_emulator.Mtest.Objects.{
  string_new-Made, Made-outside, Released-same, show_data-prints, show_and_free-runs,
}

-- The two objects of the array, one behind the other, and their release in the same order.
pub array_test-Runs :
    (fuel text0 text1 e : ℕ) (s : Machine) (cs ds : List ℕ)
    → Ready s e
    → e + (45 + length cs) + (45 + length ds) < heap_limit
    → length cs < suc (suc fuel)
    → length ds < suc (suc fuel)
    → Literal s.bytes text0 cs
    → Literal s.bytes text1 ds
    → Runs
        (array_test (suc (suc fuel)) text0 text1)
        s
        (e + (45 + length cs) + (45 + length ds))
        (starting_with cs ∷ starting_with ds ∷ [])
unfolding array_test
array_test-Runs fuel text0 text1 e s cs ds ready room enough0 enough1 lit0 lit1 =
    let e1 = e + (45 + length cs) in
    let (s1, run0, made0) = string_new-Made fuel text0 e s cs ready (omega arith) enough0 lit0 in
    let live1 = made0.own.live in
    let lit1' = Literal-kept s s1 text1 ds live1 (Made-outside s s1 e cs made0) lit1 in
    let (s2, run1, made1) =
      string_new-Made fuel text1 e1 s1 ds (inl (live1, sym made0.end_at)) room enough1 lit1' in
    let own0 : Owns s2 (e + 13) (e + 41) (length cs + 1) cs =
      Owns_ext s2 made0.own made1.own.live (made1.same_head live1)
        (omega (arith, made0.end_at, made1.end_at))
        (λ a lt. made1.same a (inl (omega (arith, made0.end_at)))) in
    let freed0 = free_str-Released own0 in
    let own1 : Owns (free_str (e + 13) s2) (e1 + 13) (e1 + 41) (length ds + 1) ds =
      Owns-above (free_str (e + 13) s2) made1.own freed0.live freed0.same_head freed0.same_end
        (λ a lo. freed0.kept a (inr (omega arith))) in
    let freed1 = free_str-Released own1 in
    let last = free_str (e1 + 13) (free_str (e + 13) s2) in
    let second : List Shown = record { pointer = e1 + 41; memory = s2.bytes } ∷ [] in
    record {
      after = last;
      log = record { pointer = e + 41; memory = s2.bytes } ∷ second;
      run = λ rest. rw run0 (
          rw run1 (
            show_data-prints second (rest last) own0
              (show_data-prints [] (rest last) made1.own (sym (prints-nil (rest last))))));
      shows = (own0.spelled, (made1.own.spelled, tt));
      live = freed1.live;
      end_at = freed1.same_end ∙ freed0.same_end ∙ made1.end_at;
      same =
          SameFrom-trans s (free_str (e + 13) s2) last heap_start heap_start (omega arith)
            (omega (arith, freed1.same_end))
            (SameFrom-trans s s2 (free_str (e + 13) s2) heap_start heap_start (omega arith)
              (omega (arith, freed0.same_end))
              (SameFrom-trans s s1 s2 heap_start heap_start (omega arith)
                (omega (arith, made0.end_at, made1.end_at)) (Made-outside s s1 e cs made0)
                (Made-outside s1 s2 e1 ds made1))
              (Released-same own0 freed0))
            (Released-same own1 freed1);
    }

-- The text, and then the text with the second one behind it, where that fits twice the buffer.
pub append_test-Runs :
    (fuel text more e : ℕ) (s : Machine) (cs ds : List ℕ)
    → Ready s e
    → e + (45 + length cs) + (16 + (length cs + 1) * 2) < heap_limit
    → length cs < suc (suc fuel)
    → length ds < suc (suc fuel)
    → 0 < length ds
    → length ds < length cs + 2
    → Literal s.bytes text cs
    → Literal s.bytes more ds
    → Runs
        (append_test (suc (suc fuel)) text more)
        s
        (e + (45 + length cs) + (16 + (length cs + 1) * 2))
        (starting_with cs ∷ exactly (cs ++ ds) ∷ [])
unfolding append_test string_append
append_test-Runs fuel text more e s cs ds ready room enough0 enough1 some_more fits lit0 lit1 =
    let (s1, run0, made) = string_new-Made fuel text e s cs ready (omega arith) enough0 lit0 in
    let own = made.own in
    let lit1' = Literal-kept s s1 more ds own.live (Made-outside s s1 e cs made) lit1 in
    let (s2, run1, own2, ends, end2, head2, same2) =
      string_append_len-doubled fuel (e + 13) more s1 ds own (omega arith) (omega arith)
        (omega (arith, made.end_at)) (omega (arith, lit1.1))
        (omega (arith, Holds-fits s1.bytes more ds lit1'.0))
        (Holds-Spelled s1.bytes more ds lit1'.0) in
    let released = free_str-Released own2 in
    let last = free_str (e + 13) s2 in
    let second : List Shown = record { pointer = s1.heap_end + 13; memory = s2.bytes } ∷ [] in
    record {
      after = last;
      log = record { pointer = e + 41; memory = s1.bytes } ∷ second;
      run = λ rest. rw run0 (
          show_data-prints second (rest last) own (
            rw (strlen_lem (suc (suc fuel)) more s1.bytes ds enough1 (lit1'.0))
              (rw run1 (show_and_free-runs own2 rest))));
      shows = (own.spelled, ((own2.spelled, rw (length-append cs ds) ends), tt));
      live = released.live;
      end_at = released.same_end ∙ end2 ∙ omega (arith, made.end_at);
      same =
          SameFrom-trans s s2 last heap_start heap_start (omega arith)
            (omega (arith, released.same_end))
            (SameFrom-trans s s1 s2 heap_start heap_start (omega arith) (omega (arith, end2))
              (Made-outside s s1 e cs made) same2)
            (Released-same own2 released);
    }
