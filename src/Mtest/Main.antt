-- ===== src/Mtest/Main.antt =====
-- `main` of mtest.c: the scopes one after the other, and the report on the heap at the end.
use rv32_emulator.Common.{
  ℕ, suc, ◌+◌, ◌-◌, ◌≤◌, ◌<◌, ◌≡◌, refl, ◌∙◌, sym, inl, arith, some, List, [], ◌∷◌, ◌++◌,
}
use mathlib.Core.List.{append-nil}
use rv32_emulator.Memory.{Bytes}
use rv32_emulator.Alloc.{Machine, heap_start, heap_limit}
use rv32_emulator.Alloc.Live.{IsLive}
use rv32_emulator.Alloc.Frame.{SameFrom}
use rv32_emulator.Alloc.Report.{debug_heap_lem}
use rv32_emulator.Str.Room.{Ready}
use rv32_emulator.Mtest.{
  Ended, Rest, Literals, malloc_test, calloc_test, string_test, string_new_len_test, array_test,
  append_test, finish, main,
}
use rv32_emulator.Mtest.Text
use rv32_emulator.Mtest.Runs.{
  Output, exactly, starting_with, Literal, Literal-kept, Shows, Runs, Runs-then, Runs-at,
}
use rv32_emulator.Mtest.Scopes.{malloc_test-Runs, calloc_test-Runs}
use rv32_emulator.Mtest.Objects.{string_test-Runs, string_new_len_test-Runs}
use rv32_emulator.Mtest.Pairs.{array_test-Runs, append_test-Runs}

-- The literals stand outside the heap.
pub record Stands (m : Bytes) (l : Literals) : Type 0 where
  pub hey_there : Literal m l.hey_there Text.hey_there
  pub hey_where : Literal m l.hey_where Text.hey_where
  pub doom : Literal m l.doom Text.doom
  pub test_text : Literal m l.test_text Text.test_text
  pub have_you : Literal m l.have_you Text.have_you
  pub prayed_today : Literal m l.prayed_today Text.prayed_today
  pub test_again : Literal m l.test_again Text.test_text
  pub batman : Literal m l.batman Text.batman

Stands-kept :
    {f : Rest → Rest} {e : ℕ} {ts : List Output} {s : Machine} {l : Literals} (r : Runs f s e ts)
    → Stands s.bytes l
    → Stands r.after.bytes l
Stands-kept {f} {e} {ts} {s} {l} r h = record {
  hey_there = Literal-kept s r.after l.hey_there Text.hey_there r.live r.same h.hey_there;
  hey_where = Literal-kept s r.after l.hey_where Text.hey_where r.live r.same h.hey_where;
  doom = Literal-kept s r.after l.doom Text.doom r.live r.same h.doom;
  test_text = Literal-kept s r.after l.test_text Text.test_text r.live r.same h.test_text;
  have_you = Literal-kept s r.after l.have_you Text.have_you r.live r.same h.have_you;
  prayed_today =
      Literal-kept s r.after l.prayed_today Text.prayed_today r.live r.same h.prayed_today;
  test_again = Literal-kept s r.after l.test_again Text.test_text r.live r.same h.test_again;
  batman = Literal-kept s r.after l.batman Text.batman r.live r.same h.batman;
}

finish_lem :
    (fuel : ℕ) (s : Machine)
    → IsLive s
    → finish (suc (suc fuel)) s ≡ some (record { status = 0; shown = []; machine = s })
unfolding finish
finish_lem fuel s live = rw (
    debug_heap_lem (suc (suc fuel)) s (s.mem_head ∷ []) (omega arith)
      (refl, omega (arith, live.head_above), live.alone))

-- What `main` shows, in order.
abbrev pub all_texts : List Output
all_texts =
    starting_with Text.hey_there
    ∷ exactly Text.hey_where
    ∷ starting_with Text.doom
    ∷ starting_with Text.test_text
    ∷ starting_with Text.have_you
    ∷ starting_with Text.prayed_today
    ∷ starting_with Text.test_text
    ∷ exactly (Text.test_text ++ Text.batman)
    ∷ []

-- A scope in front of what runs behind it, from any heap that it may leave.
Runs-next :
    {f g : Rest → Rest} {e e' : ℕ} {ts ts' : List Output} {s : Machine} {l : Literals}
    → Runs f s e ts
    → Stands s.bytes l
    → e ≤ e'
    → ((t : Machine) → Ready t e → Stands t.bytes l → Runs g t e' ts')
    → Runs (λ rest. f (g rest)) s e' (ts ++ ts')
Runs-next r h grows next =
    Runs-then r grows (next r.after (inl (r.live, sym r.end_at)) (Stands-kept r h))

-- All scopes of `main`.
abbrev scopes : (fuel : ℕ) → Literals → Rest → Rest
scopes fuel l rest = malloc_test fuel l.hey_there (
    calloc_test fuel l.hey_where (
      string_test fuel l.doom (
        string_new_len_test fuel l.test_text (
          array_test fuel l.have_you l.prayed_today
            (append_test fuel l.test_again l.batman rest)))))

scopes-Runs :
    (f e : ℕ) (s : Machine) (l : Literals)
    → 16 ≤ f
    → Ready s e
    → e + 420 < heap_limit
    → Stands s.bytes l
    → Runs (scopes (suc (suc f)) l) s (e + 420) all_texts
scopes-Runs f e s l enough ready room h1 =
    Runs-at
      (Runs-next
        (malloc_test-Runs f l.hey_there e s Text.hey_there ready (omega arith) (omega arith)
          (omega arith) h1.hey_there)
        h1 (omega arith)
        λ s2 ready2 h2.
          Runs-next
            (calloc_test-Runs f l.hey_where (e + 56) s2 Text.hey_where ready2 (omega arith)
              (omega arith) (omega arith) h2.hey_where)
            h2 (omega arith)
            λ s3 ready3 h3.
              Runs-next
                (string_test-Runs f l.doom (e + 56 + 27) s3 Text.doom ready3 (omega arith)
                  (omega arith) h3.doom)
                h3 (omega arith)
                λ s4 ready4 h4.
                  Runs-next
                    (string_new_len_test-Runs f l.test_text (e + 56 + 27 + 62) s4 Text.test_text
                      ready4 (omega arith) (omega arith) h4.test_text)
                    h4 (omega arith)
                    λ s5 ready5 h5.
                      Runs-next
                        (array_test-Runs f l.have_you l.prayed_today (e + 56 + 27 + 62 + 59) s5
                          Text.have_you Text.prayed_today ready5 (omega arith) (omega arith)
                          (omega arith) h5.have_you h5.prayed_today)
                        h5 (omega arith)
                        λ s6 ready6 h6.
                          append_test-Runs f l.test_again l.batman (e + 56 + 27 + 62 + 59 + 53 + 58)
                            s6 Text.test_text Text.batman ready6 (omega arith) (omega arith)
                            (omega arith) (omega arith) (omega arith) h6.test_again h6.batman)
      (omega arith)

main_shown :
    (f e : ℕ) (s : Machine) (l : Literals)
    → 16 ≤ f
    → Ready s e
    → e + 420 < heap_limit
    → Stands s.bytes l
    → (r : Ended) × (main (suc (suc f)) l s ≡ some r)
      × (r.status ≡ 0)
      × Shows r.shown all_texts
      × IsLive r.machine
      × (r.machine.heap_end ≡ e + 420)
      × SameFrom heap_start s r.machine
unfolding main
main_shown f e s l enough ready room h =
    let all = scopes-Runs f e s l enough ready room h in
    (
      record { status = 0; shown = all.log ++ []; machine = all.after },
      all.run (finish (suc (suc f))) ∙ rw (finish_lem f all.after all.live),
      refl,
      rw (append-nil all.log) all.shows,
      all.live,
      all.end_at,
      all.same,
    )

-- With 420 bytes of room on a live or unused heap that ends at `e`, and with the literals outside the
-- heap, `main` ends, returns 0, and makes eight prints by `%s`. The second, from the buffer of
-- calloc, and the last, from the appended string, find their text with a terminator behind it. The
-- others, from the buffer of malloc and from new string objects, find a text that begins with their
-- literal: the program puts no terminator there. It leaves a live heap, and has changed no byte
-- outside the heap. Eighteen rounds of each loop are enough.
pub main-Shows :
    (fuel e : ℕ) (s : Machine) (l : Literals)
    → 18 ≤ fuel
    → Ready s e
    → e + 420 < heap_limit
    → Stands s.bytes l
    → (r : Ended) × (main fuel l s ≡ some r)
      × (r.status ≡ 0)
      × Shows r.shown all_texts
      × IsLive r.machine
      × (r.machine.heap_end ≡ e + 420)
      × SameFrom heap_start s r.machine
main-Shows fuel e s l enough ready room h =
    let more : fuel ≡ suc (suc (fuel - 2)) = omega arith in
    rw more (main_shown (fuel - 2) e s l (omega arith) ready room h)
