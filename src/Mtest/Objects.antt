-- ===== src/Mtest/Objects.antt =====
-- The scopes of mtest.c that make string objects run on a heap with room.
use rv32_emulator.Common.{
  ℕ, suc, ◌+◌, ◌≤◌, ◌<◌, ◌≡◌, refl, ◌∙◌, ap, sym, inl, inr, arith, false, Option, some, List, [],
  ◌∷◌, length, ◌==◌,
}
use rv32_emulator.Alloc.{Machine, null, heap_start, heap_limit}
use rv32_emulator.Alloc.Live.{IsLive}
use rv32_emulator.Alloc.Frame.{SameFrom}
use rv32_emulator.CString.Content.{Holds-fits}
use rv32_emulator.CString.Length.{strlen_lem}
use rv32_emulator.Str.{data_of, string_new, string_new_len, free_str}
use rv32_emulator.Str.Owns.{Owns}
use rv32_emulator.Str.Room.{Ready, Clear}
use rv32_emulator.Str.Create.{string_new_len-Owns}
use rv32_emulator.Str.Release.{Released, free_str-Released}
use rv32_emulator.Mtest.{Shown, Ended, Rest, show, show_and_free, string_test, string_new_len_test}
use rv32_emulator.Mtest.Runs.{
  Literal, Holds-Spelled, prints, Output, starting_with, prints-nil, show-prints, Runs, Runs-at,
  allocated-Runs,
}

-- A new object with the text of a literal.
pub record Made (s t : Machine) (e : ℕ) (cs : List ℕ) : Type 0 where
  pub own : Owns t (e + 13) (e + 41) (length cs + 1) cs
  pub end_at : t.heap_end ≡ e + (45 + length cs)
  pub start_at : heap_start ≤ e
  pub same : SameFrom e s t
  pub same_head : IsLive s → t.mem_head ≡ s.mem_head

string_new_len-Made :
    (fuel text e : ℕ) (s : Machine) (cs : List ℕ)
    → Ready s e
    → e + (45 + length cs) < heap_limit
    → Literal s.bytes text cs
    → (t : Machine) × (string_new_len (suc (suc fuel)) text (length cs) s ≡ some (e + 13, t))
      × Made s t e cs
string_new_len-Made fuel text e s cs ready room lit =
    let above : heap_start ≤ e = elim ready [
      | inl live ↦ omega (arith, live.0.head_above, live.0.head_below, live.1)
      | inr new ↦ omega (arith, new.1)
    ] in
    let clear : Clear text (length cs) e = omega (arith, lit.1) in
    let (t, run, own, end_at, same, head) =
      string_new_len-Owns fuel text e s cs ready room clear
        (omega (arith, Holds-fits s.bytes text cs lit.0)) (Holds-Spelled s.bytes text cs lit.0) in
    (t, run, record { own = own; end_at = end_at; start_at = above; same = same; same_head = head })

pub string_new-Made :
    (fuel text e : ℕ) (s : Machine) (cs : List ℕ)
    → Ready s e
    → e + (45 + length cs) < heap_limit
    → length cs < suc (suc fuel)
    → Literal s.bytes text cs
    → (t : Machine) × (string_new (suc (suc fuel)) text s ≡ some (e + 13, t)) × Made s t e cs
unfolding string_new
string_new-Made fuel text e s cs ready room enough lit =
    let (t, run, made) = string_new_len-Made fuel text e s cs ready room lit in
    (t, rw (strlen_lem (suc (suc fuel)) text s.bytes cs enough (lit.0)) run, made)

pub Made-outside : (s t : Machine) (e : ℕ) (cs : List ℕ) → Made s t e cs → SameFrom heap_start s t
Made-outside s t e cs made a out = made.same a (omega (arith, made.start_at))

pub Released-same :
    {s t : Machine} {str d cap : ℕ} {cs : List ℕ}
    → Owns s str d cap cs
    → Released s t str d
    → SameFrom heap_start s t
Released-same own released a out =
    released.kept a
      (omega (arith, released.same_end, own.str_placed, own.live.head_above, own.placed))

-- The pointer to the data of an object is printed.
pub show_data-prints :
    {s : Machine} {str d cap : ℕ} {cs : List ℕ} {r : Option Ended} (l : List Shown)
    (r' : Option Ended)
    → Owns s str d cap cs
    → r ≡ prints l r'
    → show (data_of s.bytes str) s r ≡ prints (record { pointer = d; memory = s.bytes } ∷ l) r'
show_data-prints {s} {str} {d} {cap} {cs} {r} l r' own run =
    rw (own.at_data) (ap (show d s) run ∙ show-prints d s l r')

pub show_and_free-runs :
    {s : Machine} {str d cap : ℕ} {cs : List ℕ}
    → Owns s str d cap cs
    → (rest : Rest)
    → show_and_free str rest s
      ≡ prints (record { pointer = d; memory = s.bytes } ∷ []) (rest (free_str str s))
unfolding show_and_free
show_and_free-runs {s} {str} {d} own rest =
    let end = rest (free_str str s) in show_data-prints [] end own (sym (prints-nil end))

show_and_free-Runs :
    {s : Machine} {str d cap : ℕ} {cs : List ℕ}
    → Owns s str d cap cs
    → Runs (show_and_free str) s s.heap_end (starting_with cs ∷ [])
show_and_free-Runs {s} {str} {d} {cap} {cs} own =
    let released = free_str-Released own in
    record {
      after = free_str str s;
      log = record { pointer = d; memory = s.bytes } ∷ [];
      run = show_and_free-runs own;
      shows = (own.spelled, tt);
      live = released.live;
      end_at = released.same_end;
      same = Released-same own released;
    }

-- Behind a new object, the rest of a scope.
Made-Runs :
    {e e' : ℕ} {f scope : Rest → Rest} {texts : List Output} {s t : Machine} {cs : List ℕ}
    → Made s t e cs
    → ((rest : Rest) → scope rest s ≡ f rest t)
    → Runs f t e' texts
    → t.heap_end ≤ e'
    → Runs scope s e' texts
Made-Runs {e} {e'} {f} {scope} {texts} {s} {t} {cs} made run r grows =
    allocated-Runs s t grows (Made-outside s t e cs made) run r

pub string_test-Runs :
    (fuel text e : ℕ) (s : Machine) (cs : List ℕ)
    → Ready s e
    → e + (45 + length cs) < heap_limit
    → length cs < suc (suc fuel)
    → Literal s.bytes text cs
    → Runs (string_test (suc (suc fuel)) text) s (e + (45 + length cs)) (starting_with cs ∷ [])
unfolding string_test
string_test-Runs fuel text e s cs ready room enough lit =
    let (t, run, made) = string_new-Made fuel text e s cs ready room enough lit in
    let not_null : (e + 13 == null) ≡ false = ground arith in
    Made-Runs made (λ rest. rw run (rw not_null refl))
      (Runs-at (show_and_free-Runs made.own) made.end_at) (omega (arith, made.end_at))

pub string_new_len_test-Runs :
    (fuel text e : ℕ) (s : Machine) (cs : List ℕ)
    → Ready s e
    → e + (45 + length cs) < heap_limit
    → length cs < suc (suc fuel)
    → Literal s.bytes text cs
    → Runs
        (string_new_len_test (suc (suc fuel)) text)
        s
        (e + (45 + length cs))
        (starting_with cs ∷ [])
unfolding string_new_len_test
string_new_len_test-Runs fuel text e s cs ready room enough lit =
    let (t, run, made) = string_new_len-Made fuel text e s cs ready room lit in
    Made-Runs made
      (λ rest. rw (strlen_lem (suc (suc fuel)) text s.bytes cs enough (lit.0)) (rw run refl))
      (Runs-at (show_and_free-Runs made.own) made.end_at) (omega (arith, made.end_at))
