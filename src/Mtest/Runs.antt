-- ===== src/Mtest/Runs.antt =====
-- What it is for a scope of mtest.c to run: it shows texts and leaves a live heap.
use mathlib.Core.List.{append_assoc}
use rv32_emulator.Common.{
  ℕ, ◌+◌, ◌≤◌, ◌<◌, ◌≡◌, refl, ◌∙◌, ap, sym, ◌⊎◌, arith, Option, none, some, List, [], ◌∷◌, ◌++◌,
  length,
}
use rv32_emulator.Memory.{Bytes}
use rv32_emulator.Alloc.{Machine, heap_start, heap_limit}
use rv32_emulator.Alloc.Live.{IsLive}
use rv32_emulator.Alloc.Frame.{SameFrom, SameFrom-trans}
use rv32_emulator.CString.Content.{Holds, Holds-ext}
use rv32_emulator.Str.Spelled.{Spelled}
use rv32_emulator.Mtest.{Shown, Ended, Rest, show}

-- A string outside the heap.
abbrev pub Literal : Bytes → ℕ → List ℕ → Type 0
Literal m p cs = Holds m p cs × ((p + length cs < heap_start) ⊎ (heap_limit ≤ p))

pub Literal-kept :
    (s t : Machine) (p : ℕ) (cs : List ℕ)
    → IsLive t
    → SameFrom heap_start s t
    → Literal s.bytes p cs
    → Literal t.bytes p cs
Literal-kept s t p cs live same (held, out) =
    (Holds-ext s.bytes t.bytes p cs (λ a lo hi. same a (omega (arith, live.end_below))) held, out)

pub Holds-Spelled : (m : Bytes) (p : ℕ) (cs : List ℕ) → Holds m p cs → Spelled m p cs
Holds-Spelled m p [] h = tt
Holds-Spelled m p (c ∷ cs) h = (h.0, Holds-Spelled m (p + 1) cs h.3)

-- What `%s` prints for a pointer: a text with its terminator behind it, or one that goes on, up to
-- the first zero byte that the memory happens to have.
pub data Output : Type 0 where
  exactly : List ℕ → Output
  starting_with : List ℕ → Output

abbrev pub Prints : Shown → Output → Type 0
Prints x (exactly cs) = Spelled x.memory x.pointer cs × (x.memory (x.pointer + length cs) ≡ 0)
Prints x (starting_with cs) = Spelled x.memory x.pointer cs

-- What is shown are the outputs, in order.
abbrev pub Shows : List Shown → List Output → Type 0
Shows [] [] = Unit {0}
Shows [] (o ∷ ts) = ⊥
Shows (x ∷ l) [] = ⊥
Shows (x ∷ l) (o ∷ ts) = Prints x o × Shows l ts

pub Shows-append :
    (l l' : List Shown) (ts ts' : List Output)
    → Shows l ts
    → Shows l' ts'
    → Shows (l ++ l') (ts ++ ts')
Shows-append [] l' [] ts' h h' = h'
Shows-append [] l' (o ∷ ts) ts' h h' = absurd h
Shows-append (x ∷ l) l' [] ts' h h' = absurd h
Shows-append (x ∷ l) l' (o ∷ ts) ts' h h' = (h.0, Shows-append l l' ts ts' h.1 h')

-- The prints of `l` in front of those of the rest.
abbrev pub prints : List Shown → Option Ended → Option Ended
prints l none = none
prints l (some r) = some (record r { shown = l ++ r.shown })

pub prints-append :
    (l l' : List Shown) (r : Option Ended) → prints l (prints l' r) ≡ prints (l ++ l') r
prints-append l l' none = refl
prints-append l l' (some r) =
    ap (λ (k : List Shown). some (record r { shown = k })) (sym (append_assoc l l' r.shown))

pub show-prints :
    (p : ℕ) (s : Machine) (l : List Shown) (r : Option Ended)
    → show p s (prints l r) ≡ prints (record { pointer = p; memory = s.bytes } ∷ l) r
unfolding show
show-prints p s l none = refl
show-prints p s l (some r) = refl

pub prints-nil : (r : Option Ended) → prints [] r ≡ r
prints-nil none = refl
prints-nil (some r) = refl

-- From `s` the scope shows the texts and goes on in a live heap that ends at `e`; nothing outside
-- the heap has changed.
pub record Runs (scope : Rest → Rest) (s : Machine) (e : ℕ) (texts : List Output) : Type 0 where
  pub after : Machine
  pub log : List Shown
  pub run : (rest : Rest) → scope rest s ≡ prints log (rest after)
  pub shows : Shows log texts
  pub live : IsLive after
  pub end_at : after.heap_end ≡ e
  pub same : SameFrom heap_start s after

pub Runs-then :
    {f g : Rest → Rest} {s : Machine} {e e' : ℕ} {ts ts' : List Output} (r : Runs f s e ts)
    → e ≤ e'
    → Runs g r.after e' ts'
    → Runs (λ rest. f (g rest)) s e' (ts ++ ts')
Runs-then {f} {g} {s} {e} {e'} {ts} {ts'} r grows q = record {
  after = q.after;
  log = r.log ++ q.log;
  run = λ rest.
      r.run (g rest) ∙ ap (prints r.log) (q.run rest) ∙ prints-append r.log q.log (rest q.after);
  shows = Shows-append r.log q.log ts ts' r.shows q.shows;
  live = q.live;
  end_at = q.end_at;
  same =
      SameFrom-trans s r.after q.after heap_start heap_start (omega arith)
        (omega (arith, r.end_at, q.end_at)) r.same q.same;
}

-- Behind an allocation, the rest of a scope runs as it would on its own.
pub allocated-Runs :
    {e : ℕ} {f scope : Rest → Rest} {texts : List Output} (s t : Machine)
    → t.heap_end ≤ e
    → SameFrom heap_start s t
    → ((rest : Rest) → scope rest s ≡ f rest t)
    → Runs f t e texts
    → Runs scope s e texts
allocated-Runs s t grows same run r = record {
  after = r.after;
  log = r.log;
  run = λ rest. run rest ∙ r.run rest;
  shows = r.shows;
  live = r.live;
  end_at = r.end_at;
  same =
      SameFrom-trans s t r.after heap_start heap_start (omega arith) (omega (arith, r.end_at)) same
        r.same;
}

pub Runs-at :
    {f : Rest → Rest} {s : Machine} {e e' : ℕ} {texts : List Output}
    → Runs f s e texts
    → e ≡ e'
    → Runs f s e' texts
Runs-at r at = rw at at r
