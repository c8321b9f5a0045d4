-- ===== src/Devices/Virtio/Loops.antt =====
-- The two loops of `disk_access`: between a buffer in the main memory and a part of the disk.
use mathlib.Core.Path.{fun_ext}
use rv32_emulator.Common.{
  ℕ, zero, suc, ◌+◌, ◌-◌, ◌^◌, ◌≤◌, ◌<◌, ◌≡◌, refl, ◌∙◌, ap, inl, inr, arith, add32-eq, u8,
  Bool-cases, none, some, List, [], ◌∷◌, length, get_elem?, ◌==◌, if◌then◌else◌,
}
use rv32_emulator.Memory.{Bytes, store8}
use rv32_emulator.Memory.Range.{within}
use rv32_emulator.Devices.{done, panics}
use rv32_emulator.Devices.Virtio.{byte, Virtio}
use rv32_emulator.Devices.Bus.{Bus}
use rv32_emulator.Devices.Virtio.Disk.{set_elem?, read_disk, write_disk, to_disk, from_disk}

-- The byte of the disk at an index, and 0 behind its end.
abbrev pub byte_of : List ℕ → ℕ → ℕ
byte_of [] k = 0
byte_of (x ∷ xs) zero = x
byte_of (x ∷ xs) (suc k) = byte_of xs k

get_elem?-byte_of : (xs : List ℕ) (k : ℕ) → k < length xs → get_elem? xs k ≡ some (byte_of xs k)
get_elem?-byte_of [] k lt = absurd (omega arith)
get_elem?-byte_of (x ∷ xs) zero lt = refl
get_elem?-byte_of (x ∷ xs) (suc k) lt = get_elem?-byte_of xs k (omega arith)

get_elem?-none : (xs : List ℕ) (k : ℕ) → length xs ≤ k → get_elem? xs k ≡ none
get_elem?-none [] k le = refl
get_elem?-none (x ∷ xs) zero le = absurd (omega arith)
get_elem?-none (x ∷ xs) (suc k) le = get_elem?-none xs k (omega arith)

set_elem?-none : (xs : List ℕ) (k v : ℕ) → length xs ≤ k → set_elem? xs k v ≡ none
set_elem?-none [] k v le = refl
set_elem?-none (x ∷ xs) zero v le = absurd (omega arith)
set_elem?-none (x ∷ xs) (suc k) v le = rw (set_elem?-none xs k v (omega arith)) refl

byte_of-cons :
    (x k v : ℕ) (xs ys : List ℕ)
    → ((j : ℕ) → byte_of ys j ≡ (if j == k then v else byte_of xs j))
    → (j : ℕ) → byte_of (x ∷ ys) j ≡ (if j == suc k then v else byte_of (x ∷ xs) j)
byte_of-cons x k v xs ys at zero = ground arith
byte_of-cons x k v xs ys at (suc j) = ground (arith, at j)

set_elem?-at :
    (xs : List ℕ) (k v : ℕ)
    → k < length xs
    → (ys : List ℕ) × (set_elem? xs k v ≡ some ys)
      × (length ys ≡ length xs)
      × ((j : ℕ) → byte_of ys j ≡ (if j == k then v else byte_of xs j))
set_elem?-at [] k v lt = absurd (omega arith)
set_elem?-at (x ∷ xs) zero v lt = (v ∷ xs, refl, refl, λ j. at j)
  where
    at : (j : ℕ) → byte_of (v ∷ xs) j ≡ (if j == 0 then v else byte_of (x ∷ xs) j)
    at zero = refl
    at (suc j) = ground arith
set_elem?-at (x ∷ xs) (suc k) v lt =
    let (ys, run, same, at) = set_elem?-at xs k v (omega arith) in
    (x ∷ ys, rw run refl, ap suc same, byte_of-cons x k v xs ys at)

-- The memory with `n` bytes of the disk at `place`.
abbrev pub filled : (place n start : ℕ) → List ℕ → Bytes → Bytes
filled place n start disk m a =
    if within place n a then u8 (byte_of disk (start + (a - place))) else m a

-- The disk has `n` bytes of the memory from `start` on, and is otherwise as before.
pub record Taken (place n start : ℕ) (m : Bytes) (disk disk' : List ℕ) : Type 0 where
  pub same_length : length disk' ≡ length disk
  pub at :
      (k : ℕ)
      → byte_of disk' k
        ≡ (if within start n k then u8 (m (place + (k - start))) else byte_of disk k)

filled-next :
    (place n start : ℕ) (disk : List ℕ) (m : Bytes)
    → filled (place + 1) n (start + 1) disk (store8 m place (byte_of disk start))
      ≡ filled place (suc n) start disk m
unfolding store8
filled-next place n start disk m = fun_ext λ a. elim (Bool-cases (a == place)) [
  | inl here ↦
      let e : a ≡ place = ground (arith, here) in
      let k : start + (place - place) ≡ start = omega arith in rw e (rw k (ground arith))
  | inr other ↦ elim (Bool-cases (within (place + 1) n a)) [
    | inl inside ↦
        let k : start + 1 + (a - (place + 1)) ≡ start + (a - place) = ground (arith, inside) in
        rw k (ground (arith, inside, other))
    | inr outside ↦ ground (arith, outside, other)
  ]
]

Taken-next :
    (place n start : ℕ) (m : Bytes) (disk disk1 disk2 : List ℕ)
    → length disk1 ≡ length disk
    → ((k : ℕ) → byte_of disk1 k ≡ (if k == start then u8 (m place) else byte_of disk k))
    → Taken (place + 1) n (start + 1) m disk1 disk2
    → Taken place (suc n) start m disk disk2
Taken-next place n start m disk disk1 disk2 same at taken = record {
  same_length = taken.same_length ∙ same;
  at = λ k. elim (Bool-cases (k == start)) [
    | inl here ↦
        let e : k ≡ start = ground (arith, here) in
        let first : place + (start - start) ≡ place = omega arith in
        taken.at k ∙ rw e (rw first (ground (arith, at start)))
    | inr other ↦
        let shift : start + 1 ≤ k → place + 1 + (k - (start + 1)) ≡ place + (k - start) =
          λ le. omega (arith, le) in
        taken.at k ∙ elim (Bool-cases (within (start + 1) n k)) [
          | inl inside ↦ rw (shift (ground (arith, inside))) (ground (arith, inside, other))
          | inr outside ↦ ground (arith, outside, other, at k)
        ]
  ];
}

module _ (b : Bus) where
  open b use {
    State, memory, device, set_device, IsMain, read_main, write_main, memory_apart, rest,
    rest_apart, device_put,
  }

  from_disk-filled :
      (left i addr start : ℕ) (s : State)
      → addr + (i + left) ≤ 2 ^ 32
      → start + (i + left) ≤ 2 ^ 32
      → start + (i + left) ≤ length (device s).disk
      → ((j : ℕ) → j < i + left → IsMain byte (addr + j))
      → (s' : State) × (from_disk b left i addr start s ≡ done (tt, s'))
        × (memory s' ≡ filled (addr + i) left (start + i) (device s).disk (memory s))
        × (device s' ≡ device s)
        × (rest s' ≡ rest s)
  unfolding from_disk read_disk
  from_disk-filled zero i addr start s fits fits' inside main =
      (s, refl, fun_ext λ a. ground arith, refl, refl)
  from_disk-filled (suc left) i addr start s fits fits' inside main =
      let v = byte_of (device s).disk (start + i) in
      let there : get_elem? (device s).disk (start + i) ≡ some v =
        get_elem?-byte_of (device s).disk (start + i) (omega arith) in
      let (s1, run, stored, same, kept) = write_main byte (addr + i) v s (main i (omega arith)) in
      let (s2, run2, stored2, same2, kept2) =
        from_disk-filled left (i + 1) addr start s1 (omega arith) (omega arith)
          (rw same (omega arith)) (λ j lt. main j (omega arith)) in
      let next : addr + (i + 1) ≡ addr + i + 1 = omega arith in
      let next' : start + (i + 1) ≡ start + i + 1 = omega arith in
      (
        s2,
        rw (add32-eq start i (omega arith), add32-eq addr i (omega arith)) (rw there (rw run run2)),
        stored2
            ∙ rw (next, next', same, stored)
                (filled-next (addr + i) left (start + i) (device s).disk (memory s)),
        same2 ∙ same,
        kept2 ∙ kept,
      )

  to_disk-Taken :
      (left i addr start : ℕ) (s : State)
      → addr + (i + left) ≤ 2 ^ 32
      → start + (i + left) ≤ 2 ^ 32
      → start + (i + left) ≤ length (device s).disk
      → ((j : ℕ) → j < i + left → IsMain byte (addr + j))
      → (s' : State) × (disk' : List ℕ) × (to_disk b left i addr start s ≡ done (tt, s'))
        × (memory s' ≡ memory s)
        × (device s' ≡ record (device s) { disk = disk' })
        × (rest s' ≡ rest s)
        × Taken (addr + i) left (start + i) (memory s) (device s).disk disk'
  unfolding to_disk write_disk
  to_disk-Taken zero i addr start s fits fits' inside main = (
    s,
    (device s).disk,
    refl,
    refl,
    refl,
    refl,
    record { same_length = refl; at = λ k. ground arith },
  )
  to_disk-Taken (suc left) i addr start s fits fits' inside main =
      let v = memory s (addr + i) in
      let (disk1, put1, long1, at1) =
        set_elem?-at (device s).disk (start + i) (u8 v) (omega arith) in
      let v1 = record (device s) { disk = disk1 } in
      let next : addr + (i + 1) ≡ addr + i + 1 = omega arith in
      let next' : start + (i + 1) ≡ start + i + 1 = omega arith in
      let s1 = set_device v1 s in
      let dev1 = device_put v1 s in
      let (s2, disk2, run2, same2, dev2, kept2, taken2) =
        to_disk-Taken left (i + 1) addr start s1 (omega arith) (omega arith)
          (rw dev1 (omega (arith, long1))) (λ j lt. main j (omega arith)) in
      (
        s2,
        disk2,
        rw (add32-eq start i (omega arith), add32-eq addr i (omega arith))
            (rw (read_main byte (addr + i) s (main i (omega arith))) (rw put1 run2)),
        same2 ∙ memory_apart v1 s,
        dev2 ∙ ap (λ (w : Virtio). record w { disk = disk2 }) dev1,
        kept2 ∙ rest_apart v1 s,
        Taken-next (addr + i) left (start + i) (memory s) (device s).disk disk1 disk2 long1 at1
            (rw (next, next', memory_apart v1 s, dev1) at taken2),
      )

  -- Both from their first round on.
  module _ (n addr start : ℕ) (s : State) (fits : addr + n ≤ 2 ^ 32) (fits' : start + n ≤ 2 ^ 32)
      (inside : start + n ≤ length (device s).disk)
      (main : (j : ℕ) → j < n → IsMain byte (addr + j)) where
    at_addr : addr + 0 ≡ addr
    at_addr = omega arith

    at_start : start + 0 ≡ start
    at_start = omega arith

    pub from_disk-all :
        (s' : State) × (from_disk b n 0 addr start s ≡ done (tt, s'))
        × (memory s' ≡ filled addr n start (device s).disk (memory s))
        × (device s' ≡ device s)
        × (rest s' ≡ rest s)
    from_disk-all =
        rw (at_addr, at_start) at
          (from_disk-filled n 0 addr start s (omega arith) (omega arith) (omega arith)
            (λ j lt. main j (omega arith)))

    pub to_disk-all :
        (s' : State) × (disk' : List ℕ) × (to_disk b n 0 addr start s ≡ done (tt, s'))
        × (memory s' ≡ memory s)
        × (device s' ≡ record (device s) { disk = disk' })
        × (rest s' ≡ rest s)
        × Taken addr n start (memory s) (device s).disk disk'
    to_disk-all =
        rw (at_addr, at_start) at
          (to_disk-Taken n 0 addr start s (omega arith) (omega arith) (omega arith)
            (λ j lt. main j (omega arith)))

  -- Behind the end of the disk.
  module _ (n addr start : ℕ) (s : State) (some_byte : 0 < n)
      (outside : length (device s).disk ≤ start) where
    counted : n ≡ suc (n - 1)
    counted = omega arith

    pub from_disk-panics : start < 2 ^ 32 → from_disk b n 0 addr start s ≡ panics
    unfolding from_disk read_disk
    from_disk-panics small = rw counted (
        rw (add32-eq start 0 (omega arith))
          (rw at_start (rw (get_elem?-none (device s).disk start outside) refl)))
      where
        at_start : start + 0 ≡ start
        at_start = omega arith

    pub to_disk-panics :
        start < 2 ^ 32
        → addr < 2 ^ 32
        → IsMain byte (addr + 0)
        → to_disk b n 0 addr start s ≡ panics
    unfolding to_disk write_disk
    to_disk-panics small small' main =
        let v = u8 (memory s (addr + 0)) in
        let none_there = set_elem?-none (device s).disk start v outside in
        let at_start : start + 0 ≡ start = omega arith in
        rw counted (
          rw (add32-eq start 0 (omega arith), add32-eq addr 0 (omega arith))
            (rw (read_main byte (addr + 0) s main) (rw at_start (rw none_there refl))))
