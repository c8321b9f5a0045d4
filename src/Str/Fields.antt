-- ===== src/Str/Fields.antt =====
-- The three fields of a string object under stores elsewhere and under their own assignments.
use rv32_emulator.Common.{ℕ, ◌+◌, ◌^◌, ◌≤◌, ◌<◌, ◌≡◌, ◌⊎◌, arith, add32-eq}
use rv32_emulator.Memory.{Bytes}
use rv32_emulator.Memory.Word.{load32, load32_ext, load32-store32_self, store32_outside}
use rv32_emulator.Alloc.{Machine}
use rv32_emulator.Str.{data_of, length_of, capacity_of, set_data, set_length, set_capacity}

-- The object does not wrap.
abbrev pub Inside : ℕ → Type 0
Inside str = str + 12 ≤ 2 ^ 32

abbrev pub SameOn : (lo hi : ℕ) → Bytes → Bytes → Type 0
SameOn lo hi m m' = (a : ℕ) → lo ≤ a → a < hi → m' a ≡ m a

word_ext :
    (m m' : Bytes) (p : ℕ) → p + 4 ≤ 2 ^ 32 → SameOn p (p + 4) m m' → load32 m' p ≡ load32 m p
word_ext m m' p fits same =
    load32_ext m m' p fits (same p (omega arith) (omega arith))
      (same (p + 1) (omega arith) (omega arith)) (same (p + 2) (omega arith) (omega arith))
      (same (p + 3) (omega arith) (omega arith))

module _ (str : ℕ) (inside : Inside str) where
  pub data_of_ext : (m m' : Bytes) → SameOn str (str + 4) m m' → data_of m' str ≡ data_of m str
  unfolding data_of
  data_of_ext m m' same = word_ext m m' str (omega arith) same

  pub length_of_ext :
      (m m' : Bytes) → SameOn (str + 4) (str + 8) m m' → length_of m' str ≡ length_of m str
  unfolding length_of
  length_of_ext m m' same =
      rw (add32-eq str 4 (omega arith))
        (word_ext m m' (str + 4) (omega arith) (λ a lo hi. same a lo (omega arith)))

  pub capacity_of_ext :
      (m m' : Bytes) → SameOn (str + 8) (str + 12) m m' → capacity_of m' str ≡ capacity_of m str
  unfolding capacity_of
  capacity_of_ext m m' same =
      rw (add32-eq str 8 (omega arith))
        (word_ext m m' (str + 8) (omega arith) (λ a lo hi. same a lo (omega arith)))

  module _ (v : ℕ) (s : Machine) where
    pub set_data-outside :
        (a : ℕ) → (a < str) ⊎ (str + 4 ≤ a) → (set_data str v s).bytes a ≡ s.bytes a
    unfolding set_data
    set_data-outside a out = store32_outside s.bytes str v a (omega arith) out

    pub set_length-outside :
        (a : ℕ) → (a < str + 4) ⊎ (str + 8 ≤ a) → (set_length str v s).bytes a ≡ s.bytes a
    unfolding set_length
    set_length-outside a out =
        rw (add32-eq str 4 (omega arith))
          (store32_outside s.bytes (str + 4) v a (omega arith) (omega arith))

    pub set_capacity-outside :
        (a : ℕ) → (a < str + 8) ⊎ (str + 12 ≤ a) → (set_capacity str v s).bytes a ≡ s.bytes a
    unfolding set_capacity
    set_capacity-outside a out =
        rw (add32-eq str 8 (omega arith))
          (store32_outside s.bytes (str + 8) v a (omega arith) (omega arith))

    pub data_of-set_data : v < 2 ^ 32 → data_of (set_data str v s).bytes str ≡ v
    unfolding data_of set_data
    data_of-set_data h = load32-store32_self s.bytes str v (omega arith) h

    pub length_of-set_length : v < 2 ^ 32 → length_of (set_length str v s).bytes str ≡ v
    unfolding length_of set_length
    length_of-set_length h =
        rw (add32-eq str 4 (omega arith)) (load32-store32_self s.bytes (str + 4) v (omega arith) h)

    pub capacity_of-set_capacity : v < 2 ^ 32 → capacity_of (set_capacity str v s).bytes str ≡ v
    unfolding capacity_of set_capacity
    capacity_of-set_capacity h =
        rw (add32-eq str 8 (omega arith)) (load32-store32_self s.bytes (str + 8) v (omega arith) h)
