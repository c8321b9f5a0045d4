-- ===== src/Str/Chars.antt =====
-- The characters that `string_append_len` puts behind those of a string object with room for them.
use rv32_emulator.Common.{
  ℕ, ◌+◌, ◌-◌, ◌^◌, ◌≤◌, ◌<◌, ◌≡◌, refl, ◌∙◌, ◌⊎◌, inl, arith, add32-eq, List, ◌++◌, length,
  length-append, if◌then◌else◌,
}
use rv32_emulator.Memory.Range.{IsBytes, within, store8-IsBytes, store8_byte}
use rv32_emulator.Memory.Word.{store32-IsBytes}
use rv32_emulator.Memory.Copy.{memcpy_lem}
use rv32_emulator.Alloc.{Machine}
use rv32_emulator.Alloc.Frame.{SameOutside}
use rv32_emulator.Str.{
  data_of, length_of, capacity_of, set_length, put_byte, copy_bytes, terminate, put_chars,
}
use rv32_emulator.Str.Fields.{
  Inside, data_of_ext, length_of_ext, capacity_of_ext, set_length-outside, length_of-set_length,
}
use rv32_emulator.Str.Spelled.{Spelled, Spelled-ext, Spelled-append, Spelled-shift}
use rv32_emulator.Str.Owns.{Owns, IsLive-ext}

-- The assignments of an append, with the addresses that they have.
abbrev extended : (str d n source k : ℕ) → Machine → Machine
extended str d n source k s =
    put_byte (d + n + k) 0 (set_length str (n + k) (copy_bytes (d + n) source k s))

module _ {s : Machine} {str d cap : ℕ} {cs : List ℕ} (own : Owns s str d cap cs) (source k : ℕ)
    (fits : length cs + k ≤ cap) (clear : (d + length cs ≤ source) ⊎ (source + k ≤ d + length cs))
    (source_fits : source + k ≤ 2 ^ 32) where
  abbrev n : ℕ
  n = length cs

  inside : Inside str
  inside = omega (arith, own.apart, own.placed, own.live.end_below)

  abbrev copied : Machine
  copied = copy_bytes (d + n) source k s

  copied-at :
      (a : ℕ)
      → copied.bytes a
        ≡ (if within (d + n) k a then s.bytes (source + (a - (d + n))) else s.bytes a)
  copied-at a =
      (memcpy_lem (d + n) source k s.bytes own.live.are_bytes
          (omega (arith, own.placed, own.live.end_below)) source_fits clear).1
        a

  copied-outside : (a : ℕ) → (a < d + n) ⊎ (d + n + k ≤ a) → copied.bytes a ≡ s.bytes a
  copied-outside a out = copied-at a ∙ ground arith

  abbrev with_length : Machine
  with_length = set_length str (n + k) copied

  -- Bytes outside the length field and the new ones.
  kept :
      (a : ℕ)
      → (a < str + 4) ⊎ (str + 8 ≤ a)
      → (a < d + n) ⊎ (d + n + k < a)
      → (extended str d n source k s).bytes a ≡ s.bytes a
  kept a out out' =
      store8_byte _ (d + n + k) 0 a (omega arith)
      ∙ ground arith
      ∙ set_length-outside str inside (n + k) copied a out
      ∙ copied-outside a (omega arith)

  length_of-copied : length_of copied.bytes str ≡ n
  length_of-copied =
      length_of_ext str inside s.bytes copied.bytes
        (λ a lo hi. copied-outside a (omega (arith, own.apart)))
      ∙ own.at_length

  data_of-with_length : data_of with_length.bytes str ≡ d
  data_of-with_length =
      data_of_ext str inside s.bytes with_length.bytes (λ a lo hi.
        set_length-outside str inside (n + k) copied a (omega arith)
        ∙ copied-outside a (omega (arith, own.apart)))
      ∙ own.at_data

  length_of-with_length : length_of with_length.bytes str ≡ n + k
  length_of-with_length =
      length_of-set_length str inside (n + k) copied (omega (arith, own.placed, own.live.end_below))

  put_chars-eq : put_chars str source k s ≡ extended str d n source k s
  unfolding put_chars terminate
  put_chars-eq =
      let bound = own.live.end_below in
      let e : d + (n + k) ≡ d + n + k = omega arith in
      rw (own.at_data, own.at_length)
        (rw (add32-eq d n (omega (arith, own.placed))) (
          rw length_of-copied (
            rw (add32-eq n k (omega (arith, own.placed))) (
              rw (data_of-with_length, length_of-with_length)
                (rw (add32-eq d (n + k) (omega (arith, own.placed))) (rw e))))))

  copied-IsBytes : IsBytes copied.bytes
  copied-IsBytes a =
      rw (copied-at a)
        (ground (arith, own.live.are_bytes a, own.live.are_bytes (source + (a - (d + n)))))

  -- The characters at their new place.
  arrived : (i : ℕ) → i < k → (extended str d n source k s).bytes (d + n + i) ≡ s.bytes (source + i)
  arrived i lt =
      let e : d + n + i - (d + n) ≡ i = omega arith in
      store8_byte _ (d + n + k) 0 (d + n + i) (omega arith)
      ∙ ground arith
      ∙ set_length-outside str inside (n + k) copied (d + n + i) (omega (arith, own.apart))
      ∙ copied-at (d + n + i)
      ∙ rw e (ground arith)

  pub put_chars-Owns :
      (ds : List ℕ)
      → length ds ≡ k
      → n + k < cap
      → Spelled s.bytes source ds
      → Owns (put_chars str source k s) str d cap (cs ++ ds)
  unfolding set_length
  put_chars-Owns ds count more there =
      let same =
        λ (a : ℕ) (out : (a < str + 4) ⊎ (str + 8 ≤ a)) (lo : a < d + n). kept a out (inl lo) in
      let longer : length (cs ++ ds) ≡ n + k = omega (arith, length-append cs ds) in
      rw put_chars-eq (record {
        live =
            IsLive-ext s (extended str d n source k s) own.live refl refl
              (store8-IsBytes _ _ _ (store32-IsBytes _ _ _ copied-IsBytes))
              (λ a lo hi.
                same a (omega (arith, own.str_placed)) (omega (arith, own.str_placed, own.apart)));
        str_placed = own.str_placed;
        apart = own.apart;
        placed = own.placed;
        room = omega (arith, longer);
        at_data =
            data_of_ext str inside s.bytes _
              (λ a lo hi. same a (omega arith) (omega (arith, own.apart)))
            ∙ own.at_data;
        at_length =
            length_of_ext str inside with_length.bytes _
              (λ a lo hi. store8_byte _ (d + n + k) 0 a (omega arith) ∙ ground (arith, own.apart))
            ∙ length_of-with_length
            ∙ omega (arith, longer);
        at_capacity =
            capacity_of_ext str inside s.bytes _
              (λ a lo hi. same a (omega arith) (omega (arith, own.apart)))
            ∙ own.at_capacity;
        spelled =
            Spelled-append _ d cs ds
              (Spelled-ext s.bytes _ d cs
                (λ a lo hi. same a (omega (arith, own.apart)) (omega arith)) own.spelled)
              (Spelled-shift source (d + n) ds s.bytes _ (λ i lt. arrived i (omega arith)) there);
      })

  pub put_chars-ends : (put_chars str source k s).bytes (d + (n + k)) ≡ 0
  put_chars-ends =
      rw put_chars-eq (store8_byte _ (d + n + k) 0 (d + (n + k)) (omega arith) ∙ ground arith)

  pub put_chars-data_of : data_of (put_chars str source k s).bytes str ≡ d
  put_chars-data_of = rw put_chars-eq (
      data_of_ext str inside s.bytes _ (λ a lo hi. kept a (omega arith) (omega (arith, own.apart)))
      ∙ own.at_data)

  pub put_chars-capacity_of : capacity_of (put_chars str source k s).bytes str ≡ cap
  put_chars-capacity_of = rw put_chars-eq (
      capacity_of_ext str inside s.bytes _
        (λ a lo hi. kept a (omega arith) (omega (arith, own.apart)))
      ∙ own.at_capacity)

  pub put_chars-ends_at :
      ((put_chars str source k s).heap_end ≡ s.heap_end)
      × ((put_chars str source k s).mem_head ≡ s.mem_head)
  unfolding put_chars terminate set_length
  put_chars-ends_at = (refl, refl)

  pub put_chars-SameOutside : SameOutside s (put_chars str source k s)
  put_chars-SameOutside a out =
      let ends = put_chars-ends_at.0 in
      let head = own.live.head_above in
      rw put_chars-eq (
        kept a (omega (arith, ends, own.str_placed, own.apart, own.placed))
          (omega (arith, ends, own.str_placed, own.apart, own.placed)))
