-- ===== src/Vaddr/Main.antt =====
-- `main` of c_test/vaddr.c, on a hart that runs in machine mode, where the register has no effect on
-- the addresses.
use rv32_emulator.Common.{ℕ, ◌+◌, ◌*◌, ◌^◌, ◌≤◌, ◌<◌, ◌≡◌, refl, ◌∙◌, ◌⊎◌, arith, add32}
use rv32_emulator.Memory.{Bytes}
use rv32_emulator.Memory.Word.{load32, store32, load32-store32_self, load32-store32_outside}
use rv32_emulator.Vaddr.{base_addr, page_size, make_satp, ptable_init, ptable_init_lem}

-- The memory, the register, and the static variable `ptable`.
pub record Hart : Type 0 where
  pub bytes : Bytes
  pub satp : ℕ
  pub ptable : ℕ

-- `ptable = (uint32*)BASE_ADDR;` and the loop.
unfoldable pub init_table : Hart → Hart
init_table h = record h { ptable = base_addr; bytes = ptable_init h.bytes }

unfoldable pub w_satp : ℕ → Hart → Hart
w_satp x h = record h { satp = x }

abbrev pub store_int : (p v : ℕ) → Hart → Hart
store_int p v h = record h { bytes = store32 h.bytes p v }

-- The variables `a` and `b` stand at `ap` and `bp`.
unfoldable pub main : (ap bp : ℕ) → Hart → ℕ × Hart
unfolding init_table w_satp
main ap bp h =
    let h1 = init_table h in
    let h2 = w_satp (make_satp h1.ptable) h1 in
    let h3 = store_int ap 4 (store_int bp 2 (store_int ap 1 h2)) in
    (add32 (load32 h3.bytes ap) (load32 h3.bytes bp), h3)

-- Where the two variables lie apart from each other and from the page table, `main` returns 6, with
-- the mode bit and the page of the table in the register, and with the entries of the table in
-- memory.
pub main_lem :
    (ap bp i : ℕ) (h : Hart)
    → ap + 4 ≤ 2 ^ 32
    → bp + 4 ≤ 2 ^ 32
    → (ap + 4 ≤ bp) ⊎ (bp + 4 ≤ ap)
    → (ap + 4 ≤ base_addr) ⊎ (base_addr + 4096 ≤ ap)
    → (bp + 4 ≤ base_addr) ⊎ (base_addr + 4096 ≤ bp)
    → i < 1024
    → ((main ap bp h).0 ≡ 6)
      × ((main ap bp h).1.satp ≡ 0x8008_0002)
      × ((main ap bp h).1.ptable ≡ base_addr)
      × (load32 (main ap bp h).1.bytes (base_addr + 4 * i) ≡ base_addr + page_size * i + 1)
unfolding main make_satp
main_lem ap bp i h fits_a fits_b apart out_a out_b lt =
    let m = ptable_init h.bytes in
    let m1 = store32 m ap 1 in
    let m2 = store32 m1 bp 2 in
    let at_a = load32-store32_self m2 ap 4 fits_a (omega arith) in
    let at_b : load32 (store32 m2 ap 4) bp ≡ 2 =
      load32-store32_outside m2 ap bp 4 fits_a fits_b (omega arith)
      ∙ load32-store32_self m1 bp 2 fits_b (omega arith) in
    let entry : base_addr + 4 * i + 4 ≤ base_addr + 4096 = omega arith in
    (
      rw (at_a, at_b) (unfold add32 in refl),
      refl,
      refl,
      load32-store32_outside m2 ap (base_addr + 4 * i) 4 fits_a (omega arith) (omega arith)
          ∙ load32-store32_outside m1 bp (base_addr + 4 * i) 2 fits_b (omega arith) (omega arith)
          ∙ load32-store32_outside m ap (base_addr + 4 * i) 1 fits_a (omega arith) (omega arith)
          ∙ (ptable_init_lem h.bytes i 0 lt (omega arith)).0,
    )
