-- ===== src/Vaddr/Tests.antt =====
-- The theorems on the page table at its fourth entry.
use rv32_emulator.Common.{◌+◌, ◌*◌, ◌≡◌, arith}
use rv32_emulator.Memory.Samples.{blank}
use rv32_emulator.Memory.Word.{load32}
use rv32_emulator.Vaddr.{base_addr, page_size}
use rv32_emulator.Vaddr.Main.{Hart, main, main_lem}

abbrev start : Hart
start = record { bytes = blank; satp = 0; ptable = 0 }

-- The two variables below the table.
main_lem_example :
    ((main 0x8000_0010 0x8000_0014 start).0 ≡ 6)
    × ((main 0x8000_0010 0x8000_0014 start).1.satp ≡ 0x8008_0002)
    × ((main 0x8000_0010 0x8000_0014 start).1.ptable ≡ base_addr)
    × (load32 (main 0x8000_0010 0x8000_0014 start).1.bytes (base_addr + 12)
        ≡ base_addr + page_size * 3 + 1)
main_lem_example =
    main_lem 0x8000_0010 0x8000_0014 3 start (omega arith) (omega arith) (omega arith) (omega arith)
      (omega arith) (omega arith)
