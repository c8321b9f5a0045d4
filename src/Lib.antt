-- ===== src/Lib.antt =====
-- The RV32 emulator: its devices, the C runtime for the machine that it emulates, and the programs
-- that test the emulator with it.
--
-- The repository has an emulator in Rust (src/), whose processor and bus come from another package,
-- and which adds four devices to it; and, in c_test/, a C runtime for the emulated machine with small
-- programs on top. A program is linked with the whole runtime: c_test/string.c and
-- c_test/standard.c allocate with c_test/mem.c, read the serial port by the macro UART of
-- c_test/debug.h, and write to it by c_test/printf.c. On the other side of that macro stands the
-- emulated serial port, src/devices/uart.rs.
--
-- Where what is modelled:
--   Memory    memset, memcpy, memmove and memcmp of c_test/mem.c, on memory as a function from
--             addresses to bytes. Word has the words that `lw` and `sw` read and write.
--   Alloc     sbrk, malloc, free, realloc, calloc and debug_heap of c_test/mem.c. The state is a
--             `Machine`: the memory and the static variables heap_end and mem_head. A block lives in
--             memory, and its fields are read and written there: get_next, set_size and so on. The
--             branches of malloc are malloc_first, malloc_new and malloc_reuse, with find_free for
--             its loop. Report has debug_heap.
--   CString   the functions of c_test/string.c on terminated strings.
--   Str       its string objects (`struct string` of c_test/debug.h), function by function on the
--             `Machine`, with malloc and free as they are.
--   Uart      what a read of the serial port finds, and the program c_test/echo_out.c.
--   Standard  str2int and get_string of c_test/standard.c. Calls has the functions there and in
--             c_test/signal.c that do nothing or do not return.
--   Fib       c_test/fib.c, with main from the serial port to the three values that it prints.
--   Output    the output functions that c_test/printf.c adds to the library that it contains.
--   Message   get_msg of c_test/global.c.
--   Vaddr     c_test/vaddr.c: MAKE_SATP, ptable_init, and main with w_satp in Main, where a `Hart`
--             is the memory, the register satp and the static variable.
--   Mtest     c_test/mtest.c, one function per scope of main, each of which takes what follows it.
--   OpTests   the tables and the tests of c_test/op_tests.c.
--   Devices   the emulated devices of src/devices. Uart has uart.rs with its thread, and Delivery
--             the steps of that thread and of a guest in any order; Plic has plic.rs, Clint has
--             clint.rs, and Virtio the registers of viritio.rs. An access gives an `Outcome`: a value,
--             an exception of the guest, or a panic of the emulator. plic.rs keeps the priorities and
--             the thresholds as registers, and looks at neither when a source is raised, nor at
--             the other pending sources when one is completed. Virtio/Disk has disk_access as
--             an `Action`, a row of steps on the state of the processor, which Bus describes.
--   Emulator  src/main.rs: check_ints, block by block, and the main loop. Command has the lines of the
--             step mode, and Stepping its loop. Machine is an example of the processor.
--   Common    what they share: tests on numbers, words of 32 bits, lists and options.
--
-- The target is rv32 with the ilp32 ABI: an `int`, a `size_t` and a pointer are 32 bits wide, and a
-- `char` is an unsigned byte. Every value is a natural number, an `int` as its bit pattern;
-- operations that can wrap do so by `add32`, `sub32` and `u32`, and addresses are added with `add32`.
-- `struct mem_block` has `data` at 13 and a size of 16, and `struct string` a size of 12.
--
-- Loops that run to a terminator, along the block list or until the input is good take fuel, and
-- give `none` when it runs out; loops that count are recursion on the count. The theorems give the
-- fuel that is enough: one round more than a string has characters or a list has blocks, and two
-- rounds for a walk of malloc in a heap that malloc itself has made, in which the first block is the
-- only one of the list. A heap is live (`IsLive`) from the first successful malloc on.
--
-- In the devices an array of Rust is a function from its indices, arithmetic is that of a release
-- build, which wraps and takes the distance of a shift modulo 32, and a mutex makes what is done
-- under it one step. The processor is a parameter, in three records. `CpuCsr` has its control
-- registers, and says that MIP keeps what was written last. `Bus` has its reads and writes, and says
-- that at an address of the main memory they are those of a memory, which is apart from the block
-- device. `Cpu` has both and the other devices, each apart from the others. disk_access needs no
-- fuel, as its loops count. The main loop and the step mode run as long as the steps succeed: they
-- take a number of rounds, of which any that is greater than the rounds made is enough.
--
-- Input is a list of polls, each with what the status register and the data register held at that
-- moment; a program that waits beyond the last poll gives `none`. Results that a program prints are
-- results of its model, and the text around them is left out.
--
-- Not modelled: the formatting library inside c_test/printf.c, a copy of a published one, whose
-- vsnprintf is a parameter of Output; assert_eq, which c_test/op_tests.c uses and no file declares,
-- and the unit that executes the register instructions, which are parameters of OpTests (the
-- record `CsrUnit` says what the tests rely on); the message that a function
-- prints under the macro DEBUG, but for those of debug_heap; c_test/hello.c, c_test/test.c and
-- c_test/float_test.c, which print a text or return a constant; the assembly programs; the processor
-- and the bus of the other package; and of src/main.rs what reads the arguments, which src/cmd.rs
-- declares, and the files, what adds the devices to the processor, and what prints.
pub mod Common
pub mod Memory
pub mod Alloc
pub mod CString
pub mod Str
pub mod Uart
pub mod Standard
pub mod Fib
pub mod Output
pub mod Message
pub mod Vaddr
pub mod OpTests
pub mod Mtest
pub mod Devices
pub mod Emulator
