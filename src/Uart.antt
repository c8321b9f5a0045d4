-- ===== src/Uart.antt =====
-- The serial port of c_test/debug.h (`UART(offset)`): the polls of its status register that find or
-- do not find a character, and the program of c_test/echo_out.c, which echoes in upper case.
pub mod Echo
mod Tests
use rv32_emulator.Common.{
  ℕ, ◌+◌, ◌-◌, ◌%◌, ◌^◌, u8, Bool, ◌&&◌, List, [], ◌∷◌, Option, none, some, leb, ◌==◌,
  if◌then◌else◌,
}

-- One read of the status `UART(5)`, and the byte that `UART(0)` holds at that moment.
pub record Poll : Type 0 where
  pub status : ℕ
  pub received : ℕ

-- `(UART(5) & 1) == 0`
abbrev pub is_idle : Poll → Bool
is_idle p = p.status % 2 == 0

-- The two lines that change a character: `c + 'A' - 'a'` is cut to a byte.
pub echo_char : ℕ → ℕ
echo_char c = if leb b'a' c && leb c b'z' then u8 (c + b'A' - b'a') else c

-- `main` of echo_out.c over the polls that happen: the bytes that it writes to `UART(0)`.
pub echo : List Poll → List ℕ
unfolding echo_char
echo [] = []
echo (p ∷ ps) = let rest = echo ps in if is_idle p then rest else echo_char p.received ∷ rest
