-- ===== src/Output.antt =====
-- The output functions that c_test/printf.c adds to the formatting library which it contains. The
-- library's `vsnprintf` is a parameter; the bytes that reach `UART(0)` are a list, the oldest first.
pub mod Written
use rv32_emulator.Common.{
  ℕ, zero, suc, ◌+◌, ◌-◌, ◌^◌, u8, add32, and_then, Option, none, some, List, [], ◌∷◌, ◌++◌, ◌==◌,
  if◌then◌else◌,
}
use rv32_emulator.Memory.{Bytes}
use rv32_emulator.Alloc.{null}

abbrev pub Serial : Type 0
Serial = List ℕ

-- `_putchar(character)`: the argument is cut to a `char`.
unfoldable pub put_character : ℕ → Serial → Serial
put_character c out = out ++ u8 c ∷ []

unfoldable pub putchar : ℕ → Serial → ℕ × Serial
putchar c out = (0, put_character c out)

-- `while (*s) _putchar(*s++);`
pub put_string : (fuel s : ℕ) → Bytes → Serial → Option Serial
put_string zero s m out = none
put_string (suc fuel) s m out =
    let rest = put_string fuel (add32 s 1) m (put_character (m s) out) in
    if m s == 0 then some out else rest

pub puts : (fuel s : ℕ) → Bytes → Serial → Option (ℕ × Serial)
unfolding put_string
puts fuel s m out = and_then (put_string fuel s m out) λ out'. some (0, put_character b'\n' out')

pub fputc : (c stream : ℕ) → Serial → ℕ × Serial
fputc c stream out = (c, put_character c out)

pub fputs : (fuel s stream : ℕ) → Bytes → Serial → Option (ℕ × Serial)
unfolding put_string
fputs fuel s stream m out = and_then (put_string fuel s m out) λ out'. some (0, out')

-- `(size_t)-1`
abbrev pub size_max : ℕ
size_max = 2 ^ 32 - 1

module _ {Args : Type 0} (vsnprintf : (buffer count format : ℕ) → Args → Bytes → ℕ × Bytes) where
  pub vsprintf : (buffer format : ℕ) → Args → Bytes → ℕ × Bytes
  vsprintf buffer format va m = vsnprintf buffer size_max format va m

  pub vfprintf : (stream format : ℕ) → Args → Bytes → ℕ × Bytes
  vfprintf stream format va m = vsnprintf null size_max format va m

-- The calls on files, which this runtime does not have.
pub data FileCall : Type 0 where
  fflush : (stream : ℕ) → FileCall
  popen : (command mode : ℕ) → FileCall
  pclose : (stream : ℕ) → FileCall
  fseek : (stream offset whence : ℕ) → FileCall
  ftell : (stream : ℕ) → FileCall
  feof : (stream : ℕ) → FileCall

-- What they return: NULL or 0, whatever their arguments.
pub file_call : FileCall → ℕ
file_call (fflush stream) = 0
file_call (popen command mode) = null
file_call (pclose stream) = 0
file_call (fseek stream offset whence) = 0
file_call (ftell stream) = 0
file_call (feof stream) = 0
