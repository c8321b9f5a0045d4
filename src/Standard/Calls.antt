-- ===== src/Standard/Calls.antt =====
-- The standard functions of c_test/standard.c and c_test/signal.c that have no effect, and those that
-- end the program.
use rv32_emulator.Common.{ℕ}
use rv32_emulator.Alloc.{null}

-- A call with its arguments; those of a variable argument list and callbacks are addresses.
pub data Call : Type 0 where
  exit : (status : ℕ) → Call
  atexit : (func : ℕ) → Call
  fopen : (filename mode : ℕ) → Call
  fclose : (stream : ℕ) → Call
  fread : (ptr size nmemb stream : ℕ) → Call
  fwrite : (ptr size nmemb stream : ℕ) → Call
  fprintf : (stream format : ℕ) → Call
  fscanf : (stream format : ℕ) → Call
  isoc99_vsscanf : (str format ap : ℕ) → Call
  isoc99_vfscanf : (stream format ap : ℕ) → Call
  vfscanf : (stream format ap : ℕ) → Call
  vsscanf : (str format ap : ℕ) → Call
  setjmp_tag : (env : ℕ) → Call
  setjmp : (env : ℕ) → Call
  longjmp : (env val : ℕ) → Call

-- A call returns, or stops at a breakpoint, or goes round for ever.
pub data Outcome : Type 0 where
  returns : ℕ → Outcome
  at_breakpoint : Outcome
  for_ever : Outcome

pub call : Call → Outcome
call (exit status) = at_breakpoint
call (atexit func) = returns 0
call (fopen filename mode) = returns null
call (fclose stream) = returns 0
call (fread ptr size nmemb stream) = returns 0
call (fwrite ptr size nmemb stream) = returns 0
call (fprintf stream format) = returns 0
call (fscanf stream format) = returns 0
call (isoc99_vsscanf str format ap) = returns 0
call (isoc99_vfscanf stream format ap) = returns 0
call (vfscanf stream format ap) = returns 0
call (vsscanf str format ap) = returns 0
call (setjmp_tag env) = returns 0
call (setjmp env) = returns 0
call (longjmp env val) = for_ever

pub signal : (signum handler : ℕ) → ℕ
signal signum handler = null

pub raise : (signum : ℕ) → ℕ
raise signum = 0
