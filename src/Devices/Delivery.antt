-- ===== src/Devices/Delivery.antt =====
-- The emulated serial port, its thread, and a guest that polls it as the programs of c_test do, in
-- any order of their steps.
use mathlib.Core.List.{append_assoc, append-nil}
use rv32_emulator.Common.{
  ℕ, ◌%◌, ◌≡◌, refl, ◌∙◌, sym, ap, arith, true, false, List, [], ◌∷◌, ◌++◌, length, ◌≤◌, Bool-cases,
  inl, inr, if◌then◌else◌, set_bit, clear_bit, test_bit, test_bit-zero, test_bit-set_bit_self,
  test_bit-clear_bit_self,
}
use rv32_emulator.Uart.{Poll, is_idle, echo}
use rv32_emulator.Uart.Echo.{found, AreUpperCase, echo-AreUpperCase}
use rv32_emulator.Devices.{put, done}
use rv32_emulator.Devices.Uart.{
  Uart, uart_lsr, new, load, store, deliver, Reader, Input, got, at_end, failed, take_input,
}

-- Between `while ((UART(5) & 1) == 0)` and `UART(0)` the guest has seen a status with the bit RX.
pub data Guest : Type 0 where
  polling : Guest
  ready : (status : ℕ) → Guest

-- `accepted` are the bytes of the reads that have succeeded, `polls` what the guest has polled, each
-- the oldest first.
pub record System : Type 0 where
  pub device : Uart
  pub reader : Reader
  pub guest : Guest
  pub accepted : List ℕ
  pub polls : List Poll

-- What a read adds to the input: at its end the byte that is still in the buffer.
abbrev pub added : Input → Reader → List ℕ
added (got c) r = c ∷ []
added at_end r = r.byte ∷ []
added failed r = []

pub data Step (s : System) : System → Type 0 where
  read :
      (i : Input)
      → s.reader.holds ≡ false
      → Step s
          (record s { reader = take_input i s.reader; accepted = s.accepted ++ added i s.reader })
  offer :
      s.reader.holds ≡ true
      → test_bit 0 (s.device.mem uart_lsr) ≡ false
      → Step s (record s {
        device = deliver s.reader.byte s.device;
        reader = record { byte = s.reader.byte; holds = false };
      })
  poll_idle :
      {status : ℕ} {u : Uart}
      → s.guest ≡ polling
      → load true uart_lsr s.device ≡ done (status, u)
      → status % 2 ≡ 0
      → Step s (record s {
        device = u;
        polls = s.polls ++ record { status = status; received = s.device.mem 0 } ∷ [];
      })
  poll_ready :
      {status : ℕ} {u : Uart}
      → s.guest ≡ polling
      → load true uart_lsr s.device ≡ done (status, u)
      → status % 2 ≡ 1
      → Step s (record s { device = u; guest = ready status })
  take :
      {status byte : ℕ} {u : Uart}
      → s.guest ≡ ready status
      → load true 0 s.device ≡ done (byte, u)
      → Step s (record s {
        device = u;
        guest = polling;
        polls = s.polls ++ record { status = status; received = byte } ∷ [];
      })
  print :
      (value : ℕ) {u : Uart} {out : List ℕ}
      → store true 0 value s.device ≡ done (u, out)
      → Step s (record s { device = u })

abbrev pub initial : System
initial = record {
  device = new;
  reader = record { byte = 0; holds = false };
  guest = polling;
  accepted = [];
  polls = [];
}

pub data Reach : System → Type 0 where
  start : Reach initial
  next : {s t : System} → Reach s → Step s t → Reach t

-- The byte in the register that the guest has not yet taken, and the one that the thread holds.
abbrev pub in_slot : Uart → List ℕ
in_slot u = if test_bit 0 (u.mem uart_lsr) then u.mem 0 ∷ [] else []

abbrev pub in_thread : Reader → List ℕ
in_thread r = if r.holds then r.byte ∷ [] else []

abbrev pub in_flight : System → List ℕ
in_flight s = in_slot s.device ++ in_thread s.reader

abbrev IsSeen : Guest → Uart → Type 0
IsSeen polling u = Unit {0}
IsSeen (ready status) u = (status % 2 ≡ 1) × (test_bit 0 (u.mem uart_lsr) ≡ true)

abbrev Delivered : System → Type 0
Delivered s = (found s.polls ++ in_flight s ≡ s.accepted) × IsSeen s.guest s.device

found-snoc : (ps : List Poll) (p : Poll) → found (ps ++ p ∷ []) ≡ found ps ++ found (p ∷ [])
found-snoc [] p = refl
found-snoc (q ∷ ps) p = elim (Bool-cases (is_idle q)) [
  | inl idle ↦ rw idle (found-snoc ps p)
  | inr other ↦ rw other (rw (found-snoc ps p))
]

in_thread-take_input :
    (i : Input) (r : Reader) → r.holds ≡ false → in_thread (take_input i r) ≡ added i r
unfolding take_input
in_thread-take_input (got c) r free = refl
in_thread-take_input at_end r free = refl
in_thread-take_input failed r free = rw free

in_slot-deliver : (byte : ℕ) (u : Uart) → in_slot (deliver byte u) ≡ byte ∷ []
unfolding deliver
in_slot-deliver byte u = rw (test_bit-set_bit_self 0 (u.mem uart_lsr)) refl

IsSeen-deliver : (byte : ℕ) (g : Guest) (u : Uart) → IsSeen g u → IsSeen g (deliver byte u)
unfolding deliver
IsSeen-deliver byte polling u h = tt
IsSeen-deliver byte (ready status) u h = (h.0, test_bit-set_bit_self 0 (u.mem uart_lsr))

-- What the accesses of the guest give.
load-lsr :
    {status : ℕ} {u : Uart} (d : Uart)
    → load true uart_lsr d ≡ done (status, u)
    → (status ≡ d.mem uart_lsr) × (u ≡ d)
unfolding load
load-lsr d run = (cc, cc)

cleared : Uart → Uart
cleared d = record d { mem = put uart_lsr (clear_bit 0 (d.mem uart_lsr)) d.mem }

load-rhr :
    {byte : ℕ} {u : Uart} (d : Uart)
    → load true 0 d ≡ done (byte, u)
    → (byte ≡ d.mem 0) × (u ≡ cleared d)
unfolding load cleared
load-rhr d run = (cc, cc)

store-thr :
    {u : Uart} {out : List ℕ} (value : ℕ) (d : Uart) → store true 0 value d ≡ done (u, out) → u ≡ d
unfolding store
store-thr value d run = cc

in_slot-cleared : (d : Uart) → in_slot (cleared d) ≡ []
unfolding cleared
in_slot-cleared d = rw (test_bit-clear_bit_self 0 (d.mem uart_lsr)) refl

has_rx : (x : ℕ) → x % 2 ≡ 1 → test_bit 0 x ≡ true
has_rx x h = test_bit-zero x ∙ ground arith

Step-Delivered : {s t : System} → Step s t → Delivered s → Delivered t
Step-Delivered {s} (read i free) d =
    let before : in_thread s.reader ≡ [] = rw free refl in
    let slot = in_slot s.device in
    let whole : found s.polls ++ slot ≡ s.accepted = rw (before, append-nil) at (d.0) in
    (
      rw (in_thread-take_input i s.reader free) (
          sym (append_assoc (found s.polls) slot (added i s.reader))
          ∙ ap (λ (l : List ℕ). l ++ added i s.reader) whole),
      d.1,
    )
Step-Delivered {s} (offer holds empty) d =
    let slot : in_slot s.device ≡ [] = rw empty refl in
    let thread : in_thread s.reader ≡ s.reader.byte ∷ [] = rw holds refl in
    (
      rw (in_slot-deliver s.reader.byte s.device) (rw (slot, thread) at (d.0)),
      IsSeen-deliver s.reader.byte s.guest s.device (d.1),
    )
Step-Delivered {s} (poll_idle {status} g run idle) d =
    let (e, same) = load-lsr s.device run in
    let p : Poll = record { status = status; received = s.device.mem 0 } in
    let nothing : found (p ∷ []) ≡ [] = ground arith in
    rw same (rw (found-snoc s.polls p) (rw nothing (rw append-nil (d.0))), d.1)
Step-Delivered {s} (poll_ready {status} g run rx) d =
    let (e, same) = load-lsr s.device run in rw same (d.0, (rx, rw (← e) (has_rx status rx)))
Step-Delivered {s} (take {status} {byte} g run) d =
    let (e, after) = load-rhr s.device run in
    let seen : IsSeen (ready status) s.device = rw g at (d.1) in
    let p : Poll = record { status = status; received = byte } in
    let one : found (p ∷ []) ≡ byte ∷ [] = ground (arith, seen.0) in
    let slot : in_slot s.device ≡ byte ∷ [] = rw (seen.1) (rw e refl) in
    (
      rw after (
          rw (found-snoc s.polls p) (
            rw (one, in_slot-cleared s.device)
              (append_assoc (found s.polls) (byte ∷ []) (in_thread s.reader) ∙ rw slot at (d.0)))),
      tt,
    )
Step-Delivered {s} (print value run) d = rw (store-thr value s.device run) d

in_flight-initial : in_flight initial ≡ []
unfolding new test_bit set_bit
in_flight-initial = refl

Reach-Delivered : {s : System} → Reach s → Delivered s
Reach-Delivered start = (in_flight-initial, tt)
Reach-Delivered (next r st) = Step-Delivered st (Reach-Delivered r)

-- In whatever order the thread that reads the standard input and a guest that polls the port take
-- their steps: what the guest has received, followed by the byte in the register and the byte that
-- the thread holds, if there are any, is what the reads have brought. No byte is lost, repeated by
-- the port, or overtaken.
pub delivery : {s : System} → Reach s → found s.polls ++ in_flight s ≡ s.accepted
delivery r = (Reach-Delivered r).0

-- So the echo program of c_test/echo_out.c, run on the emulated port, has written in upper case, byte
-- for byte, what the reads have brought, but for at most two bytes at its end that are still on the
-- way: small letters as the capitals with the same place in the alphabet, and other bytes as they are.
pub delivery-echo :
    {s : System}
    → Reach s
    → (received : List ℕ) × (received ++ in_flight s ≡ s.accepted)
      × AreUpperCase received (echo s.polls)
      × (length (in_flight s) ≤ 2)
delivery-echo {s} r = (found s.polls, delivery r, echo-AreUpperCase s.polls, ground arith)
