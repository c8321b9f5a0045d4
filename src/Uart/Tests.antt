-- ===== src/Uart/Tests.antt =====
-- A run of `echo_out`, and its theorem.
use rv32_emulator.Common.{◌≡◌, refl, List, [], ◌∷◌}
use rv32_emulator.Uart.{Poll, echo}

abbrev polls : List Poll
polls =
    record { status = 0; received = 0 }
    ∷ record { status = 0x61; received = b'a' }
    ∷ record { status = 0x60; received = b'a' }
    ∷ record { status = 1; received = b'!' }
    ∷ []

echoed : echo polls ≡ b'A' ∷ b'!' ∷ []
unfolding echo
echoed = refl
