-- ===== src/Ports/Serial.antt =====
-- kernel/lib/serial.cpp: the driver of the first serial port.
use oke_os.Prelude.{
  ℕ, zero, suc, ◌+◌, Option, none, some, List, [], ◌∷◌, bit_and, ◌==◌, if◌then◌else◌,
}
use oke_os.MemLib.{Memory}
use oke_os.Ports.{Bus, Outb, outbs}

-- `PORT`
abbrev pub com1 : ℕ
com1 = 0x3f8

-- The writes in front of the test.
unfoldable pub setup : List Outb
setup =
    record { port = com1 + 1; value = 0x00 }
    ∷ record { port = com1 + 3; value = 0x80 }
    ∷ record { port = com1 + 0; value = 0x03 }
    ∷ record { port = com1 + 1; value = 0x00 }
    ∷ record { port = com1 + 3; value = 0x03 }
    ∷ record { port = com1 + 2; value = 0xC7 }
    ∷ record { port = com1 + 4; value = 0x0B }
    ∷ record { port = com1 + 4; value = 0x1E }
    ∷ record { port = com1 + 0; value = 0xAE }
    ∷ []

module _ {S : Type 0} (bus : Bus S) where
  unfoldable pub serial_init : S → ℕ × S
  unfolding setup outbs
  serial_init s =
      let (returned, s') = bus.inb (com1 + 0) (outbs bus setup s) in
      if returned == 0xAE then (0, bus.outb (com1 + 4) 0x0F s') else (1, s')

  unfoldable pub serial_received : S → ℕ × S
  serial_received s = let (status, s') = bus.inb (com1 + 5) s in (bit_and status 1, s')

  -- The wait is on fuel; no result means that it ran out.
  unfoldable pub serial_read : ℕ → S → Option (ℕ × S)
  unfolding serial_received
  serial_read zero s = none
  serial_read (suc fuel) s =
      let (received, s') = serial_received s in
      let rest = serial_read fuel s' in if received == 0 then rest else some (bus.inb com1 s')

  unfoldable pub is_transmit_empty : S → ℕ × S
  is_transmit_empty s = let (status, s') = bus.inb (com1 + 5) s in (bit_and status 0x20, s')

  unfoldable pub serial_write : ℕ → ℕ → S → Option S
  unfolding is_transmit_empty
  serial_write zero a s = none
  serial_write (suc fuel) a s =
      let (empty, s') = is_transmit_empty s in
      let rest = serial_write fuel a s' in if empty == 0 then rest else some (bus.outb com1 a s')

  -- `polls` is the fuel of each wait.
  unfoldable pub serial_writemany : ℕ → ℕ → ℕ → Memory → S → Option S
  unfolding serial_write
  serial_writemany polls zero a m s = none
  serial_writemany polls (suc fuel) a m s =
      let rest : Option S = elim (serial_write polls (m a) s) [
        | none ↦ none
        | some s' ↦ serial_writemany polls fuel (a + 1) m s'
      ] in
      if m a == 0 then some s else rest
