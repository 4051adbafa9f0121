-- ===== src/Ports/Uart.antt =====
-- `serial_init` on a chip that keeps to the register map of the 16550.
use oke_os.Prelude.{
  ℕ, ◌+◌, ◌*◌, ◌/◌, ◌%◌, ◌≡◌, ◌∙◌, refl, ap, Bool, false, inl, inr, Bool-cases, Option, none, some,
  List, [], ◌∷◌, ◌++◌, arith, ◌==◌, if◌then◌else◌,
}
use oke_os.Ports.{Bus, outbs}
use oke_os.Ports.View.{IsDevice, all_written, view-outbs}
use oke_os.Ports.Serial.{com1, setup, serial_init}

-- The registers. `looped` is the byte that the loopback holds, `sent` the bytes that left the port.
pub record Uart : Type 0 where
  pub interrupts : ℕ
  pub divisor : ℕ
  pub line : ℕ
  pub fifo : ℕ
  pub modem : ℕ
  pub looped : Option ℕ
  pub sent : List ℕ

-- The bit of the line register that puts the divisor in front of the registers 0 and 1.
abbrev pub divisor_access : Uart → Bool
divisor_access u = u.line / 0x80 % 2 == 1

abbrev pub loopback : Uart → Bool
loopback u = u.modem / 0x10 % 2 == 1

pub data Register : Type 0 where
  data_register interrupt_register fifo_register line_register modem_register : Register

abbrev pub offset : Register → ℕ
offset data_register = 0
offset interrupt_register = 1
offset fifo_register = 2
offset line_register = 3
offset modem_register = 4

-- A write to one of the registers, as the data sheet describes it.
abbrev pub written : Register → ℕ → Uart → Uart
written data_register v u =
    if divisor_access u
    then record u { divisor = u.divisor / 256 * 256 + v }
    else if loopback u
    then record u { looped = some v }
    else record u { sent = u.sent ++ v ∷ [] }
written interrupt_register v u =
    if divisor_access u
    then record u { divisor = v * 256 + u.divisor % 256 }
    else record u { interrupts = v }
written fifo_register v u = record u { fifo = v }
written line_register v u = record u { line = v }
written modem_register v u = record u { modem = v }

-- A chip at the port: `view` is its registers, and `echo` what its loopback makes of a byte.
pub record IsUart {S : Type 0} (bus : Bus S) (view : S → Uart) (echo : ℕ → ℕ) : Type 0 where
  pub device : IsDevice (λ r. com1 + offset r) written bus view
  pub returns :
      (v : ℕ) (s : S)
      → (view s).looped ≡ some v
      → divisor_access (view s) ≡ false
      → (bus.inb com1 s).0 ≡ echo v
  pub empties : (s : S) → view (bus.inb com1 s).1 ≡ record (view s) { looped = none }

-- 38400 baud, that is a divisor of 3; eight bits without parity and one stop bit; the queues on.
abbrev pub configured : ℕ → Option ℕ → List ℕ → Uart
configured modem looped sent = record {
  interrupts = 0;
  divisor = 3;
  line = 0x03;
  fifo = 0xC7;
  modem = modem;
  looped = looped;
  sent = sent;
}

-- The writes of `serial_init` by the registers that they go to.
abbrev steps : List (Register × ℕ)
steps =
    (interrupt_register, 0x00)
    ∷ (line_register, 0x80)
    ∷ (data_register, 0x03)
    ∷ (interrupt_register, 0x00)
    ∷ (line_register, 0x03)
    ∷ (fifo_register, 0xC7)
    ∷ (modem_register, 0x0B)
    ∷ (modem_register, 0x1E)
    ∷ (data_register, 0xAE)
    ∷ []

all_written-steps :
    (u : Uart)
    → divisor_access u ≡ false
    → all_written (λ r. com1 + offset r) written steps u ≡ configured 0x1E (some 0xAE) u.sent
all_written-steps u off =
    let old : 0 + (u.divisor / 256 * 256 + 3) % 256 ≡ 3 = omega arith in
    rw off (ap (λ d. record (configured 0x1E (some 0xAE) u.sent) { divisor = d }) old)

module _ {S : Type 0} {bus : Bus S} {view : S → Uart} {echo : ℕ → ℕ}
    (chip : IsUart bus view echo) where
  setup_view :
      (s : S)
      → divisor_access (view s) ≡ false
      → view (outbs bus setup s) ≡ configured 0x1E (some 0xAE) (view s).sent
  unfolding setup
  setup_view s off =
      view-outbs (λ r. com1 + offset r) written chip.device steps s ∙ all_written-steps (view s) off

  -- On a chip that keeps to the register map, with the divisor not in front, `serial_init` reports
  -- whether the byte 0xAE comes back through the loopback, and leaves the port at 38400 baud, eight
  -- bits, no parity, one stop bit, with its interrupts off and nothing sent: out of the loopback
  -- where the byte came back, and in it where it did not.
  pub serial_init-configured :
      (s : S)
      → divisor_access (view s) ≡ false
      → let good = echo 0xAE == 0xAE in
        ((serial_init bus s).0 ≡ (if good then 0 else 1))
        × (view (serial_init bus s).1 ≡ configured (if good then 0x0F else 0x1E) none (view s).sent)
  unfolding serial_init
  serial_init-configured s off =
      let s₁ = outbs bus setup s in
      let ready = setup_view s off in
      let echoes : (bus.inb com1 s₁).0 ≡ echo 0xAE =
        chip.returns 0xAE s₁ (ap (λ u. u.looped) ready) (ap divisor_access ready) in
      let s₂ = (bus.inb com1 s₁).1 in
      let emptied : view s₂ ≡ configured 0x1E none (view s).sent =
        chip.empties s₁ ∙ ap (λ (u : Uart). record u { looped = none }) ready in
      let normal : view (bus.outb (com1 + 4) 0x0F s₂) ≡ configured 0x0F none (view s).sent =
        chip.device.writes modem_register 0x0F s₂
        ∙ ap (λ (u : Uart). record u { modem = 0x0F }) emptied in
      elim (Bool-cases (echo 0xAE == 0xAE)) [
        | inl good ↦ rw (echoes, good) (refl, normal)
        | inr bad ↦ rw (echoes, bad) (refl, emptied)
      ]
