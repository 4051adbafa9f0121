-- ===== src/Examples/Ports.antt =====
-- Concrete runs for kernel/lib/serial.cpp and kernel/idt/pic.cpp, on devices that keep to their laws.
use oke_os.Prelude.{
  ℕ, ◌+◌, ◌-◌, ◌≡◌, refl, ap, Option, none, some, List, [], ◌∷◌, ◌++◌, arith, ◌==◌, if◌then◌else◌,
  codes,
}
use oke_os.MemLib.{Memory}
use oke_os.Debug.{c_string}
use oke_os.Ports.{Bus}
use oke_os.Ports.Serial.{com1, serial_init, serial_writemany}
use oke_os.Ports.Uart.{
  Uart, Register, offset, written, IsUart, configured, serial_init-configured, data_register,
  interrupt_register, fifo_register, line_register, modem_register,
}
use oke_os.Ports.Line.{Transmits, Sent, serial_writemany-Sent}
use oke_os.Ports.Pic.{disable_pic}
use oke_os.Ports.Chips.{
  Chip, Target, port_of, the_mode, master_command, master_data, slave_command, slave_data, reached,
  masked, disable_pic-masked,
}

-- A chip whose loopback works.
abbrev uart_bus : Bus Uart
uart_bus = record {
  outb = λ p v u.
      if p == com1
      then written data_register v u
      else if p == com1 + 1
      then written interrupt_register v u
      else if p == com1 + 2
      then written fifo_register v u
      else if p == com1 + 3
      then written line_register v u
      else written modem_register v u;
  inb = λ p u. (elim u.looped [ none ↦ 0 | some v ↦ v ], record u { looped = none });
  inw = λ p u. (0, u);
}

uart_writes :
    (r : Register) (v : ℕ) (u : Uart) → uart_bus.outb (com1 + offset r) v u ≡ written r v u
uart_writes data_register v u = refl
uart_writes interrupt_register v u = refl
uart_writes fifo_register v u = refl
uart_writes line_register v u = refl
uart_writes modem_register v u = refl

uart_bus-IsUart : IsUart uart_bus (λ u. u) (λ v. v)
uart_bus-IsUart = record {
  device = record { writes = uart_writes };
  returns = λ v u e d. ap (λ (o : Option ℕ). elim o as (λ x. ℕ) [ none ↦ 0 | some v ↦ v ]) e;
  empties = λ u. refl;
}

abbrev fresh_uart : Uart
fresh_uart = record {
  interrupts = 15;
  divisor = 12;
  line = 0;
  fifo = 0;
  modem = 0;
  looped = none;
  sent = [];
}

serial_init-configured_example :
    ((serial_init uart_bus fresh_uart).0 ≡ 0)
    × ((serial_init uart_bus fresh_uart).1 ≡ configured 0x0F none [])
serial_init-configured_example = serial_init-configured uart_bus-IsUart fresh_uart refl

-- A transmitter that is busy for two reads of its status, with the bytes it took.
abbrev line_bus : Bus (List ℕ × ℕ)
line_bus = record {
  outb = λ p v (sent, pending). (if pending == 0 then sent ++ v ∷ [] else sent, 2);
  inb = λ p (sent, pending). (if pending == 0 then 0x20 else 0, (sent, pending - 1));
  inw = λ p s. (0, s);
}

line_bus-Transmits : Transmits line_bus (λ (sent, pending). sent) (λ (sent, pending). pending) 2
line_bus-Transmits = record {
  status = λ (sent, pending). ground arith;
  polled = λ s. refl;
  unsent = λ s. refl;
  takes = λ v s e. rw e refl;
  busy = λ v s. omega arith;
}

-- "hi" at the address 0.
abbrev hi_memory : Memory
hi_memory a = if a == 0 then 0x68 else if a == 1 then 0x69 else 0

hi_string : c_string 3 0 hi_memory ≡ some (codes "hi")
unfolding c_string
hi_string = refl

serial_writemany-Sent_example :
    Sent
      (λ (sent, pending). sent)
      (λ (sent, pending). pending)
      2
      (codes "hi")
      (serial_writemany line_bus 3 3 0 hi_memory ([], 0))
serial_writemany-Sent_example =
    serial_writemany-Sent line_bus-Transmits 3 0 hi_memory ([], 0) hi_string (omega arith)

abbrev pair_bus : Bus (Chip × Chip)
pair_bus = record {
  outb = λ p v s.
      if p == 0x20
      then reached master_command v s
      else if p == 0x21
      then reached master_data v s
      else if p == 0xA0
      then reached slave_command v s
      else reached slave_data v s;
  inb = λ p s. (0, s);
  inw = λ p s. (0, s);
}

-- A controller that was left in the middle of its initialization.
abbrev old_chip : Chip
old_chip = record { expects = the_mode; base = 8; cascade = 0; mode = 0; mask = 0 }

pair_writes : (t : Target) (v : ℕ) (s : Chip × Chip) → pair_bus.outb (port_of t) v s ≡ reached t v s
pair_writes master_command v s = refl
pair_writes master_data v s = refl
pair_writes slave_command v s = refl
pair_writes slave_data v s = refl

disable_pic-masked_example :
    disable_pic pair_bus (old_chip, old_chip) ≡ (masked 0x20 0x04, masked 0x28 0x02)
disable_pic-masked_example =
    disable_pic-masked {S = Chip × Chip} {bus = pair_bus} {view = λ s. s}
      (record { writes = pair_writes }) (old_chip, old_chip)
