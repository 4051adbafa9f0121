-- ===== src/Ports/Line.antt =====
-- The waits of the serial driver, on a line that takes and brings one byte at a time.
use oke_os.Prelude.{
  ℕ, zero, suc, ◌+◌, ◌-◌, ◌≤◌, ◌<◌, ◌≡◌, ◌∙◌, refl, sym, ap, inl, inr, Bool-cases, Option, some,
  List, [], ◌∷◌, ◌++◌, arith, ◌==◌, bit_and, if◌then◌else◌,
}
use mathlib.Core.List.{append-nil, append_assoc}
use oke_os.MemLib.{Memory}
use oke_os.Debug.{c_string}
use oke_os.Debug.Text.{string_cases}
use oke_os.Ports.{Bus}
use oke_os.Ports.Serial.{
  com1, serial_received, serial_read, is_transmit_empty, serial_write, serial_writemany,
}

-- What the driver sees of the transmitter: the bytes that it took, and how often its status still
-- reads as busy. A byte that is written while it is busy is lost, and no promise is made of it. Each
-- byte is gone after `latency` reads of the status.
pub record Transmits {S : Type 0} (bus : Bus S) (sent : S → List ℕ) (pending : S → ℕ) (latency : ℕ)
    : Type 0 where
  pub status :
      (s : S) → bit_and (bus.inb (com1 + 5) s).0 0x20 ≡ (if pending s == 0 then 0x20 else 0)
  pub polled : (s : S) → pending (bus.inb (com1 + 5) s).1 ≡ pending s - 1
  pub unsent : (s : S) → sent (bus.inb (com1 + 5) s).1 ≡ sent s
  pub takes : (v : ℕ) (s : S) → pending s ≡ 0 → sent (bus.outb com1 v s) ≡ sent s ++ v ∷ []
  pub busy : (v : ℕ) (s : S) → pending (bus.outb com1 v s) ≤ latency

-- The driver came back, with these bytes taken.
pub record Sent {S : Type 0} (sent : S → List ℕ) (pending : S → ℕ) (latency : ℕ) (text : List ℕ)
    (r : Option S) : Type 0 where
  pub after : S
  pub returns : r ≡ some after
  pub taken : sent after ≡ text
  pub settles : pending after ≤ latency

module _ {S : Type 0} {bus : Bus S} {sent : S → List ℕ} {pending : S → ℕ} {latency : ℕ}
    (line : Transmits bus sent pending latency) where
  serial_write-Sent :
      (fuel a : ℕ) (s : S)
      → pending s < fuel
      → Sent sent pending latency (sent s ++ a ∷ []) (serial_write bus fuel a s)
  unfolding serial_write is_transmit_empty
  serial_write-Sent zero a s h = absurd (omega arith)
  serial_write-Sent (suc fuel) a s h =
      let s' = (bus.inb (com1 + 5) s).1 in
      elim (Bool-cases (pending s == 0)) [
        | inl idle ↦
            let status : bit_and (bus.inb (com1 + 5) s).0 0x20 ≡ 0x20 =
              line.status s ∙ rw idle refl in
            let over : pending s ≡ 0 = ground arith in
            rw status (record {
              after = bus.outb com1 a s';
              returns = refl;
              taken =
                  line.takes a s' (omega (arith, line.polled s, over))
                  ∙ ap (λ text. text ++ a ∷ []) (line.unsent s);
              settles = line.busy a s';
            })
        | inr busy ↦
            let status : bit_and (bus.inb (com1 + 5) s).0 0x20 ≡ 0 = line.status s ∙ rw busy refl in
            let waits : 0 < pending s = ground arith in
            let rest = serial_write-Sent fuel a s' (omega (arith, line.polled s, waits)) in
            rw status (record {
              after = rest.after;
              returns = rest.returns;
              taken = rest.taken ∙ ap (λ text. text ++ a ∷ []) (line.unsent s);
              settles = rest.settles;
            })
      ]

  -- On a transmitter that is idle again after `latency` reads of its status, and loses a byte that
  -- is written before, `serial_writemany` comes back, and every byte of the string was taken, in
  -- order.
  pub serial_writemany-Sent :
      (fuel a : ℕ) (m : Memory) (s : S) {text : List ℕ}
      → c_string fuel a m ≡ some text
      → pending s ≤ latency
      → Sent sent pending latency (sent s ++ text) (serial_writemany bus (latency + 1) fuel a m s)
  unfolding serial_writemany c_string
  serial_writemany-Sent zero a m s e h = absurd cc
  serial_writemany-Sent (suc fuel) a m s {text} e h = elim (string_cases fuel a m e) [
    | inl (ends, empty) ↦
        rw (ends, empty)
          (record { after = s; returns = refl; taken = sym (append-nil (sent s)); settles = h })
    | inr (goes, rest, later, more) ↦
        let first = serial_write-Sent (latency + 1) (m a) s (omega arith) in
        let others = serial_writemany-Sent fuel (a + 1) m first.after later first.settles in
        rw (goes, first.returns)
          (record {
            after = others.after;
            returns = others.returns;
            taken =
                others.taken
                ∙ ap (λ front. front ++ rest) first.taken
                ∙ append_assoc (sent s) (m a ∷ []) rest
                ∙ ap (λ text. sent s ++ text) (sym more);
            settles = others.settles;
          })
  ]

-- What the driver sees of the receiver: how often the status still reads as empty, and the byte that
-- comes.
pub record Receives {S : Type 0} (bus : Bus S) (missing coming : S → ℕ) : Type 0 where
  pub status : (s : S) → bit_and (bus.inb (com1 + 5) s).0 1 ≡ (if missing s == 0 then 1 else 0)
  pub polled : (s : S) → missing (bus.inb (com1 + 5) s).1 ≡ missing s - 1
  pub kept : (s : S) → coming (bus.inb (com1 + 5) s).1 ≡ coming s
  pub brings : (s : S) → missing s ≡ 0 → (bus.inb com1 s).0 ≡ coming s

-- `serial_read` comes back once a byte has come, with that byte.
pub serial_read-Receives :
    {S : Type 0} {bus : Bus S} {missing coming : S → ℕ}
    → Receives bus missing coming
    → (fuel : ℕ) (s : S) → missing s < fuel
    → (s' : S) × (serial_read bus fuel s ≡ some (coming s, s'))
unfolding serial_read serial_received
serial_read-Receives line zero s h = absurd (omega arith)
serial_read-Receives {bus = bus} {missing} {coming} line (suc fuel) s h =
    let s' = (bus.inb (com1 + 5) s).1 in
    elim (Bool-cases (missing s == 0)) [
      | inl there ↦
          let status : bit_and (bus.inb (com1 + 5) s).0 1 ≡ 1 = line.status s ∙ rw there refl in
          let over : missing s ≡ 0 = ground arith in
          let byte : (bus.inb com1 s').0 ≡ coming s =
            line.brings s' (omega (arith, line.polled s, over)) ∙ line.kept s in
          rw status ((bus.inb com1 s').1, ap (λ v. some (v, (bus.inb com1 s').1)) byte)
      | inr waits ↦
          let status : bit_and (bus.inb (com1 + 5) s).0 1 ≡ 0 = line.status s ∙ rw waits refl in
          let more : 0 < missing s = ground arith in
          let (s'', e) = serial_read-Receives line fuel s' (omega (arith, line.polled s, more)) in
          rw status (s'', e ∙ ap (λ v. some (v, s'')) (line.kept s))
    ]
