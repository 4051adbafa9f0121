-- ===== src/Acpi/Enable.antt =====
-- The switch to ACPI mode.
use mathlib.Core.Path.{subst}
use oke_os.Prelude.{
  ◌⊎◌, ◌+◌, ◌-◌, ◌*◌, ◌/◌, ◌^◌, u16, ℕ, suc, ◌<◌, ◌≡◌, ◌≢◌, refl, inl, inr, Bool-cases, ◌==◌,
  Option, none, some, arith, if◌then◌else◌,
}
use oke_os.Prelude.Bits.{bit_and-zero}
use oke_os.MemLib.{Memory}
use oke_os.Ports.{Bus}
use oke_os.PageFrame.{Outcome, Panic, done, panicked, facp_missing, out_of_memory, mapping_failure}
use oke_os.Paging.{Machine, ◌>>=◌}
use oke_os.Strings.{above, strncmp}
use oke_os.Acpi.{
  find_table, read32, entry_count, pointer, smi_command_port, acpi_enable, pm1a_control_block,
  wait_loop, acpi_init,
}
use oke_os.Acpi.Search.{pointed, Searched, halted, missing, found, find_table-Searched}

-- The entries of a list of tables: what is left of its length, behind the 36 bytes of its header, in
-- units of four bytes.
abbrev pub entries : ℕ → Memory → ℕ
entries rsdt m = (read32 m (rsdt + 4) - 36) / 4

-- A number of two bytes, the lowest first.
abbrev pub word_at : Memory → ℕ → ℕ
word_at m a = m a + 256 * m (a + 1)

entry_count-entries :
    (rsdt : ℕ) (m : Memory) → ((q : ℕ) → m q < 256) → entry_count rsdt m ≡ entries rsdt m
unfolding entry_count
entry_count-entries rsdt m bytes =
    let low : read32 m (rsdt + 4) < 2 ^ 32 =
      omega (
        arith,
        bytes (rsdt + 4),
        bytes (rsdt + 4 + 1),
        bytes (rsdt + 4 + 2),
        bytes (rsdt + 4 + 3),
      ) in
    ground (arith, low)

u16-read32 : (m : Memory) (a : ℕ) → ((q : ℕ) → m q < 256) → u16 (read32 m a) ≡ word_at m a
u16-read32 m a bytes = omega (arith, bytes a, bytes (a + 1), bytes (a + 2), bytes (a + 3))

-- The entry `i` of the list is the first that points to a table with the signature.
pub record First (signature rsdt : ℕ) (m : Memory) (i : ℕ) : Type 0 where
  pub in_list : i < entries rsdt m
  pub matches : strncmp (pointed rsdt i m) signature 4 m ≡ above 0
  pub earlier : (k : ℕ) → k < i → strncmp (pointed rsdt k m) signature 4 m ≢ above 0

-- The devices after the switch: the byte 52 of the table is written to the port at its offset 48, and
-- the port at its offset 64 is read.
abbrev pub switched : {S : Type 0} → Bus S → ℕ → Memory → S → S
switched bus facp m s =
    (bus.inw (word_at m (facp + 64)) (bus.outb (word_at m (facp + 48)) (m (facp + 52)) s)).1

-- The end of `ACPI::init`: a mapping panics; no table has the signature, or the first is at NULL,
-- and it panics; or it switches the mode by the first.
pub data Initialized {S : Type 0} (bus : Bus S) (signature rsdt : ℕ) (m : Memory) (s : S)
    : Outcome (Option (ℕ × Machine × S)) → Type 0 where
  unmapped :
      (p : Panic)
      → (p ≡ out_of_memory) ⊎ (p ≡ mapping_failure)
      → Initialized bus signature rsdt m s (panicked p)
  no_table :
      ((k : ℕ) → k < entries rsdt m → strncmp (pointed rsdt k m) signature 4 m ≢ above 0)
      → Initialized bus signature rsdt m s (panicked facp_missing)
  at_null :
      (i : ℕ)
      → First signature rsdt m i
      → pointed rsdt i m ≡ 0
      → Initialized bus signature rsdt m s (panicked facp_missing)
  enabled :
      (i : ℕ) (machine' : Machine)
      → First signature rsdt m i
      → pointed rsdt i m ≢ 0
      → Initialized bus signature rsdt m s
          (done (some (pointed rsdt i m, machine', switched bus (pointed rsdt i m) m s)))

wait_loop_once :
    {S : Type 0} (bus : Bus S) (fuel port : ℕ) (s : S)
    → wait_loop bus (suc fuel) port s ≡ some (bus.inw port s).1
unfolding wait_loop
wait_loop_once bus fuel port s = rw (bit_and-zero (bus.inw port s).0) refl

-- What `ACPI::init` does behind the search.
module _ {S : Type 0} (bus : Bus S) (fuel : ℕ) (m : Memory) (s : S)
    (bytes : (q : ℕ) → m q < 256) where
  abbrev switch : Option ℕ × Machine → Outcome (Option (ℕ × Machine × S))
  switch (table, machine') =
      let facp = pointer table in
      if facp == 0
      then panicked facp_missing
      else (let s' = bus.outb (smi_command_port facp m) (acpi_enable facp m) s in
          done (elim (wait_loop bus (suc fuel) (pm1a_control_block facp m) s') [
            | none ↦ none
            | some s'' ↦ some (facp, machine', s'')
          ]))

  Searched-Initialized :
      (signature rsdt : ℕ) {r : Outcome (Option ℕ × Machine)}
      → Searched signature rsdt 0 (entries rsdt m) m r
      → Initialized bus signature rsdt m s (r >>= switch)
  Searched-Initialized signature rsdt (halted p e) = unmapped p e
  Searched-Initialized signature rsdt (missing machine' others) =
      no_table (λ k l. others k (omega arith) l)
  Searched-Initialized signature rsdt (found machine' i l e others) =
      let facp = pointed rsdt i m in
      let first : First signature rsdt m i = record {
        in_list = l;
        matches = e;
        earlier = λ k h. others k (omega arith) h;
      } in
      elim (Bool-cases (facp == 0)) [
        | inl null ↦ let z : facp ≡ 0 = ground arith in rw null (at_null i first z)
        | inr there ↦
            let nz : facp ≢ 0 = ground arith in
            rw
              (
                there,
                wait_loop_once bus fuel (pm1a_control_block facp m)
                    (bus.outb (smi_command_port facp m) (acpi_enable facp m) s),
              )
              (rw (u16-read32 m (facp + 48) bytes, u16-read32 m (facp + 64) bytes)
                (enabled i machine' first nz))
      ]

-- `ACPI::init` panics where a mapping does, or where there is no table with the signature at an
-- address other than NULL; or else it writes the byte of the first such table to its command port
-- and reads the control register once, whatever the register says: one round of fuel is enough for
-- a loop that never waits.
pub acpi_init-Initialized :
    {S : Type 0} (bus : Bus S) (fuel pml4 signature rsdt : ℕ) (m : Memory) (machine : Machine)
    (s : S)
    → ((q : ℕ) → m q < 256)
    → Initialized bus signature rsdt m s (acpi_init bus (suc fuel) pml4 signature rsdt m machine s)
unfolding acpi_init
acpi_init-Initialized bus fuel pml4 signature rsdt m machine s bytes =
    Searched-Initialized bus fuel m s bytes signature rsdt (
      subst (λ n. Searched signature rsdt 0 n m (find_table pml4 signature rsdt m machine))
        (entry_count-entries rsdt m bytes) (find_table-Searched pml4 signature rsdt m machine))
