-- ===== src/Acpi.antt =====
-- kernel/acpi/acpi.cpp: the checksum of a table, the search for one, and the switch to ACPI mode. `memory` is what the
-- tables of the firmware hold; the search maps each table before it reads it. Tables are taken to be
-- shorter than 2 ^ 31 bytes, so that the `int` counter of the checksum does not overflow. The
-- messages of the logger are left out.
pub mod Checksum
pub mod Search
pub mod Enable
use oke_os.Prelude.{
  ℕ, zero, suc, ◌+◌, ◌-◌, ◌*◌, ◌/◌, ◌%◌, ◌^◌, Bool, true, false, Option, none, some, ◌==◌,
  if◌then◌else◌, ltb, bit_and, u8, u16, u32, sub64, List, [], ◌∷◌,
}
use oke_os.MemLib.{Memory}
use oke_os.Ports.{Bus}
use oke_os.PageFrame.{Outcome, done, panicked, facp_missing}
use oke_os.Paging.{Machine, map_memory, ◌>>=◌}
use oke_os.Strings.{Difference, above, strncmp}

-- A number of four bytes, the lowest first.
abbrev pub read32 : Memory → ℕ → ℕ
read32 m a = m a + m (a + 1) * 2 ^ 8 + m (a + 2) * 2 ^ 16 + m (a + 3) * 2 ^ 24

unfoldable pub checksum_loop : ℕ → ℕ → ℕ → ℕ → Memory → ℕ
checksum_loop zero i header sum m = sum
checksum_loop (suc rounds) i header sum m =
    checksum_loop rounds (i + 1) header (u8 (sum + m (header + i))) m

-- The length stands behind the four bytes of the signature.
unfoldable pub do_checksum : ℕ → Memory → Bool
unfolding checksum_loop
do_checksum header m = checksum_loop (read32 m (header + 4)) 0 header 0 m == 0

-- `signature` is the address of the text "FACP"; the argument of the source is not used.
unfoldable pub find_loop : ℕ → ℕ → ℕ → ℕ → ℕ → Memory → Machine → Outcome (Option ℕ × Machine)
unfolding map_memory strncmp
find_loop pml4 signature rsdt zero i m s = done (none, s)
find_loop pml4 signature rsdt (suc rounds) i m s =
    let header = read32 m (rsdt + 36 + i * 4) in
    map_memory pml4 header header s >>= λ s'. elim (strncmp header signature 4 m) [
      | above zero ↦ done (some header, s')
      | _ ↦ find_loop pml4 signature rsdt rounds (i + 1) m s'
    ]

-- The number of entries is an `int`.
unfoldable pub entry_count : ℕ → Memory → ℕ
entry_count rsdt m =
    let n = u32 (sub64 (read32 m (rsdt + 4)) 36 / 4) in if ltb n (2 ^ 31) then n else 0

unfoldable pub find_table : ℕ → ℕ → ℕ → Memory → Machine → Outcome (Option ℕ × Machine)
unfolding find_loop entry_count map_memory
find_table pml4 signature rsdt m s =
    map_memory pml4 rsdt rsdt s >>= λ s'. find_loop pml4 signature rsdt (entry_count rsdt m) 0 m s'

-- Fields of a table: the two ports, and the byte that switches to ACPI mode.
abbrev pub smi_command_port : ℕ → Memory → ℕ
smi_command_port fadt m = u16 (read32 m (fadt + 48))

abbrev pub acpi_enable : ℕ → Memory → ℕ
acpi_enable fadt m = m (fadt + 52)

abbrev pub pm1a_control_block : ℕ → Memory → ℕ
pm1a_control_block fadt m = u16 (read32 m (fadt + 64))

-- The address that `findTable` returns.
abbrev pub pointer : Option ℕ → ℕ
pointer none = 0
pointer (some header) = header

module _ {S : Type 0} (bus : Bus S) where
  -- `while (inw(...) & 1 == 0);` on fuel. The comparison binds tighter than `&`, so what is read is
  -- masked with the truth value of `1 == 0`.
  unfoldable pub wait_loop : ℕ → ℕ → S → Option S
  wait_loop zero port s = none
  wait_loop (suc fuel) port s =
      let (status, s') = bus.inw port s in
      let rest = wait_loop fuel port s' in
      if bit_and status (if 1 == 0 then 1 else 0) == 0 then some s' else rest

  -- The address of the table, the machine and the devices; no result means that the fuel ran out.
  unfoldable pub acpi_init :
      ℕ → ℕ → ℕ → ℕ → Memory → Machine → S → Outcome (Option (ℕ × Machine × S))
  unfolding find_table wait_loop
  acpi_init fuel pml4 signature rsdt m machine s =
      find_table pml4 signature rsdt m machine >>= λ (found, machine').
      let facp = pointer found in
      if facp == 0
      then panicked facp_missing
      else (let s' = bus.outb (smi_command_port facp m) (acpi_enable facp m) s in
          done (elim (wait_loop fuel (pm1a_control_block facp m) s') [
            | none ↦ none
            | some s'' ↦ some (facp, machine', s'')
          ]))
