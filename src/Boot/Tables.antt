-- ===== src/Boot/Tables.antt =====
-- The switch to ACPI mode in `_start`.
use oke_os.Prelude.{ℕ, ◌+◌, ◌<◌, ◌≡◌, ◌≢◌, Option}
use oke_os.MemLib.{Memory}
use oke_os.Ports.{Bus}
use oke_os.PageFrame.{Outcome, panicked, signature_mismatch}
use oke_os.Paging.{Machine}
use oke_os.Acpi.{read32}
use oke_os.Acpi.Enable.{Initialized}

-- How it ends: the descriptor has another signature, or `ACPI::init` ends with the list of tables
-- that it names.
pub data AcpiEnd {S : Type 0} (bus : Bus S) (signature rsd_ptr rsdp : ℕ) (m : Memory) (s : S)
    : Outcome (Option (ℕ × Machine × S)) → Type 0 where
  mismatch :
      (k : ℕ)
      → k < 8
      → m (rsdp + k) ≢ m (rsd_ptr + k)
      → AcpiEnd bus signature rsd_ptr rsdp m s (panicked signature_mismatch)
  matching :
      {r : Outcome (Option (ℕ × Machine × S))}
      → ((k : ℕ) → k < 8 → m (rsdp + k) ≡ m (rsd_ptr + k))
      → Initialized bus signature (read32 m (rsdp + 16)) m s r
      → AcpiEnd bus signature rsd_ptr rsdp m s r
