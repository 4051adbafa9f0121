-- ===== src/Acpi/Search.antt =====
-- What the search for a table finds.
use oke_os.Prelude.{
  ◌⊎◌, ℕ, zero, suc, ◌+◌, ◌*◌, ◌≤◌, ◌<◌, ◌≡◌, ◌≢◌, refl, inl, inr, Bool-cases, ◌==◌, Option, none,
  some, arith,
}
use oke_os.MemLib.{Memory}
use oke_os.PageFrame.{Outcome, Panic, done, panicked, out_of_memory, mapping_failure}
use oke_os.Paging.{Machine, map_memory, ◌>>=◌}
use oke_os.Paging.Halts.{Mapping, goes_on, stops, map_memory-Mapping}
use oke_os.Strings.{Difference, above, below, strncmp}
use oke_os.Acpi.{read32, find_loop, find_table, entry_count}

-- The table that the entry `i` points to.
abbrev pub pointed : ℕ → ℕ → Memory → ℕ
pointed rsdt i m = read32 m (rsdt + 36 + i * 4)

-- The end of a search through the entries from `from` on, below `end`: a mapping panicked; no entry
-- points to a table with the signature; or the first that does is returned.
pub data Searched (signature rsdt from end : ℕ) (m : Memory)
    : Outcome (Option ℕ × Machine) → Type 0 where
  halted :
      (p : Panic)
      → (p ≡ out_of_memory) ⊎ (p ≡ mapping_failure)
      → Searched signature rsdt from end m (panicked p)
  missing :
      (s : Machine)
      → ((k : ℕ) → from ≤ k → k < end → strncmp (pointed rsdt k m) signature 4 m ≢ above 0)
      → Searched signature rsdt from end m (done (none, s))
  found :
      (s : Machine) (i : ℕ)
      → i < end
      → strncmp (pointed rsdt i m) signature 4 m ≡ above 0
      → ((k : ℕ) → from ≤ k → k < i → strncmp (pointed rsdt k m) signature 4 m ≢ above 0)
      → Searched signature rsdt from end m (done (some (pointed rsdt i m), s))

-- One entry more in front, which points to another table.
module _ (signature rsdt from end : ℕ) (m : Memory)
    (other : strncmp (pointed rsdt from m) signature 4 m ≢ above 0) where
  others :
      (bound : ℕ)
      → ((k : ℕ) → from + 1 ≤ k → k < bound → strncmp (pointed rsdt k m) signature 4 m ≢ above 0)
      → (k : ℕ) → from ≤ k
      → k < bound
      → strncmp (pointed rsdt k m) signature 4 m ≢ above 0
  others bound rest k h l = elim (Bool-cases (k == from)) [
    | inl here ↦ let e : k ≡ from = ground arith in rw e other
    | inr later ↦ rest k (ground arith) l
  ]

  Searched-later :
      {r : Outcome (Option ℕ × Machine)}
      → Searched signature rsdt (from + 1) end m r
      → Searched signature rsdt from end m r
  Searched-later (halted p e) = halted p e
  Searched-later (missing s rest) = missing s (others end rest)
  Searched-later (found s i h e rest) = found s i h e (others i rest)

-- One round, with what the later rounds find.
module _ (pml4 signature rsdt rounds i end : ℕ) (m : Memory) (in_range : i < end)
    (later : (s' : Machine)
      → Searched signature rsdt
          (i + 1)
          end
          m
          (find_loop pml4 signature rsdt rounds (i + 1) m s')) where
  compared :
      (s' : Machine) (r : Difference)
      → strncmp (pointed rsdt i m) signature 4 m ≡ r
      → Searched signature rsdt i end m (elim r [
        | above zero ↦ done (some (pointed rsdt i m), s')
        | _ ↦ find_loop pml4 signature rsdt rounds (i + 1) m s'
      ])
  compared s' (above zero) eq = found s' i in_range eq (λ k h l. absurd (omega arith))
  compared s' (above (suc n)) eq =
      Searched-later signature rsdt i end m (λ z. ground (arith, eq, z)) (later s')
  compared s' (below n) eq =
      Searched-later signature rsdt i end m (λ z. ground (arith, eq, z)) (later s')

  each :
      (r : Outcome Machine)
      → Mapping r
      → Searched signature rsdt i end m (
          r >>= λ s'. elim (strncmp (pointed rsdt i m) signature 4 m) [
            | above zero ↦ done (some (pointed rsdt i m), s')
            | _ ↦ find_loop pml4 signature rsdt rounds (i + 1) m s'
          ])
  each (done s') (goes_on _) = compared s' _ refl
  each (panicked p) (stops _ e) = halted p e

find_loop-Searched :
    (pml4 signature rsdt rounds i end : ℕ) (m : Memory) (s : Machine)
    → i + rounds ≡ end
    → Searched signature rsdt i end m (find_loop pml4 signature rsdt rounds i m s)
unfolding find_loop
find_loop-Searched pml4 signature rsdt zero i end m s e = missing s (λ k h l. absurd (omega arith))
find_loop-Searched pml4 signature rsdt (suc rounds) i end m s e =
    each pml4 signature rsdt rounds i end m (omega arith)
      (λ s'. find_loop-Searched pml4 signature rsdt rounds (i + 1) end m s' (omega arith))
      (map_memory pml4 (pointed rsdt i m) (pointed rsdt i m) s)
      (map_memory-Mapping pml4 (pointed rsdt i m) (pointed rsdt i m) s)

-- The search ends: a mapping panics, or it returns the first table in the list whose signature is
-- the text at `signature`, or nothing, where no table of the list has that signature.
pub find_table-Searched :
    (pml4 signature rsdt : ℕ) (m : Memory) (s : Machine)
    → Searched signature rsdt 0 (entry_count rsdt m) m (find_table pml4 signature rsdt m s)
unfolding find_table
find_table-Searched pml4 signature rsdt m s =
    after (map_memory pml4 rsdt rsdt s) (map_memory-Mapping pml4 rsdt rsdt s)
  where
    after :
        (r : Outcome Machine)
        → Mapping r
        → Searched signature rsdt 0
            (entry_count rsdt m)
            m
            (r >>= λ s'. find_loop pml4 signature rsdt (entry_count rsdt m) 0 m s')
    after (done s') (goes_on _) =
        find_loop-Searched pml4 signature rsdt (entry_count rsdt m) 0 _ m s' (omega arith)
    after (panicked p) (stops _ e) = halted p e
