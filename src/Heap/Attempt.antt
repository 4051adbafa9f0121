-- ===== src/Heap/Attempt.antt =====
-- Code that calls `malloc`: it has a result, or panics, or runs out of fuel.
use oke_os.Prelude.{ℕ, ◌+◌, Option, none, some}
use oke_os.PageFrame.{Outcome, done, panicked}
use oke_os.Heap.{Heap, malloc}

abbrev pub Attempt : Type 0 → Type 0
Attempt A = Option (Outcome A)

infixl 10 ◌then_try◌
abbrev pub ◌then_try◌ : {A B : Type 0} → Attempt A → (A → Attempt B) → Attempt B
none then_try f = none
some (panicked p) then_try f = some (panicked p)
some (done a) then_try f = f a

-- `malloc` with fuel for any heap: the walks end before the heap does.
abbrev pub allocate : ℕ → ℕ → Heap → Option (Outcome (ℕ × Heap))
allocate pml4 size h = malloc pml4 (h.heap_end + 2) 3 size h
