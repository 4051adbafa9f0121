-- ===== src/Boot.antt =====
-- kernel/kernel.cpp: the page table that `_start` builds from the memory map, and the memory that it
-- sets up. `hhdm` is `mem_hhdmOffset` and `kernel` is `mem_kVirtOffset`. The messages, and the
-- privileged instructions, are left out.
pub mod Plan
pub mod Install
pub mod Start
pub mod Ready
pub mod Tables
use oke_os.Prelude.{
  ℕ, zero, suc, ◌+◌, ◌*◌, ◌/◌, ◌%◌, ◌^◌, Bool, true, false, Option, none, some, List, [], ◌∷◌, ltb,
  ◌==◌, if◌then◌else◌, u64,
}
use oke_os.MemoryMap.{MemmapEntry, to_virt}
use oke_os.MemLib.{Memory, Sign, nought, memcmp, memcpy, strlen}
use oke_os.Ports.{Bus}
use oke_os.PageFrame.{
  Outcome, done, panicked, no_memory_map, signature_mismatch, init, request_page,
}
use oke_os.Heap.{Heap, malloc, sfree, init_heap}
use oke_os.Heap.Attempt.{Attempt, ◌then_try◌, allocate}
use oke_os.Acpi.{read32, acpi_init}
use oke_os.Paging.{Machine, clear_table, map_memory, ◌>>=◌}

-- `LIMINE_MEMMAP_KERNEL_AND_MODULES`
abbrev pub kernel_type : ℕ
kernel_type = 6

unfoldable pub size_in_pages : MemmapEntry → ℕ
size_in_pages entry =
    if entry.length % 4096 == 0 then entry.length / 4096 else entry.length / 4096 + 1

-- Where the page `i` of an entry is put.
unfoldable pub entry_phys : MemmapEntry → ℕ → ℕ
entry_phys entry i = u64 (entry.base + u64 (i * 4096))

unfoldable pub entry_virt : ℕ → ℕ → MemmapEntry → ℕ → ℕ
unfolding entry_phys to_virt
entry_virt hhdm kernel entry i =
    if entry.type == kernel_type
    then u64 (kernel + u64 (i * 4096))
    else to_virt hhdm (entry_phys entry i)

-- The pages of an entry from `i` on, at the rounds that are left.
unfoldable pub map_entry : ℕ → ℕ → ℕ → MemmapEntry → ℕ → ℕ → Machine → Outcome Machine
unfolding map_memory entry_phys entry_virt
map_entry hhdm kernel pml4 entry zero i m = done m
map_entry hhdm kernel pml4 entry (suc rounds) i m = do
  m' ← map_memory pml4 (entry_virt hhdm kernel entry i) (entry_phys entry i) m
  map_entry hhdm kernel pml4 entry rounds (i + 1) m'

unfoldable pub map_entries : ℕ → ℕ → ℕ → List MemmapEntry → Machine → Outcome Machine
unfolding map_entry size_in_pages
map_entries hhdm kernel pml4 [] m = done m
map_entries hhdm kernel pml4 (entry ∷ entries) m = do
  m' ← map_entry hhdm kernel pml4 entry (size_in_pages entry) 0 m
  map_entries hhdm kernel pml4 entries m'

-- The pages from `i` on are mapped to themselves.
unfoldable pub map_first : ℕ → ℕ → ℕ → Machine → Outcome Machine
unfolding map_memory
map_first pml4 zero i m = done m
map_first pml4 (suc rounds) i m = do m' ← map_memory pml4 i i m; map_first pml4 rounds (i + 4096) m'

-- The address of the page table, and the state; 16 MiB are 4096 pages.
unfoldable pub init_paging : ℕ → ℕ → List MemmapEntry → Machine → Outcome (ℕ × Machine)
unfolding map_entries map_first request_page
init_paging hhdm kernel memmap m = do
  (pml4, allocator') ← request_page m.allocator
  let m₁ = record m { allocator = allocator'; tables = clear_table m.tables pml4 }
  m₂ ← map_entries hhdm kernel pml4 memmap m₁
  m₃ ← map_first pml4 4096 0 m₂
  done (pml4, m₃)

abbrev pub heap_address : ℕ
heap_address = 0x800000

-- `mb(1) / kb(4)`
abbrev pub heap_pages : ℕ
heap_pages = 256

-- The first block: a copy of a string, which is given back. `text` is the fuel of `strlen`.
unfoldable pub test_heap : ℕ → ℕ → ℕ → Heap → Attempt Heap
unfolding malloc strlen memcpy sfree
test_heap text pml4 copyable h = allocate pml4 16 h then_try λ (new_string, h').
    elim (strlen text copyable h'.memory) [
      | none ↦ none
      | some n ↦ some (
          done
            (sfree new_string 16 (record h' { memory = memcpy new_string copyable n h'.memory })))
    ]

-- The allocator and the page tables; `response` is the map of the memory, if there is one, and
-- `buffer` what the bitmap's place held before.
unfoldable pub start_pages :
    ℕ → ℕ → (ℕ → ℕ) → Option (List MemmapEntry) → Machine → Outcome (ℕ × Machine)
unfolding init init_paging
start_pages hhdm kernel buffer none m = panicked no_memory_map
start_pages hhdm kernel buffer (some memmap) m = init memmap buffer m.allocator >>= λ allocator'.
    init_paging hhdm kernel memmap (record m { allocator = allocator' })

-- The allocator, the page tables and the heap, in the order of `_start`. The interrupts, which it
-- sets up in between, use none of them.
unfoldable pub start_memory :
    ℕ → ℕ → ℕ → ℕ → (ℕ → ℕ) → Option (List MemmapEntry) → Heap → Attempt (ℕ × Heap)
unfolding start_pages init_heap test_heap
start_memory hhdm kernel text copyable buffer response h =
    some (start_pages hhdm kernel buffer response h.machine) then_try λ (pml4, machine').
    some (init_heap pml4 heap_address heap_pages (record h { machine = machine' })) then_try λ h'.
    test_heap text pml4 copyable h' then_try λ h''. some (done (pml4, h''))

-- The descriptor at `rsdp` must begin with the text at `rsd_ptr`; the address of the list of tables
-- stands behind its first sixteen bytes.
unfoldable pub start_acpi :
    {S : Type 0}
    → Bus S
    → ℕ
    → ℕ
    → ℕ
    → ℕ
    → ℕ
    → Memory
    → Machine
    → S
    → Outcome (Option (ℕ × Machine × S))
unfolding memcmp acpi_init
start_acpi bus fuel pml4 signature rsd_ptr rsdp m machine s = elim (memcmp rsdp rsd_ptr 8 m) [
  | nought ↦ acpi_init bus fuel pml4 signature (read32 m (rsdp + 16)) m machine s
  | _ ↦ panicked signature_mismatch
]
