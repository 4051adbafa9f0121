-- ===== src/MemoryMap.antt =====
-- kernel/mem/memutils.cpp, and the memory map of kernel/limine.h as a list of its entries.
-- Addresses and sizes are `u64`, so sums wrap.
pub mod Sizes
use Prim.Native.String.{String}
use oke_os.Prelude.{
  ℕ, ◌+◌, ◌≤◌, ◌<◌, ◌^◌, ◌≡◌, List, [], ◌∷◌, All, ltb, ◌==◌, if◌then◌else◌, u64, sub64,
}

pub record MemmapEntry : Type 0 where
  pub base : ℕ
  pub length : ℕ
  pub type : ℕ

-- The loop of `getMemorySize`, at the entries left and the size so far.
unfoldable pub memory_size_loop : List MemmapEntry → ℕ → ℕ
memory_size_loop [] size = size
memory_size_loop (entry ∷ entries) size = memory_size_loop entries (u64 (size + entry.length))

unfoldable pub memory_size : List MemmapEntry → ℕ
unfolding memory_size_loop
memory_size memmap = memory_size_loop memmap 0

unfoldable pub areal_size_loop : List MemmapEntry → ℕ → ℕ
areal_size_loop [] size = size
areal_size_loop (entry ∷ entries) size =
    areal_size_loop entries
      (if ltb size (u64 (entry.base + entry.length)) then u64 (entry.base + entry.length) else size)

-- The end of the highest entry.
unfoldable pub areal_size : List MemmapEntry → ℕ
unfolding areal_size_loop
areal_size memmap = areal_size_loop memmap 0

unfoldable pub mapping_name : ℕ → String
mapping_name type =
    if type == 0
    then "Usable Memory"
    else if type == 1
    then "Reserved Memory"
    else if type == 2
    then "ACPI Reclaimable"
    else if type == 3
    then "ACPI NVS"
    else if type == 4
    then "[!] Bad Memory"
    else if type == 5
    then "Bootloader Reclaimable"
    else if type == 6
    then "Kernel"
    else if type == 7
    then "Framebuffer"
    else "Unknown"

-- `hhdm` is `mem_hhdmOffset`.
unfoldable pub to_phys : ℕ → ℕ → ℕ
to_phys hhdm virt = sub64 virt hhdm

unfoldable pub to_virt : ℕ → ℕ → ℕ
to_virt hhdm phys = u64 (phys + hhdm)

-- The entry lies in the address space.
abbrev pub Fits : MemmapEntry → Type 0
Fits e = e.base + e.length < 2 ^ 64
