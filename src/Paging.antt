-- ===== src/Paging.antt =====
-- kernel/mem/paging.cpp and paging.h: page table entries, the four indices of a virtual address,
-- and `PageTable_MapMemory`. An entry is its 64-bit value. Tables stand at physical addresses:
-- `tables t i` is the entry `i` of the table at the address `t`. The code reaches a table at its
-- physical address, so the model is of the time while the tables in use are mapped to themselves.
pub mod Entry
pub mod Index
pub mod Leaf
pub mod Map
pub mod Pages
pub mod Descend
pub mod Walk
pub mod Halts
use oke_os.Prelude.{
  ℕ, ◌+◌, ◌-◌, ◌*◌, ◌/◌, ◌%◌, ◌^◌, ◌<◌, bit_and, bit_or, Bool, true, false, not, ◌&&◌, ltb, ◌==◌,
  if◌then◌else◌, u64, ◌<<<◌, ◌>>>◌,
}
use oke_os.PageFrame.{Pfa, Outcome, done, panicked, request_page}
use oke_os.PageFrame

pub data PtFlag : Type 0 where
  present read_write user_super write_through cache_disabled accessed larger_pages : PtFlag
  custom0 custom1 custom2 nx : PtFlag

abbrev pub bit : PtFlag → ℕ
bit present = 0
bit read_write = 1
bit user_super = 2
bit write_through = 3
bit cache_disabled = 4
bit accessed = 5
bit larger_pages = 7
bit custom0 = 9
bit custom1 = 10
bit custom2 = 11
bit nx = 63

unfoldable pub set_flag : ℕ → PtFlag → Bool → ℕ
set_flag value flag enabled =
    let selector = u64 (1 <<< bit flag) in
    let cleared = bit_and value (2 ^ 64 - 1 - selector) in
    if enabled then bit_or cleared selector else cleared

unfoldable pub get_flag : ℕ → PtFlag → Bool
get_flag value flag = ltb 0 (bit_and value (u64 (1 <<< bit flag)))

unfoldable pub set_address : ℕ → ℕ → ℕ
set_address value address =
    let low = bit_and address 0x000000ffffffffff in
    let kept = bit_and value 0xfff0000000000fff in bit_or kept (u64 (low <<< 12))

unfoldable pub get_address : ℕ → ℕ
get_address value = bit_and value 0x000ffffffffff000 >>> 12

pub record PageMapIndexer : Type 0 where
  pub pdp_i : ℕ
  pub pd_i : ℕ
  pub pt_i : ℕ
  pub p_i : ℕ

unfoldable pub indexer_from : ℕ → PageMapIndexer
indexer_from addr =
    let a = addr >>> 12 in
    let b = a >>> 9 in
    let c = b >>> 9 in
    let d = c >>> 9 in
    record {
      p_i = bit_and a 0x1ff;
      pt_i = bit_and b 0x1ff;
      pd_i = bit_and c 0x1ff;
      pdp_i = bit_and d 0x1ff;
    }

-- The machine as far as mapping changes it: the page allocator and the tables.
pub record Machine : Type 0 where
  pub allocator : Pfa
  pub tables : ℕ → ℕ → ℕ

abbrev pub write_entry : (ℕ → ℕ → ℕ) → ℕ → ℕ → ℕ → ℕ → ℕ → ℕ
write_entry tables t i v t' i' = if t == t' && i == i' then v else tables t' i'

-- `memset(table, 0, 0x1000)`.
abbrev pub clear_table : (ℕ → ℕ → ℕ) → ℕ → ℕ → ℕ → ℕ
clear_table tables t t' i' = if t == t' then 0 else tables t' i'

-- An entry that points to a frame: present, writable, executable.
unfoldable pub point_to : ℕ → ℕ → ℕ
unfolding set_flag set_address
point_to entry phys =
    set_flag (set_flag (set_flag (set_address entry (phys >>> 12)) present true) read_write true) nx
      false

-- One level of the descent: the table behind the entry `i` of `table`, made if it is missing.
-- The panic after it reads the entry back and is for an entry that is still not present.
unfoldable pub descend : ℕ → ℕ → Machine → Outcome (ℕ × Machine)
unfolding get_flag get_address point_to
descend table i m = elim (get_flag (m.tables table i) present) [
  | true ↦ done (u64 (get_address (m.tables table i) <<< 12), m)
  | false ↦ elim (request_page m.allocator) [
    | panicked p ↦ panicked p
    | done (page, allocator') ↦
        let cleared = clear_table m.tables page in
        let tables' = write_entry cleared table i (point_to (m.tables table i) page) in
        if get_flag (tables' table i) present
        then done (page, record { allocator = allocator'; tables = tables' })
        else panicked PageFrame.mapping_failure
  ]
]

infixl 5 ◌>>=◌
abbrev pub ◌>>=◌ : {A B : Type 0} → Outcome A → (A → Outcome B) → Outcome B
done a >>= f = f a
panicked p >>= f = panicked p

-- The last level.
unfoldable pub map_page : ℕ → ℕ → ℕ → Machine → Outcome Machine
unfolding get_flag point_to
map_page table i phys m =
    let tables' = write_entry m.tables table i (point_to (m.tables table i) phys) in
    if get_flag (tables' table i) present
    then done (record m { tables = tables' })
    else panicked PageFrame.mapping_failure

unfoldable pub map_memory : ℕ → ℕ → ℕ → Machine → Outcome Machine
unfolding descend map_page indexer_from
map_memory pml4 virt phys m = do
  let indexer = indexer_from virt
  (pdp, m) ← descend pml4 indexer.pdp_i m
  (pd, m) ← descend pdp indexer.pd_i m
  (pt, m) ← descend pd indexer.pt_i m
  map_page pt indexer.p_i phys m
