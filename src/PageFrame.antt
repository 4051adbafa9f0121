-- ===== src/PageFrame.antt =====
-- kernel/mem/pageframeallocator.cpp. The globals of the file are the fields of `Pfa`; `bitmap_idx`
-- is `bitmapIdx` and `end_of_memory` is `end`. A panic halts the kernel, so it is an outcome with
-- no state behind it. The messages that the functions print are left out.
pub mod Pages
pub mod Loops
pub mod Init
pub mod Largest
pub mod Clients
pub mod Ranges
pub mod Counters
pub mod Request
pub mod Invariant
use oke_os.Prelude.{
  ℕ, zero, suc, ◌+◌, ◌-◌, ◌*◌, ◌/◌, ◌%◌, ◌^◌, ◌≤◌, ◌<◌, ◌≡◌, Bool, true, false, not, ◌&&◌, List, [],
  ◌∷◌, Option, none, some, ltb, ◌==◌, if◌then◌else◌, u8, u32, u64, sub64,
}
use oke_os.Bitmap
use oke_os.Bitmap.{Bitmap}
use oke_os.MemoryMap.{MemmapEntry, areal_size, mapping_name}
use Prim.Native.String.{String}

pub data Panic : Type 0 where
  out_of_memory no_free_memory mapping_failure facp_missing no_memory_map signature_mismatch : Panic

pub data Outcome (A : Type 0) : Type 0 where
  done : A → Outcome A
  panicked : Panic → Outcome A

pub record Pfa : Type 0 where
  pub free_memory : ℕ
  pub used_memory : ℕ
  pub bitmap_idx : ℕ
  pub end_of_memory : ℕ
  pub bitmap : Bitmap
  pub memmap : List MemmapEntry
  pub oom_panics : Bool

-- A page of the physical memory is locked if its bit is set.
abbrev pub locked : Pfa → ℕ → Bool
locked s page = Bitmap.get s.bitmap page

unfoldable pub lock_page : ℕ → Pfa → Pfa
lock_page addr s =
    let index = addr / 4096 in
    let (bitmap', written) = Bitmap.set s.bitmap index true in
    if Bitmap.get s.bitmap index
    then s
    else if written
    then record s {
      bitmap = bitmap';
      free_memory = sub64 s.free_memory 4096;
      used_memory = u64 (s.used_memory + 4096);
    }
    else record s { bitmap = bitmap' }

unfoldable pub lock_page_non_available : ℕ → Pfa → Pfa
lock_page_non_available addr s =
    let index = addr / 4096 in
    if Bitmap.get s.bitmap index
    then s
    else record s { bitmap = (Bitmap.set s.bitmap index true).0 }

unfoldable pub free_page : ℕ → Pfa → Pfa
free_page addr s =
    let index = addr / 4096 in
    let (bitmap', written) = Bitmap.set s.bitmap index false in
    if not (Bitmap.get s.bitmap index)
    then s
    else if written
    then record s {
      bitmap = bitmap';
      free_memory = u64 (s.free_memory + 4096);
      used_memory = sub64 s.used_memory 4096;
      bitmap_idx = if ltb index s.bitmap_idx then index else s.bitmap_idx;
    }
    else record s { bitmap = bitmap' }

-- The loops over pages, at the rounds left and the counter `i`. In `freePages` the counter is a
-- `u64`; in the other two it is an `int`, whose product with 4096 C++ leaves undefined from 2 ^ 31 on,
-- behind 2 ^ 19 pages: what is proved of the two stays below.
unfoldable pub free_pages_loop : ℕ → ℕ → ℕ → Pfa → Pfa
free_pages_loop zero i addr s = s
free_pages_loop (suc n) i addr s =
    free_pages_loop n (i + 1) addr (free_page (u64 (addr + u64 (i * 4096))) s)

unfoldable pub free_pages : ℕ → ℕ → Pfa → Pfa
unfolding free_pages_loop
free_pages addr page_count s = free_pages_loop page_count 0 addr s

abbrev pub int_offset : ℕ → ℕ
int_offset i = i * 4096

unfoldable pub lock_pages_loop : ℕ → ℕ → ℕ → Pfa → Pfa
lock_pages_loop zero i addr s = s
lock_pages_loop (suc n) i addr s =
    lock_pages_loop n (i + 1) addr (lock_page (u64 (addr + int_offset i)) s)

unfoldable pub lock_pages : ℕ → ℕ → Pfa → Pfa
unfolding lock_pages_loop
lock_pages addr page_count s = lock_pages_loop page_count 0 addr s

unfoldable pub lock_pages_non_available_loop : ℕ → ℕ → ℕ → Pfa → Pfa
lock_pages_non_available_loop zero i addr s = s
lock_pages_non_available_loop (suc n) i addr s =
    lock_pages_non_available_loop n (i + 1) addr
      (lock_page_non_available (u64 (addr + int_offset i)) s)

unfoldable pub lock_pages_non_available : ℕ → ℕ → Pfa → Pfa
unfolding lock_pages_non_available_loop
lock_pages_non_available addr page_count s = lock_pages_non_available_loop page_count 0 addr s

-- The search of `requestPage`, with as many rounds left as `bitmap_idx` is below the bitmap's end.
unfoldable pub scan : ℕ → Pfa → Outcome (ℕ × Pfa)
scan zero s = panicked out_of_memory
scan (suc n) s =
    let next = scan n (record s { bitmap_idx = s.bitmap_idx + 1 }) in
    if Bitmap.get s.bitmap s.bitmap_idx
    then next
    else done (u64 (s.bitmap_idx * 4096), lock_page (u64 (s.bitmap_idx * 4096)) s)

unfoldable pub request_page : Pfa → Outcome (ℕ × Pfa)
unfolding scan
request_page s =
    if s.oom_panics && ltb s.free_memory 16384
    then panicked out_of_memory
    else scan (u64 (s.bitmap.size * 8) - s.bitmap_idx) s

unfoldable pub free_ram : Pfa → ℕ
free_ram s = s.free_memory

unfoldable pub used_ram : Pfa → ℕ
used_ram s = s.used_memory

unfoldable pub total_ram : Pfa → ℕ
total_ram s = u64 (s.free_memory + s.used_memory)

unfoldable pub memory_map_size : Pfa → ℕ
memory_map_size s = s.end_of_memory

unfoldable pub memory_map_lookup : ℕ → List MemmapEntry → String
unfolding mapping_name
memory_map_lookup addr [] = "No mapping found"
memory_map_lookup addr (entry ∷ entries) =
    if ltb entry.base addr && ltb addr (u64 (entry.base + entry.length))
    then mapping_name entry.type
    else memory_map_lookup addr entries

unfoldable pub memory_map_for_address : ℕ → Pfa → String
unfolding memory_map_lookup
memory_map_for_address addr s = memory_map_lookup addr s.memmap

-- The bitmap's memory is cleared byte by byte; `rounds` is left and `i` is the next byte.
unfoldable pub clear_bytes : ℕ → ℕ → (ℕ → ℕ) → ℕ → ℕ
clear_bytes zero i memory = memory
clear_bytes (suc rounds) i memory = clear_bytes rounds (i + 1) (Bitmap.write_byte memory i 0)

-- `memory` is what stands at the address that the bitmap is placed at.
unfoldable pub init_bitmap : ℕ → (ℕ → ℕ) → Pfa → Pfa
unfolding clear_bytes
init_bitmap bitmap_size memory s = record s {
  bitmap = record { size = bitmap_size; buffer = clear_bytes bitmap_size 0 memory };
  bitmap_idx = 0;
}

-- The first loop of `init`: base and length of the largest usable segment, and `end`.
pub record Survey : Type 0 where
  pub largest_free_segment : ℕ
  pub largest_free_segment_size : ℕ
  pub end_of_memory : ℕ

unfoldable pub survey : List MemmapEntry → Survey → Survey
survey [] v = v
survey (entry ∷ entries) v =
    let entry_end = u64 (entry.base + entry.length) in
    let larger = entry.type == 0 && ltb v.largest_free_segment_size entry.length in
    survey entries (record {
      largest_free_segment = if larger then entry.base else v.largest_free_segment;
      largest_free_segment_size = if larger then entry.length else v.largest_free_segment_size;
      end_of_memory = if ltb v.end_of_memory entry_end then entry_end else v.end_of_memory;
    })

-- The second loop of `init`.
unfoldable pub free_usable : List MemmapEntry → Pfa → Pfa
free_usable [] s = s
free_usable (entry ∷ entries) s =
    free_usable entries
      (if entry.type == 0 then free_pages entry.base (entry.length / 4096) s else s)

unfoldable pub bitmap_size_for : ℕ → ℕ
bitmap_size_for total = u64 (total / 4096 / 8 + 1)

unfoldable pub init : List MemmapEntry → (ℕ → ℕ) → Pfa → Outcome Pfa
unfolding survey free_usable init_bitmap bitmap_size_for
init memmap memory s =
    let v = survey memmap (record {
      largest_free_segment = 0;
      largest_free_segment_size = 0;
      end_of_memory = s.end_of_memory;
    }) in
    let total = areal_size memmap in
    let bitmap_size = bitmap_size_for total in
    let bitmap_pages = u64 (bitmap_size / 4096 + 1) in
    let s₁ = record s { memmap = memmap; end_of_memory = v.end_of_memory } in
    let s₂ = lock_pages 0 (total / 4096) (init_bitmap bitmap_size memory s₁) in
    let s₃ = free_usable memmap s₂ in
    if v.largest_free_segment == 0
    then panicked no_free_memory
    else done (
        lock_pages v.largest_free_segment bitmap_pages (record s₃ {
          used_memory = 0;
          free_memory = v.largest_free_segment_size;
          oom_panics = true;
        }))
