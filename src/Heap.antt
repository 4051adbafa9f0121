-- ===== src/Heap.antt =====
-- kernel/mem/heap.cpp and heap.h. The headers of the segments are a function from addresses, with a
-- cell at NULL. `memory` is the bytes, where the bytes of a header that is in the list are not read;
-- where a header is laid over bytes that belonged to a block, and where the code writes through a NULL
-- `next`, its fields are written to `memory`, too. The magic number is never written and is left out.
-- The page table is `pml4`; the messages of the mapping are left out.
pub mod Chain
pub mod Merge
pub mod Release
pub mod Blocks
pub mod Coalesced
pub mod Free
pub mod Refund
pub mod Used
pub mod Attempt
use oke_os.Prelude.{
  ℕ, zero, suc, ◌+◌, ◌-◌, ◌*◌, ◌/◌, ◌%◌, ◌^◌, Bool, true, false, not, ◌&&◌, ◌||◌, Option, none,
  some, ltb, leb, ◌==◌, if◌then◌else◌, u64, sub64,
}
use oke_os.MemLib.{Memory, poke, memset}
use oke_os.PageFrame.{Outcome, done, panicked, request_page}
use oke_os.Paging.{Machine, map_memory, ◌>>=◌}

pub record Header : Type 0 where
  pub length : ℕ
  pub next : ℕ
  pub last : ℕ
  pub free : Bool

-- `sizeof(HeapSegHdr)`: the structure is packed.
abbrev pub header_size : ℕ
header_size = 29

abbrev pub Headers : Type 0
Headers = ℕ → Header

abbrev pub put : Headers → ℕ → Header → Headers
put headers a header b = if a == b then header else headers b

pub record Heap : Type 0 where
  pub headers : Headers
  pub memory : Memory
  pub heap_start : ℕ
  pub heap_end : ℕ
  pub last_hdr : ℕ
  pub machine : Machine

abbrev pub with_headers : Heap → Headers → Heap
with_headers h headers = record h { headers = headers }

-- `segment->free = ...`
abbrev pub set_free : ℕ → Bool → Heap → Heap
set_free a free h = with_headers h (put h.headers a (record (h.headers a) { free = free }))

-- `next->next->last = this`, where there is such a segment.
abbrev pub relink : ℕ → Headers → Headers
relink a headers =
    let further = (headers (headers a).next).next in
    if further == 0 then headers else put headers further (record (headers further) { last = a })

unfoldable pub combine_forward : ℕ → Heap → Heap
combine_forward a h =
    let n = (h.headers a).next in
    if n == 0
    then h
    else if not (h.headers n).free
    then h
    else (let headers' = relink a h.headers in
        let this = headers' a in
        let next = headers' this.next in
        record h {
          last_hdr = if n == h.last_hdr then a else h.last_hdr;
          headers = put headers' a (record this {
            length = u64 (this.length + next.length + header_size);
            next = next.next;
          });
        })

unfoldable pub combine_backward : ℕ → Heap → Heap
unfolding combine_forward
combine_backward a h =
    let l = (h.headers a).last in
    if not (l == 0) && (h.headers l).free then combine_forward l h else h

-- The bytes of a `u64`, the lowest first.
unfoldable pub store_u64 : ℕ → ℕ → Memory → Memory
store_u64 a value m q = if leb a q && ltb q (a + 8) then value / 2 ^ (8 * (q - a)) % 256 else m q

-- The fields of a header behind its magic number.
unfoldable pub store_header : ℕ → Header → Memory → Memory
unfolding store_u64
store_header a header m =
    let fields =
      store_u64 (a + 20) header.last
        (store_u64 (a + 12) header.next (store_u64 (a + 4) header.length m)) in
    poke fields (a + 28) (if header.free then 1 else 0)

-- The length of what is split off is an `int64_t`. The field `last` of a header has the offset 20.
unfoldable pub split : ℕ → ℕ → Heap → Heap
unfolding store_u64 store_header
split a split_length h =
    let this = h.headers a in
    let rest = sub64 (sub64 this.length split_length) header_size in
    let new = u64 (a + split_length + header_size) in
    if ltb split_length 16
    then h
    else if leb (2 ^ 63) rest || ltb rest 16
    then h
    else (let headers₁ = put h.headers this.next (record (h.headers this.next) { last = new }) in
        let memory₁ = if this.next == 0 then store_u64 20 new h.memory else h.memory in
        let header : Header = record {
          next = (headers₁ a).next;
          last = a;
          length = rest;
          free = (headers₁ a).free;
        } in
        let headers₂ = put headers₁ new header in
        record h {
          memory = store_header new header memory₁;
          headers = put headers₂ a (record (headers₂ a) { next = new; length = split_length });
          last_hdr = if h.last_hdr == a then new else h.last_hdr;
        })

unfoldable pub free : ℕ → Heap → Heap
unfolding combine_forward combine_backward
free address h =
    let a = sub64 address header_size in combine_backward a (combine_forward a (set_free a true h))

unfoldable pub sfree : ℕ → ℕ → Heap → Heap
unfolding free memset
sfree address size h =
    let h' = free address h in record h' { memory = memset address 0 size h'.memory }

-- The walk of `malloc` from the segment at `a`, on fuel: the address and the heap after it, or
-- nothing, where the end of the list is reached. The call of `memset` has 0 for its count.
unfoldable pub search_fit : ℕ → ℕ → ℕ → Heap → Option (Option (ℕ × Heap))
unfolding split memset
search_fit zero a size h = none
search_fit (suc fuel) a size h =
    let this = h.headers a in
    let further = search_fit fuel this.next size h in
    let cleared = λ (h' : Heap). record h' { memory = memset (a + header_size) size 0 h'.memory } in
    if this.free && ltb size this.length
    then some (some (u64 (a + header_size), cleared (set_free a false (split a size h))))
    else if this.free && this.length == size
    then some (some (u64 (a + header_size), cleared (set_free a false h)))
    else if this.next == 0
    then some none
    else further

-- One page after another is requested and mapped from `pos` on.
unfoldable pub map_pages : ℕ → ℕ → ℕ → Machine → Outcome (ℕ × Machine)
unfolding map_memory request_page
map_pages pml4 zero pos m = done (pos, m)
map_pages pml4 (suc rounds) pos m = do
  (page, allocator') ← request_page m.allocator
  m' ← map_memory pml4 pos page (record m { allocator = allocator' })
  map_pages pml4 rounds (u64 (pos + 4096)) m'

abbrev pub round_up : ℕ → ℕ → ℕ
round_up unit n = if n % unit == 0 then n else u64 (n - n % unit + unit)

-- The new segment is put at the end of the list.
unfoldable pub attach : ℕ → ℕ → Heap → Headers
attach new n h =
    let headers₁ = put h.headers new (record (h.headers new) { free = true; last = h.last_hdr }) in
    let headers₂ = put headers₁ h.last_hdr (record (headers₁ h.last_hdr) { next = new }) in
    put headers₂ new (record (headers₂ new) { next = 0; length = n })

unfoldable pub expand_heap : ℕ → ℕ → Heap → Outcome Heap
unfolding map_pages combine_backward attach
expand_heap pml4 length h =
    let length' = round_up 4096 length in
    let new = round_up 4096 h.heap_end in
    map_pages pml4 (length' / 4096) new h.machine >>= λ (end, machine'). done (
      combine_backward new (record h {
        headers = attach new (sub64 length' header_size) h;
        heap_end = end;
        last_hdr = new;
        machine = machine';
      }))

-- `fuel` is for the walks, `tries` for the calls of `malloc` by itself; no result means that one of
-- them ran out.
unfoldable pub malloc : ℕ → ℕ → ℕ → ℕ → Heap → Option (Outcome (ℕ × Heap))
unfolding search_fit expand_heap
malloc pml4 fuel zero size h = none
malloc pml4 fuel (suc tries) size h =
    let size' = round_up 16 size in
    if size' == 0 then some (done (0, h)) else elim (search_fit fuel h.heap_start size' h) [
      | none ↦ none
      | some (some found) ↦ some (done found)
      | some none ↦ elim (expand_heap pml4 size' h) [
        | panicked e ↦ some (panicked e)
        | done h' ↦ malloc pml4 fuel tries size' h'
      ]
    ]

unfoldable pub init_heap : ℕ → ℕ → ℕ → Heap → Outcome Heap
unfolding map_pages
init_heap pml4 heap_address page_count h =
    map_pages pml4 page_count heap_address h.machine >>= λ (end, machine').
    let heap_length = u64 (page_count * 4096) in
    done (record h {
      heap_start = heap_address;
      heap_end = u64 (heap_address + heap_length);
      headers =
          put h.headers heap_address
            (record { length = sub64 heap_length header_size; next = 0; last = 0; free = true });
      last_hdr = heap_address;
      machine = machine';
    })

-- The walk of `getUsedMem` on fuel.
unfoldable pub used_loop : ℕ → ℕ → ℕ → Heap → Option ℕ
used_loop zero a used h = none
used_loop (suc fuel) a used h =
    let this = h.headers a in
    let used' = if this.free then used else u64 (used + this.length + header_size) in
    let further = used_loop fuel this.next used' h in if this.next == 0 then some used' else further

unfoldable pub used_mem : ℕ → Heap → Option ℕ
unfolding used_loop
used_mem fuel h = used_loop fuel h.heap_start 0 h
