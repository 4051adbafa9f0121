-- ===== src/Builder.antt =====
-- `FastStringBuilder` of kernel/lib/string.cpp, over the heap. The array `parts` is a function from
-- indices to the pointers that it holds, as it is never read in another way; what it holds before
-- is whatever the allocation held. No result means that fuel ran out: `text` is that of `strlen`.
pub mod Sum
pub mod Join
use oke_os.Prelude.{
  ℕ, zero, suc, ◌+◌, ◌-◌, ◌*◌, ◌%◌, ◌^◌, Option, none, some, leb, ◌==◌, if◌then◌else◌, u32, u64,
  sub64,
}
use oke_os.MemLib.{Memory, memcpy, strlen}
use oke_os.PageFrame.{Outcome, done, panicked}
use oke_os.Heap.{Heap, free, sfree, malloc}
use oke_os.Heap.Attempt.{Attempt, ◌then_try◌, allocate}

pub record Builder : Type 0 where
  pub slots : ℕ → ℕ
  pub parts : ℕ
  pub n_parts : ℕ
  pub part_offset : ℕ
  pub output_buf : ℕ
  pub output_buf_size : ℕ

-- `sizeof(FastStringBuilder)`
abbrev pub builder_size : ℕ
builder_size = 32

abbrev pub empty_builder : (ℕ → ℕ) → ℕ → ℕ → Builder
empty_builder memory p parts = record {
  slots = memory;
  parts = p;
  n_parts = parts;
  part_offset = 0;
  output_buf = 0;
  output_buf_size = 0;
}

unfoldable pub new_builder : ℕ → (ℕ → ℕ) → ℕ → Heap → Attempt (Builder × Heap)
unfolding malloc
new_builder pml4 memory parts h = allocate pml4 (u64 (8 * parts)) h then_try λ (p, h').
    some (done (empty_builder memory p parts, h'))

abbrev pub put_slot : (ℕ → ℕ) → ℕ → ℕ → ℕ → ℕ
put_slot slots i p j = if i == j then p else slots j

-- `overflow` is the address of the text that reports one part too many.
unfoldable pub append : ℕ → ℕ → Builder → Builder
append overflow ptr b =
    if leb b.n_parts b.part_offset
    then record b { slots = put_slot b.slots (sub64 b.n_parts 1) overflow }
    else record b { slots = put_slot b.slots b.part_offset ptr; part_offset = b.part_offset + 1 }

-- `fullSize`
unfoldable pub measure : ℕ → ℕ → ℕ → ℕ → (ℕ → ℕ) → Memory → Option ℕ
unfolding strlen
measure text zero i full slots m = some full
measure text (suc rounds) i full slots m = elim (strlen text (slots i) m) [
  | none ↦ none
  | some n ↦ measure text rounds (i + 1) (u64 (full + u32 (n + 1))) slots m
]

unfoldable pub join : ℕ → ℕ → ℕ → ℕ → ℕ → (ℕ → ℕ) → Memory → Option Memory
unfolding strlen memcpy
join text zero i off out slots m = some m
join text (suc rounds) i off out slots m = elim (strlen text (slots i) m) [
  | none ↦ none
  | some n ↦ join text rounds (i + 1) (u64 (off + n)) out slots (memcpy (out + off) (slots i) n m)
]

-- The copy into the new buffer, and the address that is returned; `unable` is the address of the
-- text that reports that there is no memory.
unfoldable pub fill : ℕ → ℕ → ℕ → Builder → ℕ × Heap → Attempt (ℕ × Builder × Heap)
unfolding join
fill text unable full b (out, h) =
    if out == 0
    then some (done (unable, record b { output_buf = 0 }, h))
    else elim (join text b.n_parts 0 0 out b.slots h.memory) [
      | none ↦ none
      | some m ↦ some (
          done (
            out,
            record b { output_buf = out; output_buf_size = u32 full },
            record h { memory = m },
          ))
    ]

-- A buffer of an earlier `build` is freed.
unfoldable pub release_output : Builder → Heap → Heap
unfolding free
release_output b h = if b.output_buf == 0 then h else free b.output_buf h

unfoldable pub build : ℕ → ℕ → ℕ → Builder → Heap → Attempt (ℕ × Builder × Heap)
unfolding measure fill release_output malloc
build text pml4 unable b h = elim (measure text b.n_parts 0 0 b.slots h.memory) [
  | none ↦ none
  | some full ↦ allocate pml4 full (release_output b h) then_try fill text unable full b
]

-- The destructor; the size that it gives for the array is that of `nParts`.
unfoldable pub destroy : Builder → Heap → Heap
unfolding sfree
destroy b h = sfree b.output_buf b.output_buf_size (sfree b.parts 4 h)

-- `delete this`
unfoldable pub delete_builder : ℕ → Builder → Heap → Heap
unfolding destroy free
delete_builder this b h = free this (destroy b h)

unfoldable pub build_and_destroy : ℕ → ℕ → ℕ → ℕ → Builder → Heap → Attempt (ℕ × Heap)
unfolding build delete_builder
build_and_destroy text pml4 unable this b h = build text pml4 unable b h then_try λ (ptr, b', h').
    some (done (ptr, delete_builder this b' h'))
