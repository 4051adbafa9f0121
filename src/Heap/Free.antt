-- ===== src/Heap/Free.antt =====
-- `free` as an operation on the map of blocks.
use oke_os.Prelude.{
  sub64, ℕ, suc, ◌+◌, ◌<◌, ◌≡◌, sym, inl, inr, Bool-cases, ==_iff, List, [], ◌∷◌, none, some, arith,
  ◌==◌, if◌then◌else◌, length,
}
use mathlib.Core.Path.{subst}
use oke_os.Heap.{header_size, Heap, free}
use oke_os.Heap.Chain.{Segment, behind, IsHeap}
use oke_os.Heap.Release.{release, address, address-le, length-release, free_at-Kept}
use oke_os.Heap.Coalesced.{release-Coalesced}
use oke_os.Heap.Blocks.{block, some_ne, block-release}

-- The heap without the block at `p`.
pub record Freed (h : Heap) (xs : List Segment) (p : ℕ) (h' : Heap) : Type 0 where
  pub segments : List Segment
  pub heap : IsHeap h' segments
  pub blocks :
      (q : ℕ) → block h.heap_start segments q ≡ (if q == p then none else block h.heap_start xs q)
  pub heap_start : h'.heap_start ≡ h.heap_start
  pub heap_end : h'.heap_end ≡ h.heap_end
  pub machine : h'.machine ≡ h.machine
  pub memory : h'.memory ≡ h.memory

-- On a heap with the segments `xs`, `free` at the payload of any of them leaves a heap with the
-- segments that `release` gives, of the same extent, and touches neither the machine nor
-- the bytes behind the headers.
pub free-release :
    (i : ℕ) {xs : List Segment} {h : Heap}
    → IsHeap h xs
    → i < length xs
    → let h' = free (address h.heap_start i xs + header_size) h in
      IsHeap h' (release i xs)
      × (h'.heap_start ≡ h.heap_start)
      × (h'.heap_end ≡ h.heap_end)
      × (h'.machine ≡ h.machine)
      × (h'.memory ≡ h.memory)
unfolding free
free-release i {xs} {h} heap n =
    let a = address h.heap_start i xs in
    let room = address-le h.heap_start i xs n in
    let back : sub64 (a + header_size) header_size ≡ a =
      omega (arith, room, heap.tail.end, heap.tail.small) in
    let (t, s) = free_at-Kept i xs heap.tail n in
    rw back (
      record {
        tail = rw s.heap_start t;
        nonempty = length-release i xs heap.nonempty;
        coalesced = release-Coalesced i xs heap.coalesced;
        aligned = rw s.heap_end heap.aligned;
      },
      s.heap_start,
      s.heap_end,
      s.machine,
      s.memory,
    )

-- The segment of a block.
pub block-index :
    (a : ℕ) (xs : List Segment) (p n : ℕ)
    → block a xs p ≡ some n
    → (i : ℕ) × (i < length xs) × (address a i xs + header_size ≡ p)
block-index a [] p n e = absurd (some_ne n (sym e))
block-index a (x ∷ xs) p n e = elim (Bool-cases (p == a + header_size)) [
  | inl here ↦ (0, omega arith, sym ((==_iff p (a + header_size)).0 here))
  | inr there ↦
      let (i, l, at) = block-index (behind a x) xs p n (rw there at e) in (suc i, omega arith, at)
]

-- On a sound heap, `free` of a block in use takes this block from the map of blocks, and no other;
-- the heap is sound afterwards and of the same extent, and no page and no byte behind the headers
-- is touched.
pub free-Freed :
    {h : Heap} {xs : List Segment} (p n : ℕ)
    → IsHeap h xs
    → block h.heap_start xs p ≡ some n
    → Freed h xs p (free p h)
free-Freed {h} {xs} p n heap e =
    let (i, l, at) = block-index h.heap_start xs p n e in
    let (heap', start, end, machine, memory) = free-release i heap l in
    subst (λ (q : ℕ). Freed h xs q (free q h)) at
      (record {
        segments = release i xs;
        heap = heap';
        blocks = λ q. block-release h.heap_start i xs q l;
        heap_start = start;
        heap_end = end;
        machine = machine;
        memory = memory;
      })
