-- ===== src/Examples/Heap.antt =====
-- Concrete runs for kernel/mem/heap.cpp: the heap of the kernel's start, at 8 MiB, of 1 MiB.
use oke_os.Prelude.{◌+◌, ℕ, ◌≡◌, refl, true, false, some, arith, List, [], ◌∷◌}
use oke_os.Heap.{header_size, put, Heap, free, used_mem}
use oke_os.Heap.Chain.{Segment, segment, header, IsHeap}
use oke_os.Heap.Refund.{used_mem-free}
use oke_os.Heap.Free.{Freed, free-Freed}
use oke_os.Examples.Memory.{machine}

-- A block of 16 bytes is in use, the rest is free.
abbrev pub segments : List Segment
segments = segment 16 false ∷ segment 0xfffb6 true ∷ []

abbrev second : ℕ
second = 0x80002d

abbrev pub heap : Heap
heap = record {
  headers =
      put
        (put (λ a. header (segment 0 false) 0 0) second (header (segment 0xfffb6 true) 0x800000 0))
        0x800000 (header (segment 16 false) 0 second);
  memory = λ a. 0;
  heap_start = 0x800000;
  heap_end = 0x900000;
  last_hdr = second;
  machine = machine;
}

pub heap-IsHeap : IsHeap heap segments
heap-IsHeap = record {
  tail = record {
    chain = (refl, (refl, tt));
    final = refl;
    end = refl;
    start = omega arith;
    small = omega arith;
  };
  nonempty = omega arith;
  coalesced = (refl, (refl, tt));
  aligned = refl;
}

free-Freed_example : Freed heap segments 0x80001d (free 0x80001d heap)
free-Freed_example = free-Freed 0x80001d 16 heap-IsHeap refl

used_mem-free_example :
    (u : ℕ) × (used_mem 2 (free 0x80001d heap) ≡ some u)
    × (used_mem 2 heap ≡ some (u + 16 + header_size))
used_mem-free_example = used_mem-free 0x80001d 16 2 heap-IsHeap refl (omega arith)
