-- ===== src/Examples/Memory.antt =====
-- Concrete runs for kernel/lib/bitmap.cpp, kernel/mem/pageframeallocator.cpp, paging.cpp and
-- memutils.cpp.
use oke_os.Prelude.{
  ◌/◌, inl, inr, ℕ, zero, suc, ◌*◌, ◌^◌, ◌<◌, ◌≡◌, refl, ◌⊎◌, true, false, List, [], ◌∷◌, All,
  arith, ◌==◌, if◌then◌else◌,
}
use oke_os.Bitmap.{Bitmap, get, set, test_bit, write_bit, IsValid}
use oke_os.Bitmap.Bits.{get-set}
use oke_os.MemoryMap.{MemmapEntry, Fits}
use oke_os.PageFrame.{Pfa, done, locked, request_page, lock_page, lock_pages, init}
use oke_os.PageFrame.Invariant.{IsSound}
use oke_os.PageFrame.Request.{Granted, Exhausted, request_page_lowest}
use oke_os.PageFrame.Clients.{Client, IsSafe, start, next, request, mark, request_page_unshared}
use oke_os.PageFrame.Ranges.{Ranged, lock_pages-Ranged}
use oke_os.PageFrame.Largest.{IsLargest, IsEnd, Initialised, init-Initialised}
use oke_os.Paging.{Machine, present, get_flag}
use oke_os.Paging.Walk.{Shape, IsTree, absent_zero}

-- 8 pages, of which the first two are locked.
abbrev two_locked : Bitmap
two_locked = record { size = 1; buffer = λ i. if i == 0 then 0b11000000 else 0 }

two_locked-IsValid : IsValid two_locked
two_locked-IsValid = record { fits = omega arith; bytes = λ i. ground arith }

get-set_example : get (set two_locked 5 true).0 1 ≡ (if 5 == 1 then true else get two_locked 1)
get-set_example = get-set two_locked-IsValid 5 1 true (omega arith) (omega arith)

abbrev allocator : Pfa
allocator = record {
  free_memory = 24576;
  used_memory = 8192;
  bitmap_idx = 2;
  end_of_memory = 32768;
  bitmap = two_locked;
  memmap = [];
  oom_panics = true;
}

allocator_passed : (j : ℕ) → j < 2 → locked allocator j ≡ true
unfolding get test_bit
allocator_passed zero h = refl
allocator_passed (suc zero) h = refl
allocator_passed (suc (suc j)) h = absurd (omega arith)

pub allocator-IsSound : IsSound allocator
allocator-IsSound = record {
  valid = two_locked-IsValid;
  addressable = omega arith;
  within = omega arith;
  passed = allocator_passed;
}

request_page_lowest_example :
    Granted allocator (request_page allocator) ⊎ Exhausted allocator (request_page allocator)
request_page_lowest_example = request_page_lowest allocator-IsSound refl

-- A client that holds no page, and what it comes to when it is given page 2.
abbrev client : Client
client = record { allocator = allocator; held = λ j. false }

client-IsSafe : IsSafe client
client-IsSafe = record {
  sound = allocator-IsSound;
  in_range = λ j h. ground arith;
  is_locked = λ j h. ground arith;
}

abbrev three_locked : Bitmap
three_locked = (set two_locked 2 true).0

abbrev served : Pfa
served = record allocator { bitmap = three_locked; free_memory = 20480; used_memory = 12288 }

abbrev served_again : Pfa
served_again = record served {
  bitmap_idx = 3;
  bitmap = (set three_locked 3 true).0;
  free_memory = 16384;
  used_memory = 16384;
}

first_request : request_page allocator ≡ done (2 * 4096, served)
unfolding request_page lock_page get set test_bit write_bit
first_request = refl

second_request : request_page served ≡ done (3 * 4096, served_again)
unfolding request_page lock_page get set test_bit write_bit
second_request = refl

request_page_unshared_example : (mark client.held 2 true 3 ≡ false) × (3 < served.bitmap.size * 8)
request_page_unshared_example =
    request_page_unshared client-IsSafe (next start (request 2 served first_request)) 3 served_again
      second_request

-- Four GiB of pages, none of them locked.
abbrev large : Pfa
large = record allocator { bitmap = record { size = 2 ^ 17; buffer = λ i. 0 } }

large-IsValid : IsValid large.bitmap
large-IsValid = record { fits = omega arith; bytes = λ i. omega arith }

lock_pages-Ranged_example :
    Ranged true (8192 / 4096) (2 ^ 19) large (lock_pages 8192 (2 ^ 19) large)
lock_pages-Ranged_example =
    lock_pages-Ranged 8192 (2 ^ 19) large-IsValid (omega arith) (omega arith)

-- A reserved area and the usable megabyte behind it.
abbrev pub map : List MemmapEntry
map =
    record { base = 0; length = 0x100000; type = 1 }
    ∷ record { base = 0x100000; length = 0x100000; type = 0 }
    ∷ []

pub map-Fits : All Fits map
map-Fits = (omega arith, (omega arith, tt))

abbrev pub reserved : MemmapEntry
reserved = record { base = 0; length = 0x100000; type = 1 }

abbrev pub megabyte : MemmapEntry
megabyte = record { base = 0x100000; length = 0x100000; type = 0 }

pub megabyte-IsLargest : IsLargest (reserved ∷ []) megabyte []
megabyte-IsLargest = record {
  is_usable = refl;
  some_bytes = omega arith;
  earlier = (λ e. absurd (omega arith), tt);
  later = tt;
}

pub map-IsEnd : IsEnd 0x200000 map
map-IsEnd = record { above = (omega arith, (omega arith, tt)); reached = inr (inl refl) }

init-Initialised_example :
    (t : Pfa) × (init map (λ q. 255) allocator ≡ done t) × Initialised map megabyte 0x200000 t
init-Initialised_example =
    init-Initialised (reserved ∷ []) megabyte [] 0x200000 (λ q. 255) allocator map-Fits map-IsEnd
      (omega arith) megabyte-IsLargest (λ z. omega (arith, z)) (λ q. omega arith)

-- An empty table of the highest level at the address 0.
abbrev pub machine : Machine
machine = record { allocator = allocator; tables = λ t i. 0 }

abbrev pub shape : Shape
shape = record { level = λ t. if t == 0 then 4 else 0; parent = λ t. 0; slot = λ t. 0 }

empty : (A : Type 0) (t i : ℕ) → get_flag (machine.tables t i) present ≡ true → A
empty A t i h = let e = absent_zero in absurd cc

pub machine-IsTree : IsTree machine shape
machine-IsTree = record {
  sound = allocator-IsSound;
  physical = omega arith;
  words = λ t i. omega arith;
  in_range = λ t h. ground arith;
  is_locked = λ t h. let e : t ≡ 0 = ground arith in rw e (allocator_passed 0 (omega arith));
  child_level = λ t i k l h. empty _ t i h;
  child_parent = λ t i k l h. empty _ t i h;
  child_slot = λ t i k l h. empty _ t i h;
}
