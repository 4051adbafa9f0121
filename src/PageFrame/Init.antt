-- ===== src/PageFrame/Init.antt =====
-- The state that `mem_pageframeallocator_init` leaves behind.
use oke_os.Prelude.{
  ℕ, zero, suc, ◌+◌, ◌*◌, ◌/◌, ◌^◌, ◌≤◌, ◌<◌, ◌≡◌, ◌∙◌, refl, true, false, List, All, arith, u64,
  if◌then◌else◌, ◌==◌, ltb,
}
use oke_os.MemoryMap.{MemmapEntry, Fits, areal_size}
use oke_os.MemoryMap.Sizes.{areal_size_largest}
use oke_os.PageFrame.{
  Pfa, done, panicked, no_free_memory, Survey, lock_page, lock_pages_loop, lock_pages, locked,
  init_bitmap, survey, free_usable, bitmap_size_for, init, total_ram,
}
use oke_os.PageFrame.Invariant.{IsSound}
use oke_os.PageFrame.Ranges.{Ranged, in_pages, lock_pages-Ranged}
use oke_os.PageFrame.Loops.{
  init_bitmap_free, init_bitmap-IsSound, lock_pages-IsSound, usable, Freed, free_usable-Freed,
  survey_bounded,
}
use oke_os.PageFrame.Counters.{total_ram_kept}

abbrev pub first_survey : Pfa → Survey
first_survey s = record {
  largest_free_segment = 0;
  largest_free_segment_size = 0;
  end_of_memory = s.end_of_memory;
}

abbrev pub largest : List MemmapEntry → Pfa → ℕ
largest memmap s = (survey memmap (first_survey s)).largest_free_segment

-- The state after `init` on a memory map: the pages of the bitmap are locked, the other pages of
-- usable entries are free, every other page of the memory is locked, and the counters add up to
-- the size of the largest segment.
pub record Surveyed (memmap : List MemmapEntry) (s t : Pfa) : Type 0 where
  pub sound : IsSound t
  pub size : t.bitmap.size ≡ bitmap_size_for (areal_size memmap)
  pub pages :
      (j : ℕ)
      → j < t.bitmap.size * 8
      → locked t j ≡ (
          if in_pages (largest memmap s / 4096) (t.bitmap.size / 4096 + 1) j
          then true
          else if usable memmap j
          then false
          else ltb j (areal_size memmap / 4096))
  pub total : total_ram t ≡ u64 ((survey memmap (first_survey s)).largest_free_segment_size)
  pub watches : t.oom_panics ≡ true

-- The steps of `init`, one after the other.
module _ (memmap : List MemmapEntry) (memory : ℕ → ℕ) (s : Pfa) where
  abbrev bitmap_size : ℕ
  bitmap_size = bitmap_size_for (areal_size memmap)

  abbrev fresh : Pfa
  fresh =
      init_bitmap bitmap_size memory (record s {
        memmap = memmap;
        end_of_memory = (survey memmap (first_survey s)).end_of_memory;
      })

  abbrev all_locked : Pfa
  all_locked = lock_pages 0 (areal_size memmap / 4096) fresh

  abbrev counted : Pfa
  counted = record (free_usable memmap all_locked) {
    used_memory = 0;
    free_memory = (survey memmap (first_survey s)).largest_free_segment_size;
    oom_panics = true;
  }

  abbrev final : Pfa
  final = lock_pages (largest memmap s) (u64 (bitmap_size / 4096 + 1)) counted

  init-final : (largest memmap s == 0) ≡ false → init memmap memory s ≡ done final
  unfolding init
  init-final h = rw h

  module _ (fits : All Fits memmap) (bytes : (q : ℕ) → memory q < 256)
      (small : areal_size memmap ≤ 2 ^ 31) where
    size_bounds : (areal_size memmap / 4096 < bitmap_size * 8) × (bitmap_size ≤ 2 ^ 16 + 1)
    unfolding bitmap_size_for
    size_bounds = omega arith

    fresh-IsSound : IsSound fresh
    fresh-IsSound = init_bitmap-IsSound bitmap_size memory _ (omega (arith, size_bounds)) bytes

    size-fresh : fresh.bitmap.size ≡ bitmap_size
    unfolding init_bitmap
    size-fresh = refl

    all_locked-Ranged : Ranged true (0 / 4096) (areal_size memmap / 4096) fresh all_locked
    all_locked-Ranged =
        lock_pages-Ranged 0 (areal_size memmap / 4096) fresh-IsSound.valid (omega arith)
          (omega arith)

    freed : Freed memmap all_locked (free_usable memmap all_locked)
    freed = free_usable-Freed memmap fits (lock_pages-IsSound 0 _ fresh-IsSound)

    counted-IsSound : IsSound counted
    counted-IsSound = record {
      valid = freed.sound.valid;
      addressable = freed.sound.addressable;
      within = freed.sound.within;
      passed = freed.sound.passed;
    }

    size-counted : counted.bitmap.size ≡ bitmap_size
    size-counted = freed.same_size ∙ all_locked-Ranged.same_size ∙ size-fresh

    final-Ranged :
        Ranged true (largest memmap s / 4096) (u64 (bitmap_size / 4096 + 1)) counted final
    final-Ranged =
        let low =
          survey_bounded memmap (areal_size memmap) (first_survey s)
            (areal_size_largest memmap fits).0 (omega arith) in
        lock_pages-Ranged (largest memmap s) _ counted-IsSound.valid (omega (arith, size_bounds))
          (omega (arith, size_bounds, low))

    final-size : final.bitmap.size ≡ bitmap_size
    final-size = final-Ranged.same_size ∙ size-counted

    final-pages :
        (j : ℕ)
        → j < bitmap_size * 8
        → locked final j ≡ (
            if in_pages (largest memmap s / 4096) (bitmap_size / 4096 + 1) j
            then true
            else if usable memmap j
            then false
            else ltb j (areal_size memmap / 4096))
    final-pages j h =
        let wrap : u64 (bitmap_size / 4096 + 1) ≡ bitmap_size / 4096 + 1 =
          omega (arith, size_bounds) in
        let last = final-Ranged.writes j (omega (arith, size-counted)) in
        let middle = freed.writes j (omega (arith, all_locked-Ranged.same_size, size-fresh)) in
        let first = all_locked-Ranged.writes j (omega (arith, size-fresh)) in
        let empty =
          init_bitmap_free bitmap_size memory
            (record s {
              memmap = memmap;
              end_of_memory = (survey memmap (first_survey s)).end_of_memory;
            })
            j h in
        rw (last, wrap) (ground (arith, middle, first, empty))

    final-total : total_ram final ≡ u64 ((survey memmap (first_survey s)).largest_free_segment_size)
    final-total = (total_ram_kept (largest memmap s) _ counted).0 ∙ unfold total_ram in omega arith

oom_panics-lock_pages_loop :
    (n i addr : ℕ) (s : Pfa) → (lock_pages_loop n i addr s).oom_panics ≡ s.oom_panics
unfolding lock_pages_loop lock_page
oom_panics-lock_pages_loop zero i addr s = refl
oom_panics-lock_pages_loop (suc n) i addr s =
    oom_panics-lock_pages_loop n (i + 1) addr _ ∙ ground arith

oom_panics-lock_pages : (addr n : ℕ) (s : Pfa) → (lock_pages addr n s).oom_panics ≡ s.oom_panics
unfolding lock_pages
oom_panics-lock_pages addr n s = oom_panics-lock_pages_loop n 0 addr s

-- On a map whose memory ends within 2 GiB and whose largest usable segment does not start at
-- address 0, `init` returns, and leaves the bitmap and the counters as `Surveyed` says.
pub init-Surveyed :
    (memmap : List MemmapEntry) (memory : ℕ → ℕ) (s : Pfa)
    → All Fits memmap
    → ((q : ℕ) → memory q < 256)
    → areal_size memmap ≤ 2 ^ 31
    → (largest memmap s == 0) ≡ false
    → (t : Pfa) × (init memmap memory s ≡ done t) × Surveyed memmap s t
init-Surveyed memmap memory s fits bytes small found =
    let size = final-size memmap memory s fits bytes small in
    (
      final memmap memory s,
      init-final memmap memory s found,
      record {
        sound =
            lock_pages-IsSound (largest memmap s) _
              (counted-IsSound memmap memory s fits bytes small);
        size = size;
        pages = λ j h. rw size (final-pages memmap memory s fits bytes small j (omega arith));
        total = final-total memmap memory s fits bytes small;
        watches = oom_panics-lock_pages (largest memmap s) _ (counted memmap memory s);
      },
    )

-- With no usable entry that starts above address 0 as the largest, `init` panics.
pub init_panics :
    (memmap : List MemmapEntry) (memory : ℕ → ℕ) (s : Pfa)
    → largest memmap s ≡ 0
    → init memmap memory s ≡ panicked no_free_memory
unfolding init
init_panics memmap memory s h = rw h
