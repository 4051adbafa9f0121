-- ===== src/PageFrame/Loops.antt =====
-- The loops of `mem_pageframeallocator_init`.
use oke_os.Prelude.{
  ℕ, zero, suc, ◌+◌, ◌*◌, ◌/◌, ◌%◌, ◌^◌, ◌≤◌, ◌<◌, ◌≡◌, ◌∙◌, refl, inl, inr, Bool, false, ◌&&◌,
  ◌||◌, List, [], ◌∷◌, All, arith, u64, if◌then◌else◌, ◌==◌, ltb, leb, Bool-cases,
}
use oke_os.Bitmap
use oke_os.Bitmap.{Bitmap, IsValid, write_byte}
use oke_os.Bitmap.Byte.{test_bit-zero}
use oke_os.MemoryMap.{MemmapEntry, Fits}
use oke_os.PageFrame.{
  Pfa, Survey, free_pages, free_pages_loop, lock_pages_loop, lock_pages, int_offset, locked,
  clear_bytes, init_bitmap, survey, free_usable,
}
use oke_os.PageFrame.Invariant.{IsSound, lock_page-IsSound, free_page-IsSound}
use oke_os.PageFrame.Ranges.{in_pages, free_pages-Ranged}

clear_bytes_lem :
    (n i : ℕ) (m : ℕ → ℕ) (q : ℕ)
    → clear_bytes n i m q ≡ (if leb i q && ltb q (i + n) then 0 else m q)
unfolding clear_bytes
clear_bytes_lem zero i m q = ground arith
clear_bytes_lem (suc n) i m q = ground (arith, clear_bytes_lem n (i + 1) (write_byte m i 0) q)

-- A fresh bitmap has no bit set.
pub init_bitmap_free :
    (size : ℕ) (m : ℕ → ℕ) (s : Pfa) (j : ℕ)
    → j < size * 8
    → locked (init_bitmap size m s) j ≡ false
unfolding init_bitmap Bitmap.get
init_bitmap_free size m s j h =
    ground (arith, clear_bytes_lem size 0 m (j / 8), test_bit-zero (j % 8))

pub init_bitmap-IsSound :
    (size : ℕ) (m : ℕ → ℕ) (s : Pfa)
    → size * 32768 < 2 ^ 64
    → ((q : ℕ) → m q < 256)
    → IsSound (init_bitmap size m s)
unfolding init_bitmap
init_bitmap-IsSound size m s small bytes = record {
  valid = record {
    fits = omega arith;
    bytes = λ q. ground (arith, bytes q, clear_bytes_lem size 0 m q);
  };
  addressable = small;
  within = omega arith;
  passed = λ j h. absurd (omega arith);
}

lock_pages_loop-IsSound :
    (n i addr : ℕ) {s : Pfa} → IsSound s → IsSound (lock_pages_loop n i addr s)
unfolding lock_pages_loop
lock_pages_loop-IsSound zero i addr sound = sound
lock_pages_loop-IsSound (suc n) i addr sound =
    lock_pages_loop-IsSound n (i + 1) addr (lock_page-IsSound (u64 (addr + int_offset i)) sound)

pub lock_pages-IsSound : (addr n : ℕ) {s : Pfa} → IsSound s → IsSound (lock_pages addr n s)
unfolding lock_pages
lock_pages-IsSound addr n sound = lock_pages_loop-IsSound n 0 addr sound

free_pages_loop-IsSound :
    (n i addr : ℕ) {s : Pfa} → IsSound s → IsSound (free_pages_loop n i addr s)
unfolding free_pages_loop
free_pages_loop-IsSound zero i addr sound = sound
free_pages_loop-IsSound (suc n) i addr sound =
    free_pages_loop-IsSound n (i + 1) addr (free_page-IsSound (u64 (addr + u64 (i * 4096))) sound)

free_pages-IsSound : (addr n : ℕ) {s : Pfa} → IsSound s → IsSound (free_pages addr n s)
unfolding free_pages
free_pages-IsSound addr n sound = free_pages_loop-IsSound n 0 addr sound

-- The page lies, whole, in a usable entry of the map (counted from the entry's first page).
abbrev pub usable : List MemmapEntry → ℕ → Bool
usable [] j = false
usable (e ∷ es) j = (e.type == 0 && in_pages (e.base / 4096) (e.length / 4096) j) || usable es j

-- What freeing the usable entries has done.
pub record Freed (es : List MemmapEntry) (s t : Pfa) : Type 0 where
  pub sound : IsSound t
  pub same_size : t.bitmap.size ≡ s.bitmap.size
  pub writes :
      (j : ℕ) → j ≤ s.bitmap.size * 8 → locked t j ≡ (if usable es j then false else locked s j)

pub free_usable-Freed :
    (es : List MemmapEntry) {s : Pfa} → All Fits es → IsSound s → Freed es s (free_usable es s)
unfolding free_usable
free_usable-Freed [] fits sound = record { sound = sound; same_size = refl; writes = λ j h. refl }
free_usable-Freed (e ∷ es) {s} fits sound = elim (Bool-cases (e.type == 0)) [
  | inl is_usable ↦
      let range = free_pages-Ranged e.base (e.length / 4096) sound.valid (omega (arith, fits.0)) in
      let rest = free_usable-Freed es fits.1 (free_pages-IsSound e.base (e.length / 4096) sound) in
      rw is_usable (record {
        sound = rest.sound;
        same_size = rest.same_size ∙ range.same_size;
        writes = λ j h. ground (arith, is_usable, range.same_size, range.writes j, rest.writes j);
      })
  | inr other ↦
      let rest = free_usable-Freed es fits.1 sound in
      rw other (record {
        sound = rest.sound;
        same_size = rest.same_size;
        writes = λ j h. ground (arith, other, rest.writes j);
      })
]

-- The survey's largest segment starts below any bound on the ends of the entries.
pub survey_bounded :
    (es : List MemmapEntry) (bound : ℕ) (v : Survey)
    → All (λ e. e.base + e.length ≤ bound) es
    → v.largest_free_segment ≤ bound
    → (survey es v).largest_free_segment ≤ bound
unfolding survey
survey_bounded [] bound v below h = h
survey_bounded (e ∷ es) bound v below h =
    survey_bounded es bound _ below.1 (ground (arith, below.0))
