-- ===== src/PageFrame/Invariant.antt =====
-- The allocator's invariant: the search index stands below no free page that it has passed.
use oke_os.Prelude.{ℕ, ◌*◌, ◌/◌, ◌^◌, ◌≤◌, ◌<◌, ◌≡◌, true, false, arith, ◌==◌}
use oke_os.Bitmap.{IsValid}
use oke_os.Bitmap.Bits.{set_succeeds}
use oke_os.PageFrame.{Pfa, locked, lock_page, free_page}
use oke_os.PageFrame.Pages.{
  lock_page-IsValid, free_page-IsValid, locked-lock_page, locked-free_page, size-lock_page,
  size-free_page,
}

-- The address of a page that the bitmap covers is a `u64`, the index is within the bitmap, and
-- every page below the index is locked.
pub record IsSound (s : Pfa) : Type 0 where
  pub valid : IsValid s.bitmap
  pub addressable : s.bitmap.size * 32768 < 2 ^ 64
  pub within : s.bitmap_idx ≤ s.bitmap.size * 8
  pub passed : (j : ℕ) → j < s.bitmap_idx → locked s j ≡ true

pub idx-lock_page : (addr : ℕ) (s : Pfa) → (lock_page addr s).bitmap_idx ≡ s.bitmap_idx
unfolding lock_page
idx-lock_page addr s = ground arith

idx-free_page-le : (addr : ℕ) (s : Pfa) → (free_page addr s).bitmap_idx ≤ s.bitmap_idx
unfolding free_page
idx-free_page-le addr s = ground arith

-- A page that was locked and is freed is not passed any more.
idx-free_page_freed :
    {s : Pfa} (sound : IsSound s) (addr j : ℕ)
    → j < (free_page addr s).bitmap_idx
    → (addr / 4096 == j) ≡ false
unfolding free_page
idx-free_page_freed {s} sound addr j h = ground (
  arith,
  sound.within,
  idx-free_page-le addr s,
  sound.passed j,
  sound.passed (addr / 4096),
  set_succeeds sound.valid (addr / 4096) false,
)

pub lock_page-IsSound : {s : Pfa} (addr : ℕ) → IsSound s → IsSound (lock_page addr s)
lock_page-IsSound {s} addr sound = record {
  valid = lock_page-IsValid s sound.valid addr;
  addressable = omega (arith, sound.addressable, size-lock_page addr s);
  within = omega (arith, sound.within, size-lock_page addr s, idx-lock_page addr s);
  passed = λ j h. ground (
    arith,
    sound.within,
    idx-lock_page addr s,
    sound.passed j,
    locked-lock_page s sound.valid addr j,
  );
}

pub free_page-IsSound : {s : Pfa} (addr : ℕ) → IsSound s → IsSound (free_page addr s)
free_page-IsSound {s} addr sound = record {
  valid = free_page-IsValid s sound.valid addr;
  addressable = omega (arith, sound.addressable, size-free_page addr s);
  within = omega (arith, sound.within, size-free_page addr s, idx-free_page-le addr s);
  passed = λ j h. ground (
    arith,
    sound.within,
    idx-free_page-le addr s,
    idx-free_page_freed sound addr j h,
    sound.passed j,
    locked-free_page s sound.valid addr j,
  );
}
