-- ===== src/PageFrame/Pages.antt =====
-- What the operations do to the lock of each page.
use oke_os.Prelude.{ℕ, ◌*◌, ◌/◌, ◌≤◌, ◌≡◌, true, false, arith, ◌==◌, if◌then◌else◌}
use oke_os.Bitmap.{IsValid}
use oke_os.Bitmap.Bits.{set-IsValid, get-set, set_succeeds, set_fails, size-set}
use oke_os.PageFrame.{Pfa, locked, lock_page, free_page}

module _ (s : Pfa) (valid : IsValid s.bitmap) (addr : ℕ) where
  pub lock_page-IsValid : IsValid (lock_page addr s).bitmap
  unfolding lock_page
  lock_page-IsValid = ground (arith, valid, set-IsValid valid (addr / 4096) true)

  pub free_page-IsValid : IsValid (free_page addr s).bitmap
  unfolding free_page
  free_page-IsValid = ground (arith, valid, set-IsValid valid (addr / 4096) false)

  pub locked-lock_page :
      (j : ℕ)
      → j ≤ s.bitmap.size * 8
      → locked (lock_page addr s) j ≡ (if addr / 4096 == j then true else locked s j)
  unfolding lock_page
  locked-lock_page j h = ground (
    arith,
    valid.fits,
    get-set valid (addr / 4096) j true,
    set_fails valid (addr / 4096) true,
    set_succeeds valid (addr / 4096) true,
  )

  pub locked-free_page :
      (j : ℕ)
      → j ≤ s.bitmap.size * 8
      → locked (free_page addr s) j ≡ (if addr / 4096 == j then false else locked s j)
  unfolding free_page
  locked-free_page j h = ground (
    arith,
    valid.fits,
    get-set valid (addr / 4096) j false,
    set_fails valid (addr / 4096) false,
    set_succeeds valid (addr / 4096) false,
  )

pub size-lock_page : (addr : ℕ) (s : Pfa) → ((lock_page addr s).bitmap).size ≡ s.bitmap.size
unfolding lock_page
size-lock_page addr s = ground (arith, size-set s.bitmap (addr / 4096) true)

pub size-free_page : (addr : ℕ) (s : Pfa) → ((free_page addr s).bitmap).size ≡ s.bitmap.size
unfolding free_page
size-free_page addr s = ground (arith, size-set s.bitmap (addr / 4096) false)
