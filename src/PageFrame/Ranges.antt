-- ===== src/PageFrame/Ranges.antt =====
-- The loops over ranges of pages.
use oke_os.Prelude.{
  ℕ, zero, suc, ◌+◌, ◌*◌, ◌/◌, ◌^◌, ◌≤◌, ◌≡◌, ◌∙◌, refl, Bool, true, false, ◌&&◌, arith, u64,
  if◌then◌else◌, ltb, leb,
}
use oke_os.Bitmap.{IsValid}
use oke_os.PageFrame.{
  Pfa, lock_page, free_page, free_pages_loop, free_pages, lock_pages_loop, lock_pages, int_offset,
  locked,
}
use oke_os.PageFrame.Pages.{
  lock_page-IsValid, free_page-IsValid, locked-lock_page, locked-free_page, size-lock_page,
  size-free_page,
}

-- The page `j` lies from `first` on, below `first + n`.
abbrev pub in_pages : ℕ → ℕ → ℕ → Bool
in_pages first n j = leb first j && ltb j (first + n)

-- What a range operation that writes `v` has done: the pages of the range have `v`, the others are
-- as they were.
pub record Ranged (v : Bool) (first n : ℕ) (s t : Pfa) : Type 0 where
  pub valid : IsValid t.bitmap
  pub same_size : t.bitmap.size ≡ s.bitmap.size
  pub writes :
      (j : ℕ) → j ≤ s.bitmap.size * 8 → locked t j ≡ (if in_pages first n j then v else locked s j)

-- One page more in front of a range.
module _ {v : Bool} {first n : ℕ} {s m t : Pfa} where
  Ranged-cons : Ranged v first 1 s m → Ranged v (first + 1) n m t → Ranged v first (suc n) s t
  Ranged-cons one rest = record {
    valid = rest.valid;
    same_size = rest.same_size ∙ one.same_size;
    writes = λ j h. ground (arith, one.same_size, one.writes j, rest.writes j);
  }

Ranged-none : (v : Bool) (first : ℕ) {s : Pfa} → IsValid s.bitmap → Ranged v first 0 s s
Ranged-none v first valid = record { valid = valid; same_size = refl; writes = λ j h. ground arith }

Ranged-lock_page :
    (addr : ℕ) {first : ℕ} {s : Pfa}
    → IsValid s.bitmap
    → addr / 4096 ≡ first
    → Ranged true first 1 s (lock_page addr s)
Ranged-lock_page addr {s = s} valid e = record {
  valid = lock_page-IsValid s valid addr;
  same_size = size-lock_page addr s;
  writes = λ j h. ground (arith, locked-lock_page s valid addr j);
}

Ranged-free_page :
    (addr : ℕ) {first : ℕ} {s : Pfa}
    → IsValid s.bitmap
    → addr / 4096 ≡ first
    → Ranged false first 1 s (free_page addr s)
Ranged-free_page addr {s = s} valid e = record {
  valid = free_page-IsValid s valid addr;
  same_size = size-free_page addr s;
  writes = λ j h. ground (arith, locked-free_page s valid addr j);
}

lock_pages_loop-Ranged :
    (n i addr : ℕ) {s : Pfa}
    → IsValid s.bitmap
    → i + n ≤ 2 ^ 19
    → addr + (i + n) * 4096 ≤ 2 ^ 64
    → Ranged true (addr / 4096 + i) n s (lock_pages_loop n i addr s)
unfolding lock_pages_loop
lock_pages_loop-Ranged zero i addr valid h k = Ranged-none true _ valid
lock_pages_loop-Ranged (suc n) i addr {s} valid h k =
    let one =
      Ranged-lock_page (u64 (addr + int_offset i)) {first = addr / 4096 + i} {s = s} valid
        (ground arith) in
    let rest : Ranged true (addr / 4096 + (i + 1)) n (lock_page (u64 (addr + int_offset i)) s) _ =
      lock_pages_loop-Ranged n (i + 1) addr one.valid (omega arith) (omega arith) in
    let shifted : addr / 4096 + i + 1 ≡ addr / 4096 + (i + 1) = omega arith in
    Ranged-cons one (rw shifted rest)

free_pages_loop-Ranged :
    (n i addr : ℕ) {s : Pfa}
    → IsValid s.bitmap
    → addr + (i + n) * 4096 ≤ 2 ^ 64
    → Ranged false (addr / 4096 + i) n s (free_pages_loop n i addr s)
unfolding free_pages_loop
free_pages_loop-Ranged zero i addr valid k = Ranged-none false _ valid
free_pages_loop-Ranged (suc n) i addr {s} valid k =
    let one =
      Ranged-free_page (u64 (addr + u64 (i * 4096))) {first = addr / 4096 + i} {s = s} valid
        (ground arith) in
    let rest : Ranged false (addr / 4096 + (i + 1)) n (free_page (u64 (addr + u64 (i * 4096))) s)
        _ =
      free_pages_loop-Ranged n (i + 1) addr one.valid (omega arith) in
    let shifted : addr / 4096 + i + 1 ≡ addr / 4096 + (i + 1) = omega arith in
    Ranged-cons one (rw shifted rest)

-- On a valid bitmap, up to 2 ^ 19 pages (2 GiB) within the address space: `lockPages` locks the
-- pages of the range and no other.
pub lock_pages-Ranged :
    (addr n : ℕ) {s : Pfa}
    → IsValid s.bitmap
    → n ≤ 2 ^ 19
    → addr + n * 4096 ≤ 2 ^ 64
    → Ranged true (addr / 4096) n s (lock_pages addr n s)
unfolding lock_pages
lock_pages-Ranged addr n valid h k =
    let here : addr / 4096 ≡ addr / 4096 + 0 = omega arith in
    rw here (lock_pages_loop-Ranged n 0 addr valid (omega arith) (omega arith))

-- `freePages` frees the pages of any range within the address space, and no other.
pub free_pages-Ranged :
    (addr n : ℕ) {s : Pfa}
    → IsValid s.bitmap
    → addr + n * 4096 ≤ 2 ^ 64
    → Ranged false (addr / 4096) n s (free_pages addr n s)
unfolding free_pages
free_pages-Ranged addr n valid k =
    let here : addr / 4096 ≡ addr / 4096 + 0 = omega arith in
    rw here (free_pages_loop-Ranged n 0 addr valid (omega arith))
