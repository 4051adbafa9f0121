-- ===== src/PageFrame/Request.antt =====
-- `mem_pageframeallocator_requestPage` gives out the lowest free page.
use oke_os.Prelude.{
  ℕ, zero, suc, ◌+◌, ◌-◌, ◌*◌, ◌≤◌, ◌<◌, ◌≡◌, refl, ◌⊎◌, inl, inr, true, false, ◌&&◌, arith, ltb,
  ◌==◌, if◌then◌else◌, u64, Bool-cases,
}
use oke_os.PageFrame.{
  Pfa, Outcome, done, panicked, out_of_memory, locked, lock_page, scan, request_page,
}
use oke_os.PageFrame.Pages.{locked-lock_page, size-lock_page}
use oke_os.PageFrame.Invariant.{IsSound, lock_page-IsSound}

-- The outcome hands out a page that was free, the lowest one, and locks that page alone.
pub record Granted (s : Pfa) (r : Outcome (ℕ × Pfa)) : Type 0 where
  pub page : ℕ
  pub after : Pfa
  pub returns : r ≡ done (page * 4096, after)
  pub in_range : page < s.bitmap.size * 8
  pub was_free : locked s page ≡ false
  pub lowest : (j : ℕ) → j < page → locked s j ≡ true
  pub marks :
      (j : ℕ) → j ≤ s.bitmap.size * 8 → locked after j ≡ (if page == j then true else locked s j)
  pub same_size : after.bitmap.size ≡ s.bitmap.size
  pub sound : IsSound after

-- The outcome is a panic, and no page of the bitmap is free.
pub record Exhausted (s : Pfa) (r : Outcome (ℕ × Pfa)) : Type 0 where
  pub halts : r ≡ panicked out_of_memory
  pub full : (j : ℕ) → j < s.bitmap.size * 8 → locked s j ≡ true

scan-here :
    (n : ℕ) {s : Pfa}
    → IsSound s
    → s.bitmap_idx < s.bitmap.size * 8
    → locked s s.bitmap_idx ≡ false
    → Granted s (scan (suc n) s)
unfolding scan
scan-here n {s} sound below free = record {
  page = s.bitmap_idx;
  after = lock_page (u64 (s.bitmap_idx * 4096)) s;
  returns = rw free (ground (arith, sound.addressable));
  in_range = below;
  was_free = free;
  lowest = sound.passed;
  marks = λ j h.
      ground
        (arith, sound.addressable, locked-lock_page s sound.valid (u64 (s.bitmap_idx * 4096)) j);
  same_size = size-lock_page _ s;
  sound = lock_page-IsSound _ sound;
}

abbrev advance : Pfa → Pfa
advance s = record s { bitmap_idx = s.bitmap_idx + 1 }

advance-IsSound :
    {s : Pfa}
    → IsSound s
    → s.bitmap_idx < s.bitmap.size * 8
    → locked s s.bitmap_idx ≡ true
    → IsSound (advance s)
advance-IsSound {s} sound below taken = record {
  valid = sound.valid;
  addressable = sound.addressable;
  within = omega arith;
  passed = λ j h. elim (Bool-cases (j == s.bitmap_idx)) [
    | inl here ↦ ground (arith, taken)
    | inr before ↦ sound.passed j (ground arith)
  ];
}

scan-taken : (n : ℕ) (s : Pfa) → locked s s.bitmap_idx ≡ true → scan (suc n) s ≡ scan n (advance s)
unfolding scan
scan-taken n s taken = rw taken

-- The search goes on with the same bitmap.
from_advanced :
    {s : Pfa} {r : Outcome (ℕ × Pfa)}
    → Granted (advance s) r ⊎ Exhausted (advance s) r
    → Granted s r ⊎ Exhausted s r
from_advanced (inl g) = inl (record {
  page = g.page;
  after = g.after;
  returns = g.returns;
  in_range = g.in_range;
  was_free = g.was_free;
  lowest = g.lowest;
  marks = g.marks;
  same_size = g.same_size;
  sound = g.sound;
})
from_advanced (inr x) = inr (record { halts = x.halts; full = x.full })

scan_lem :
    (n : ℕ) {s : Pfa}
    → IsSound s
    → s.bitmap_idx + n ≡ s.bitmap.size * 8
    → Granted s (scan n s) ⊎ Exhausted s (scan n s)
scan_lem zero {s} sound e =
    inr (record { halts = unfold scan in refl; full = λ j h. sound.passed j (omega arith) })
scan_lem (suc n) {s} sound e = elim (Bool-cases (locked s s.bitmap_idx)) [
  | inl taken ↦ rw (scan-taken n s taken) (
      from_advanced
        (scan_lem n {s = advance s} (advance-IsSound sound (omega arith) taken) (omega arith)))
  | inr free ↦ inl (scan-here n sound (omega arith) free)
]

-- With the check for low memory off or passed, a request takes the lowest free page, locks it and
-- no other, and keeps the invariant; it panics exactly when the bitmap has no free page.
pub request_page_lowest :
    {s : Pfa}
    → IsSound s
    → (s.oom_panics && ltb s.free_memory 16384) ≡ false
    → Granted s (request_page s) ⊎ Exhausted s (request_page s)
unfolding request_page
request_page_lowest {s} sound enough =
    let rounds : u64 (s.bitmap.size * 8) ≡ s.bitmap.size * 8 = omega (arith, sound.addressable) in
    rw (enough, rounds)
      (scan_lem (s.bitmap.size * 8 - s.bitmap_idx) sound (omega (arith, sound.within)))

-- With fewer than four pages counted as free, a request panics.
pub request_page_low :
    (s : Pfa)
    → s.oom_panics ≡ true
    → s.free_memory < 16384
    → request_page s ≡ panicked out_of_memory
unfolding request_page
request_page_low s on low = ground arith
