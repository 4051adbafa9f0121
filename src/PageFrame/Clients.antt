-- ===== src/PageFrame/Clients.antt =====
-- The kernel's use of the allocator: pages are requested, given back by whoever holds them, and
-- locked by address. No page is given to two holders.
use oke_os.Prelude.{
  ℕ, ◌*◌, ◌<◌, ◌≡◌, inl, inr, Bool, true, false, ◌&&◌, arith, ltb, ◌==◌, if◌then◌else◌, Bool-cases,
}
use oke_os.PageFrame.{Pfa, done, locked, lock_page, free_page, request_page}
use oke_os.PageFrame.Pages.{locked-lock_page, locked-free_page, size-lock_page, size-free_page}
use oke_os.PageFrame.Invariant.{IsSound, lock_page-IsSound, free_page-IsSound}
use oke_os.PageFrame.Request.{Granted, request_page_lowest, request_page_low}

-- `held` marks the pages that were given out and not given back.
pub record Client : Type 0 where
  pub allocator : Pfa
  pub held : ℕ → Bool

abbrev pub mark : (ℕ → Bool) → ℕ → Bool → ℕ → Bool
mark f page v j = if page == j then v else f j

pub data Step (c : Client) : Client → Type 0 where
  request :
      (page : ℕ) (after : Pfa)
      → request_page c.allocator ≡ done (page * 4096, after)
      → Step c (record { allocator = after; held = mark c.held page true })
  release :
      (page : ℕ)
      → c.held page ≡ true
      → Step c (record {
        allocator = free_page (page * 4096) c.allocator;
        held = mark c.held page false;
      })
  reserve : (addr : ℕ) → Step c (record { allocator = lock_page addr c.allocator; held = c.held })

pub data Reach (c : Client) : Client → Type 0 where
  start : Reach c c
  next : {d e : Client} → Reach c d → Step d e → Reach c e

-- Every held page lies in the bitmap and is locked.
pub record IsSafe (c : Client) : Type 0 where
  pub sound : IsSound c.allocator
  pub in_range : (j : ℕ) → c.held j ≡ true → j < c.allocator.bitmap.size * 8
  pub is_locked : (j : ℕ) → c.held j ≡ true → locked c.allocator j ≡ true

-- A request that returns was granted.
granted :
    {s : Pfa} (sound : IsSound s) (page : ℕ) (after : Pfa)
    → request_page s ≡ done (page * 4096, after)
    → (g : Granted s (request_page s)) × (g.page ≡ page) × (g.after ≡ after)
granted {s} sound page after e = elim (Bool-cases (s.oom_panics && ltb s.free_memory 16384)) [
  | inl low ↦ absurd (ground (arith, request_page_low s))
  | inr enough ↦ elim (request_page_lowest sound enough) [
    | inl g ↦ (g, ground (arith, g.returns), ground (arith, g.returns))
    | inr x ↦ ground (arith, x.halts)
  ]
]

request-IsSafe :
    {c : Client} (page : ℕ) (after : Pfa)
    → IsSafe c
    → request_page c.allocator ≡ done (page * 4096, after)
    → IsSafe (record { allocator = after; held = mark c.held page true })
request-IsSafe {c} page after safe e =
    let (g, p, a) = granted safe.sound page after e in
    record {
      sound = rw a at (g.sound);
      in_range = λ j h. ground (arith, safe.in_range j, g.in_range, g.same_size);
      is_locked = λ j h. ground (arith, safe.in_range j, safe.is_locked j, g.marks j, g.in_range);
    }

release-IsSafe :
    {c : Client} (page : ℕ)
    → IsSafe c
    → IsSafe
        (record { allocator = free_page (page * 4096) c.allocator; held = mark c.held page false })
release-IsSafe {c} page safe = record {
  sound = free_page-IsSound _ safe.sound;
  in_range = λ j h. ground (arith, safe.in_range j, size-free_page (page * 4096) c.allocator);
  is_locked = λ j h. ground (
    arith,
    safe.in_range j,
    safe.is_locked j,
    locked-free_page c.allocator safe.sound.valid (page * 4096) j,
  );
}

reserve-IsSafe :
    {c : Client} (addr : ℕ)
    → IsSafe c
    → IsSafe (record { allocator = lock_page addr c.allocator; held = c.held })
reserve-IsSafe {c} addr safe = record {
  sound = lock_page-IsSound addr safe.sound;
  in_range = λ j h. omega (arith, safe.in_range j h, size-lock_page addr c.allocator);
  is_locked = λ j h. ground (
    arith,
    safe.in_range j,
    safe.is_locked j,
    locked-lock_page c.allocator safe.sound.valid addr j,
  );
}

pub Step-IsSafe : {c d : Client} → Step c d → IsSafe c → IsSafe d
Step-IsSafe (request page after e) safe = request-IsSafe page after safe e
Step-IsSafe (release page h) safe = release-IsSafe page safe
Step-IsSafe (reserve addr) safe = reserve-IsSafe addr safe

pub Reach-IsSafe : {c d : Client} → Reach c d → IsSafe c → IsSafe d
Reach-IsSafe start safe = safe
Reach-IsSafe (next r st) safe = Step-IsSafe st (Reach-IsSafe r safe)

-- Whatever requests, releases and reservations came before, a page that a request gives out is
-- held by nobody, and lies in the bitmap.
pub request_page_unshared :
    {c d : Client}
    → IsSafe c
    → Reach c d
    → (page : ℕ) (after : Pfa) → request_page d.allocator ≡ done (page * 4096, after)
    → (d.held page ≡ false) × (page < d.allocator.bitmap.size * 8)
request_page_unshared {d = d} safe r page after e =
    let safe' = Reach-IsSafe r safe in
    let (g, p, a) = granted safe'.sound page after e in
    (ground (arith, safe'.is_locked page, g.was_free), ground (arith, g.in_range))
