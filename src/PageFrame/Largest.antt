-- ===== src/PageFrame/Largest.antt =====
-- The first loop of `mem_pageframeallocator_init`: the largest usable entry of the memory map.
use oke_os.Prelude.{
  inl, inr, ℕ, ◌+◌, ◌*◌, ◌/◌, ◌^◌, ◌≤◌, ◌<◌, ◌≡◌, ◌≢◌, ◌∙◌, refl, ap, sym, true, false, List, [],
  ◌∷◌, ◌++◌, All, arith, if◌then◌else◌, ◌==◌, ltb, ==_ne,
}
use oke_os.MemoryMap.{MemmapEntry, Fits, areal_size}
use oke_os.MemoryMap.Sizes.{Reached, areal_size_largest}
use oke_os.PageFrame.{Pfa, done, Survey, locked, survey, bitmap_size_for, init, total_ram}
use oke_os.PageFrame.Invariant.{IsSound}
use oke_os.PageFrame.Ranges.{in_pages}
use oke_os.PageFrame.Loops.{usable}
use oke_os.PageFrame.Init.{first_survey, largest, init-Surveyed}

-- The usable entry `e`, between the others of the map, has at least a byte, more bytes than any usable
-- entry in front of it, and no fewer than any behind it.
pub record IsLargest (before : List MemmapEntry) (e : MemmapEntry) (after : List MemmapEntry)
    : Type 0 where
  pub is_usable : e.type ≡ 0
  pub some_bytes : 0 < e.length
  pub earlier : All (λ x. x.type ≡ 0 → x.length < e.length) before
  pub later : All (λ x. x.type ≡ 0 → x.length ≤ e.length) after

-- The highest end of an entry.
pub record IsEnd (end : ℕ) (memmap : List MemmapEntry) : Type 0 where
  pub above : All (λ x. x.base + x.length ≤ end) memmap
  pub reached : Reached end memmap

Reached-below :
    (n bound : ℕ) (es : List MemmapEntry)
    → All (λ x. x.base + x.length ≤ bound) es
    → Reached n es
    → n ≤ bound
Reached-below n bound [] below r = omega (arith, r)
Reached-below n bound (e ∷ es) below (inl here) = omega (arith, here, below.0)
Reached-below n bound (e ∷ es) below (inr there) = Reached-below n bound es below.1 there

areal_size-IsEnd :
    (end : ℕ) (memmap : List MemmapEntry)
    → All Fits memmap
    → IsEnd end memmap
    → areal_size memmap ≡ end
areal_size-IsEnd end memmap fits e =
    let (above, reached) = areal_size_largest memmap fits in
    let low = Reached-below end (areal_size memmap) memmap above e.reached in
    elim reached [
      | inl zero_end ↦ omega (arith, zero_end, low)
      | inr r ↦ let high = Reached-below (areal_size memmap) end memmap e.above r in omega arith
    ]

-- In front of the entry, all segments are shorter.
survey_before :
    (n : ℕ) (before rest : List MemmapEntry) (v : Survey)
    → v.largest_free_segment_size < n
    → All (λ x. x.type ≡ 0 → x.length < n) before
    → (w : Survey) × (survey (before ++ rest) v ≡ survey rest w) × (w.largest_free_segment_size < n)
unfolding survey
survey_before n [] rest v small earlier = (v, refl, small)
survey_before n (x ∷ before) rest v small earlier =
    survey_before n before rest _ (grind (arith, earlier.0)) earlier.1

survey_after :
    (n b : ℕ) (after : List MemmapEntry) (v : Survey)
    → v.largest_free_segment_size ≡ n
    → v.largest_free_segment ≡ b
    → All (λ x. x.type ≡ 0 → x.length ≤ n) after
    → ((survey after v).largest_free_segment_size ≡ n) × ((survey after v).largest_free_segment ≡ b)
unfolding survey
survey_after n b [] v size base later = (size, base)
survey_after n b (x ∷ after) v size base later =
    survey_after n b after _ (grind (arith, later.0)) (grind (arith, later.0)) later.1

pub survey_largest :
    (before : List MemmapEntry) (e : MemmapEntry) (after : List MemmapEntry) (s : Pfa)
    → IsLargest before e after
    → ((survey (before ++ e ∷ after) (first_survey s)).largest_free_segment_size ≡ e.length)
      × ((survey (before ++ e ∷ after) (first_survey s)).largest_free_segment ≡ e.base)
unfolding survey
survey_largest before e after s l =
    let (w, same, small) =
      survey_before e.length before (e ∷ after) (first_survey s) l.some_bytes l.earlier in
    let (size, base) =
      survey_after e.length e.base after _ (grind (arith, l.is_usable)) (grind (arith, l.is_usable))
        l.later in
    (
      ap (λ v. v.largest_free_segment_size) same ∙ size,
      ap (λ v. v.largest_free_segment) same ∙ base,
    )

-- The state after `init` on a memory map with the largest usable entry `e` and the highest end `end`:
-- the bitmap has a bit for every page below the end; the pages from the start of `e` that hold the
-- bitmap are locked, the other pages of usable entries are free, every other page of the memory is
-- locked, and the counters add up to the length of `e`.
pub record Initialised (memmap : List MemmapEntry) (e : MemmapEntry) (end : ℕ) (t : Pfa)
    : Type 0 where
  pub sound : IsSound t
  pub size : t.bitmap.size ≡ end / 32768 + 1
  pub pages :
      (j : ℕ)
      → j < t.bitmap.size * 8
      → locked t j ≡ (
          if in_pages (e.base / 4096) (t.bitmap.size / 4096 + 1) j
          then true
          else if usable memmap j
          then false
          else ltb j (end / 4096))
  pub total : total_ram t ≡ e.length
  pub watches : t.oom_panics ≡ true

size_for : (end : ℕ) → end ≤ 2 ^ 31 → bitmap_size_for end ≡ end / 32768 + 1
unfolding bitmap_size_for
size_for end small = omega arith

length_small :
    (before : List MemmapEntry) (e : MemmapEntry) (after : List MemmapEntry)
    → All Fits (before ++ e ∷ after)
    → e.length < 2 ^ 64
length_small [] e after fits = omega (arith, fits.0)
length_small (x ∷ before) e after fits = length_small before e after fits.1

-- On a map whose memory ends within 2 GiB and whose largest usable entry does not start at address
-- 0, `init` returns, and leaves the bitmap and the counters as `Initialised` says.
pub init-Initialised :
    (before : List MemmapEntry) (e : MemmapEntry) (after : List MemmapEntry) (end : ℕ)
    (memory : ℕ → ℕ) (s : Pfa)
    → All Fits (before ++ e ∷ after)
    → IsEnd end (before ++ e ∷ after)
    → end ≤ 2 ^ 31
    → IsLargest before e after
    → e.base ≢ 0
    → ((q : ℕ) → memory q < 256)
    → (t : Pfa) × (init (before ++ e ∷ after) memory s ≡ done t)
      × Initialised (before ++ e ∷ after) e end t
init-Initialised before e after end memory s fits last small largest_e placed bytes =
    let memmap = before ++ e ∷ after in
    let (length, base) = survey_largest before e after s largest_e in
    let total = areal_size-IsEnd end memmap fits last in
    let found : (largest memmap s == 0) ≡ false =
      ==_ne (largest memmap s) 0 (λ z. placed (sym base ∙ z)) in
    let (t, returns, made) =
      init-Surveyed memmap memory s fits bytes (omega (arith, total)) found in
    (
      t,
      returns,
      record {
        sound = made.sound;
        size = made.size ∙ ap bitmap_size_for total ∙ size_for end small;
        pages = λ j h.
            made.pages j h
            ∙ ap
                (λ a.
                  if in_pages (a / 4096) (t.bitmap.size / 4096 + 1) j
                  then true
                  else if usable memmap j
                  then false
                  else ltb j (areal_size memmap / 4096))
                base
            ∙ ap
                (λ a.
                  if in_pages (e.base / 4096) (t.bitmap.size / 4096 + 1) j
                  then true
                  else if usable memmap j
                  then false
                  else ltb j (a / 4096))
                total;
        total = made.total ∙ omega (arith, length, length_small before e after fits);
        watches = made.watches;
      },
    )
