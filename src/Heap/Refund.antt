-- ===== src/Heap/Refund.antt =====
-- What `getUsedMem` reports before and after `free`.
use oke_os.Prelude.{
  ℕ, zero, suc, ◌+◌, ◌≤◌, ◌≡◌, ◌∙◌, refl, ap, sym, Bool, true, false, ◌&&◌, inl, inr, Bool-cases,
  ==_ne, ==_refl, List, [], ◌∷◌, none, some, arith, ◌==◌, if◌then◌else◌, length,
}
use oke_os.Heap.{header_size, Heap, free, used_mem}
use oke_os.Heap.Chain.{Segment, segment, behind, IsHeap}
use oke_os.Heap.Merge.{merged}
use oke_os.Heap.Release.{release, address}
use oke_os.Heap.Coalesced.{both_right}
use oke_os.Heap.Blocks.{block, some_ne, address-ge}
use oke_os.Heap.Used.{used, used_mem_lem}
use oke_os.Heap.Free.{block-index, free-release}

used-merged : (x : Segment) (ys : List Segment) → x.free ≡ true → used (merged x ys) ≡ used (x ∷ ys)
used-merged x [] f = refl
used-merged x (y ∷ zs) f = elim (Bool-cases y.free) [
  | inl joins ↦ simp (joins, f) refl
  | inr stays ↦ simp stays refl
]

length-merged : (x : Segment) (ys : List Segment) → length (merged x ys) ≤ suc (length ys)
length-merged x [] = omega arith
length-merged x (y ∷ zs) = ground arith

length-release-le : (i : ℕ) (xs : List Segment) → length (release i xs) ≤ length xs
length-release-le i [] = omega arith
length-release-le zero (x ∷ ys) = length-merged (segment x.length true) ys
length-release-le (suc i) (p ∷ ys) =
    let ih = length-release-le i ys in
    let m = length-merged p (release i ys) in
    elim (Bool-cases (i == 0 && p.free)) [
      | inl both ↦ simp both (omega (arith, m, ih))
      | inr apart ↦ simp apart (omega (arith, ih))
    ]

in_use : (b : Bool) (m n : ℕ) → (if b then none else some m) ≡ some n → (b ≡ false) × (m ≡ n)
in_use b m n e = ground arith

-- A merge with the segment in front changes nothing.
used-kept :
    (i : ℕ) (p : Segment) (ys : List Segment)
    → used (release (suc i) (p ∷ ys)) ≡ used (p ∷ release i ys)
used-kept i p ys = elim (Bool-cases (i == 0 && p.free)) [
  | inl both ↦ simp both (used-merged p (release i ys) (both_right (i == 0) p.free both))
  | inr apart ↦ simp apart refl
]

spread :
    (b : Bool) (u v l n : ℕ)
    → u ≡ v + n + header_size
    → (if b then u else l + header_size + u)
      ≡ (if b then v else l + header_size + v) + n + header_size
spread true u v l n e = e
spread false u v l n e = omega (arith, e)

-- The bytes of the block and its header are given back.
used-release :
    (a i : ℕ) (xs : List Segment) (n : ℕ)
    → block a xs (address a i xs + header_size) ≡ some n
    → used xs ≡ used (release i xs) + n + header_size
used-release a i [] n e = absurd (some_ne n (sym e))
used-release a zero (x ∷ ys) n e =
    let (taken, same) = in_use x.free x.length n (simp (==_refl (a + header_size)) at e) in
    let free_now = used-merged (segment x.length true) ys refl in
    simp taken (omega (arith, free_now, same))
used-release a (suc i) (p ∷ ys) n e =
    let above = address-ge (behind a p) i ys in
    let apart : (address (behind a p) i ys + header_size == a + header_size) ≡ false =
      ==_ne (address (behind a p) i ys + header_size) (a + header_size) (omega (arith, above)) in
    let ih = used-release (behind a p) i ys n (rw apart at e) in
    spread p.free (used ys) (used (release i ys)) p.length n ih
    ∙ ap (λ u. u + n + header_size) (sym (used-kept i p ys))

-- On a sound heap, `free` of a block lowers what `getUsedMem` returns by the length of the block and
-- of its header; a step for each segment is enough for both calls.
pub used_mem-free :
    {h : Heap} {xs : List Segment} (p n fuel : ℕ)
    → IsHeap h xs
    → block h.heap_start xs p ≡ some n
    → length xs ≤ fuel
    → (u : ℕ) × (used_mem fuel (free p h) ≡ some u) × (used_mem fuel h ≡ some (u + n + header_size))
used_mem-free {h} {xs} p n fuel heap e l =
    let (i, below, at) = block-index h.heap_start xs p n e in
    let f = free-release i heap below in
    let short = length-release-le i xs in
    let here : block h.heap_start xs (address h.heap_start i xs + header_size) ≡ some n =
      ap (block h.heap_start xs) at ∙ e in
    (
      used (release i xs),
      sym (ap (λ q. used_mem fuel (free q h)) at) ∙ used_mem_lem fuel f.0 (omega (arith, short)),
      used_mem_lem fuel heap l ∙ ap some (used-release h.heap_start i xs n here),
    )
