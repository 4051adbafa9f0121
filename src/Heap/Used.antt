-- ===== src/Heap/Used.antt =====
-- `getUsedMem`.
use oke_os.Prelude.{
  ℕ, zero, suc, ◌+◌, ◌≤◌, ◌<◌, ◌≡◌, ◌∙◌, ◌^◌, ap, Bool, false, ==_ne, List, [], ◌∷◌, some, arith,
  ◌==◌, if◌then◌else◌, length, u64,
}
use oke_os.Heap.{header_size, Heap, used_loop, used_mem}
use oke_os.Heap.Chain.{Segment, behind, end_of, Tail, Tail-rest, IsHeap}

-- The bytes of the segments in use, with their headers.
abbrev pub used : List Segment → ℕ
used [] = 0
used (x ∷ xs) = if x.free then used xs else x.length + header_size + used xs

used-le : (a : ℕ) (xs : List Segment) → a + used xs ≤ end_of a xs
used-le a [] = omega arith
used-le a (x ∷ xs) = let ih = used-le (behind a x) xs in ground (arith, ih)

add_up :
    (b : Bool) (acc n u : ℕ)
    → acc + (if b then u else n + header_size + u) < 2 ^ 64
    → (if b then acc else u64 (acc + n + header_size)) + u
      ≡ acc + (if b then u else n + header_size + u)
add_up b acc n u l = ground arith

used_loop-used :
    (fuel : ℕ) (xs : List Segment) {h : Heap} {prev a : ℕ} (acc : ℕ)
    → Tail h prev a xs
    → 0 < length xs
    → length xs ≤ fuel
    → acc ≤ a
    → used_loop fuel a acc h ≡ some (acc + used xs)
unfolding used_loop
used_loop-used zero xs acc t n f l = absurd (omega arith)
used_loop-used (suc fuel) [] acc t n f l = absurd (omega arith)
used_loop-used (suc fuel) (x ∷ []) {a = a} acc t n f l =
    let bound : a + used (x ∷ []) < 2 ^ 62 = omega (arith, used-le a (x ∷ []), t.end, t.small) in
    let sum = add_up x.free acc x.length 0 (omega (arith, bound)) in
    simp (t.chain.0) (ap some (omega (arith, sum)))
used_loop-used (suc fuel) (x ∷ y ∷ ys) {a = a} acc t n f l =
    let rest = used (y ∷ ys) in
    let bound : a + used (x ∷ y ∷ ys) < 2 ^ 62 =
      omega (arith, used-le a (x ∷ y ∷ ys), t.end, t.small) in
    let sum = add_up x.free acc x.length rest (omega (arith, bound)) in
    let next : ℕ = if x.free then acc else u64 (acc + x.length + header_size) in
    let later =
      used_loop-used fuel (y ∷ ys) next (Tail-rest t) (omega arith) (omega arith) (ground arith) in
    let b_ne : (behind a x == 0) ≡ false = ==_ne (behind a x) 0 (omega arith) in
    simp (t.chain.0, b_ne) (later ∙ ap some sum)

-- `getUsedMem` returns the bytes of the segments in use with their headers, on a sound heap and with
-- a step for each segment.
pub used_mem_lem :
    {h : Heap} {xs : List Segment} (fuel : ℕ)
    → IsHeap h xs
    → length xs ≤ fuel
    → used_mem fuel h ≡ some (used xs)
unfolding used_mem
used_mem_lem {h} {xs} fuel heap f =
    used_loop-used fuel xs 0 heap.tail heap.nonempty f (omega arith) ∙ ap some (omega arith)
