-- ===== src/Heap/Blocks.antt =====
-- The heap as a map from payload addresses to the lengths of the blocks that are in use.
use oke_os.Prelude.{
  ◌≢◌, ℕ, zero, suc, ◌+◌, ◌≤◌, ◌<◌, ◌≡◌, ◌∙◌, refl, true, false, ◌&&◌, inl, inr, Bool-cases, ==_ne,
  ==_iff, List, [], ◌∷◌, Option, none, some, arith, ◌==◌, if◌then◌else◌, length,
}
use oke_os.Heap.{header_size}
use oke_os.Heap.Chain.{Segment, segment, behind}
use oke_os.Heap.Merge.{merged}
use oke_os.Heap.Release.{release, address}

abbrev pub block : ℕ → List Segment → ℕ → Option ℕ
block a [] q = none
block a (x ∷ xs) q =
    if q == a + header_size
    then (if x.free then none else some x.length)
    else block (behind a x) xs q

-- The list for `release` has a segment of this index.
block-below : (a : ℕ) (xs : List Segment) (q : ℕ) → q < a + header_size → block a xs q ≡ none
block-below a [] q l = refl
block-below a (x ∷ xs) q l =
    let apart : (q == a + header_size) ≡ false = ==_ne q (a + header_size) (omega arith) in
    rw apart (block-below (behind a x) xs q (omega arith))

-- A free segment that takes a neighbour in.
block-merged :
    (a : ℕ) (x : Segment) (ys : List Segment) (q : ℕ)
    → x.free ≡ true
    → block a (merged x ys) q ≡ block a (x ∷ ys) q
block-merged a x [] q f = refl
block-merged a x (y ∷ zs) q f = elim (Bool-cases y.free) [
  | inr kept ↦ simp kept
  | inl joins ↦
      let same : behind a (segment (x.length + y.length + header_size) x.free)
          ≡ behind (behind a x) y =
        omega arith in
      elim (Bool-cases (q == behind a x + header_size)) [
        | inl inside ↦
            let at : q ≡ behind a x + header_size =
              (==_iff q (behind a x + header_size)).0 inside in
            simp (joins, f, same, inside, block-below (behind (behind a x) y) zs q (omega arith))
        | inr outside ↦ simp (joins, f, same, outside)
      ]
]

pub address-ge : (a i : ℕ) (xs : List Segment) → a ≤ address a i xs
address-ge a i [] = omega arith
address-ge a zero (x ∷ xs) = omega arith
address-ge a (suc i) (x ∷ xs) = omega (arith, address-ge (behind a x) i xs)

-- Releasing a segment takes its block from the map, and no other.
pub block-release :
    (a i : ℕ) (xs : List Segment) (q : ℕ)
    → i < length xs
    → block a (release i xs) q ≡ (if q == address a i xs + header_size then none else block a xs q)
block-release a i [] q n = absurd (omega arith)
block-release a zero (x ∷ ys) q n = block-merged a (segment x.length true) ys q refl ∙ ground arith
block-release a (suc i) (p ∷ ys) q n =
    let ih = block-release (behind a p) i ys q (omega arith) in
    let above = address-ge (behind a p) i ys in
    elim (Bool-cases (i == 0 && p.free)) [
      | inl both ↦
          let f : p.free ≡ true = ground arith in
          simp both (block-merged a p (release i ys) q f) ∙ later a p i ys q ih above
      | inr no_merge ↦ simp no_merge (later a p i ys q ih above)
    ]
  where
    later :
        (a : ℕ) (p : Segment) (i : ℕ) (ys : List Segment) (q : ℕ)
        → block (behind a p) (release i ys) q
          ≡ (if q == address (behind a p) i ys + header_size then none else block (behind a p) ys q)
        → behind a p ≤ address (behind a p) i ys
        → block a (p ∷ release i ys) q
          ≡ (if q == address (behind a p) i ys + header_size then none else block a (p ∷ ys) q)
    later a p i ys q ih above = elim (Bool-cases (q == a + header_size)) [
      | inl here ↦
          let at : q ≡ a + header_size = (==_iff q (a + header_size)).0 here in
          let apart : (q == address (behind a p) i ys + header_size) ≡ false =
            ==_ne q (address (behind a p) i ys + header_size) (omega arith) in
          simp (here, apart)
      | inr there ↦ simp (there, ih)
    ]

pub some_ne : {A : Type 0} (a : A) → some a ≢ none
some_ne a e = absurd (cc)
