-- ===== src/Heap/Coalesced.antt =====
-- No two free segments lie side by side.
use oke_os.Prelude.{
  ℕ, zero, suc, ◌≡◌, ◌∙◌, refl, ap, Bool, true, false, ◌&&◌, inl, inr, Bool-cases, List, [], ◌∷◌,
  ◌==◌,
}
use oke_os.Heap.Chain.{head_free, Coalesced, Segment, segment}
use oke_os.Heap.Merge.{merged}
use oke_os.Heap.Release.{release}

and_right : (b c : Bool) → (b && c) ≡ false → b ≡ true → c ≡ false
and_right true c h e = h
and_right false c h e = absurd cc

pub both_right : (b c : Bool) → (b && c) ≡ true → c ≡ true
both_right true c h = h
both_right false c h = absurd cc

and_false : (b : Bool) {c : Bool} → c ≡ false → (b && c) ≡ false
and_false true e = e
and_false false e = refl

false_and : (b c : Bool) → b ≡ false → (b && c) ≡ false
false_and true c e = absurd cc
false_and false c e = refl

merged-Coalesced :
    (x : Segment) (ys : List Segment) → x.free ≡ true → Coalesced ys → Coalesced (merged x ys)
merged-Coalesced x [] f c = (and_false x.free refl, tt)
merged-Coalesced x (y ∷ zs) f c = elim (Bool-cases y.free) [
  | inl joins ↦ simp joins (and_false x.free (and_right y.free (head_free zs) c.0 joins), c.1)
  | inr stays ↦ simp stays (and_false x.free refl, (refl, c.1))
]

head_free-merged : (x : Segment) (ys : List Segment) → head_free (merged x ys) ≡ x.free
head_free-merged x [] = refl
head_free-merged x (y ∷ zs) = elim (Bool-cases y.free) [
  | inl joins ↦ simp joins refl
  | inr stays ↦ simp stays refl
]

head_free-release : (i : ℕ) (ys : List Segment) → head_free (release (suc i) ys) ≡ head_free ys
head_free-release i [] = refl
head_free-release i (p ∷ ys) = elim (Bool-cases (i == 0 && p.free)) [
  | inl both ↦ simp both (head_free-merged p (release i ys))
  | inr apart ↦ simp apart refl
]

pub release-Coalesced : (i : ℕ) (xs : List Segment) → Coalesced xs → Coalesced (release i xs)
release-Coalesced i [] c = tt
release-Coalesced zero (x ∷ ys) c = merged-Coalesced (segment x.length true) ys refl c.1
release-Coalesced (suc i) (p ∷ ys) c =
    let ih = release-Coalesced i ys c.1 in
    elim (Bool-cases (i == 0 && p.free)) [
      | inl both ↦
          simp both (merged-Coalesced p (release i ys) (both_right (i == 0) p.free both) ih)
      | inr apart ↦ simp apart (front i apart, ih)
    ]
  where
    front : (i : ℕ) → (i == 0 && p.free) ≡ false → (p.free && head_free (release i ys)) ≡ false
    front zero apart = false_and p.free (head_free (release zero ys)) apart
    front (suc j) apart = ap (λ b. p.free && b) (head_free-release j ys) ∙ c.0
