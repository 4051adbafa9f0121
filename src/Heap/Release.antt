-- ===== src/Heap/Release.antt =====
-- `free`: the list of segments after a segment is given back.
use oke_os.Prelude.{
  ℕ, zero, suc, ◌+◌, ◌≤◌, ◌<◌, ◌≡◌, ◌∙◌, refl, Bool, true, false, not, ◌&&◌, inl, inr, Bool-cases,
  ==_ne, ==_refl, List, [], ◌∷◌, arith, ◌==◌, if◌then◌else◌, length,
}
use oke_os.Heap.{header_size, Heap, set_free, combine_forward, combine_backward}
use oke_os.Heap.Chain.{
  Segment, segment, behind, end_of, link, Tail, Same, Same-trans, Same-mono, le-end_of, Chain-frame,
  Tail-cons, Tail-rest,
}
use oke_os.Heap.Merge.{merged, Kept, combine_forward-Kept}

-- The segment at the index becomes free, and is merged with a free neighbour behind it, and then
-- with a free one in front.
abbrev pub release : ℕ → List Segment → List Segment
release i [] = []
release zero (x ∷ ys) = merged (segment x.length true) ys
release (suc i) (p ∷ ys) = if i == 0 && p.free then merged p (release i ys) else p ∷ release i ys

abbrev pub address : ℕ → ℕ → List Segment → ℕ
address a i [] = a
address a zero (x ∷ xs) = a
address a (suc i) (x ∷ xs) = address (behind a x) i xs

-- The body of `free` at the header.
abbrev pub free_at : ℕ → Heap → Heap
free_at a h = combine_backward a (combine_forward a (set_free a true h))

set_free-Kept :
    {h : Heap} {prev a : ℕ} {x : Segment} {ys : List Segment} (v : Bool)
    → Tail h prev a (x ∷ ys)
    → Kept h prev a (segment x.length v ∷ ys) (set_free a v h)
set_free-Kept {h} {a = a} {x} {ys} v t = (
  record {
    chain = (
      rw (==_refl a, t.chain.0),
      Chain-frame a (behind a x) ys
          (λ b l u. let apart : (a == b) ≡ false = ==_ne a b (omega arith) in rw apart) t.chain.1,
    );
    final = t.final;
    end = t.end;
    start = t.start;
    small = t.small;
  },
  record {
    headers = λ b p l. let apart : (a == b) ≡ false = ==_ne a b (omega arith) in rw apart;
    heap_start = refl;
    heap_end = refl;
    machine = refl;
    memory = refl;
  },
)

-- The segment that is given back, before the one in front is looked at.
forward-Kept :
    {h : Heap} {prev a : ℕ} {x : Segment} {ys : List Segment}
    → Tail h prev a (x ∷ ys)
    → Kept h prev a (merged (segment x.length true) ys) (combine_forward a (set_free a true h))
forward-Kept {x = x} {ys} t =
    let (t₁, s₁) = set_free-Kept true t in
    let (t₂, s₂) = combine_forward-Kept (segment x.length true) ys t₁ in
    (t₂, Same-trans (omega arith) s₁ s₂)

merged-last :
    {h : Heap} {prev a : ℕ} (x : Segment) (ys : List Segment)
    → Tail h prev a (merged x ys)
    → (h.headers a).last ≡ prev
merged-last x [] t = rw (t.chain.0)
merged-last x (y ∷ zs) t = elim (Bool-cases y.free) [
  | inl yes_free ↦ let t' = rw yes_free at t in rw (t'.chain.0)
  | inr taken ↦ let t' = rw taken at t in rw (t'.chain.0)
]

link-merged : (a : ℕ) (x : Segment) (ys : List Segment) → link a (merged x ys) ≡ a
link-merged a x [] = refl
link-merged a x (y ∷ zs) = ground arith

combine_backward-stays :
    (a : ℕ) (h : Heap)
    → (not ((h.headers a).last == 0) && (h.headers ((h.headers a).last)).free) ≡ false
    → combine_backward a h ≡ h
unfolding combine_backward
combine_backward-stays a h e = rw e

combine_backward-goes :
    (a l : ℕ) (h : Heap)
    → (h.headers a).last ≡ l
    → (l == 0) ≡ false
    → (h.headers l).free ≡ true
    → combine_backward a h ≡ combine_forward l h
unfolding combine_backward
combine_backward-goes a l h e n f = rw (e, n, f)

-- The first segment of the heap has none in front.
free_at-first :
    {h : Heap} {a : ℕ} {x : Segment} {ys : List Segment}
    → Tail h 0 a (x ∷ ys)
    → Kept h 0 a (release 0 (x ∷ ys)) (free_at a h)
free_at-first {h} {a} {x} {ys} t =
    let (t', s') = forward-Kept t in
    let l = merged-last (segment x.length true) ys t' in
    let stays = combine_backward-stays a (combine_forward a (set_free a true h)) (rw l refl) in
    rw stays (t', s')

-- A segment with `p` in front.
module _ {h : Heap} {prev a : ℕ} {p x : Segment} {ys : List Segment}
    (t : Tail h prev a (p ∷ x ∷ ys)) where
  abbrev b : ℕ
  b = behind a p

  abbrev forward : Heap
  forward = combine_forward b (set_free b true h)

  abbrev rest : List Segment
  rest = merged (segment x.length true) ys

  forward-rest : Kept h a b rest forward
  forward-rest = forward-Kept (Tail-rest t)

  link-rest : link b rest ≡ b
  link-rest = link-merged b (segment x.length true) ys

  forward-Tail : Tail forward prev a (p ∷ rest)
  forward-Tail = Tail-cons t forward-rest.1 link-rest forward-rest.0

  forward_last : (forward.headers b).last ≡ a
  forward_last = merged-last (segment x.length true) ys forward-rest.0

  forward_free : (forward.headers a).free ≡ p.free
  forward_free = rw (forward-Tail.chain.0)

  free_at-second : Kept h prev a (release 1 (p ∷ x ∷ ys)) (free_at b h)
  free_at-second =
      let near : Same a h forward = Same-mono (omega arith) forward-rest.1 in
      let a_ne : (a == 0) ≡ false = ==_ne a 0 (omega (arith, t.start)) in
      elim (Bool-cases p.free) [
        | inl yes_free ↦
            let (t', s') = combine_forward-Kept p rest forward-Tail in
            simp
              (
                yes_free,
                combine_backward-goes b a forward forward_last a_ne (forward_free ∙ yes_free),
              )
              (t', Same-trans (omega arith) near s')
        | inr taken ↦
            let blocked : (not ((forward.headers b).last == 0)
                  && (forward.headers ((forward.headers b).last)).free)
                ≡ false =
              rw (forward_last, a_ne) (forward_free ∙ taken) in
            simp (taken, combine_backward-stays b forward blocked) (forward-Tail, near)
      ]

link-release : (a i : ℕ) (xs : List Segment) → link a (release i xs) ≡ link a xs
link-release a i [] = refl
link-release a zero (x ∷ ys) = link-merged a (segment x.length true) ys
link-release a (suc i) (p ∷ ys) = elim (Bool-cases (i == 0 && p.free)) [
  | inl both ↦ simp both (link-merged a p (release i ys))
  | inr no_merge ↦ simp no_merge
]

release-later :
    (j : ℕ) (p : Segment) (xs : List Segment)
    → release (suc (suc j)) (p ∷ xs) ≡ p ∷ release (suc j) xs
release-later j p xs = let e : (suc j == 0) ≡ false = ==_ne (suc j) 0 (omega arith) in rw e

free_at-later :
    (i : ℕ) (xs : List Segment) {h : Heap} {prev a : ℕ}
    → Tail h prev a xs
    → suc i < length xs
    → Kept h prev a (release (suc i) xs) (free_at (address a (suc i) xs) h)
free_at-later zero [] t n = absurd (omega arith)
free_at-later zero (p ∷ []) t n = absurd (omega arith)
free_at-later zero (p ∷ x ∷ ys) t n = free_at-second t
free_at-later (suc j) [] t n = absurd (omega arith)
free_at-later (suc j) (p ∷ xs) {a = a} t n =
    let (t', s') = free_at-later j xs (Tail-rest t) (omega arith) in
    rw (release-later j p xs)
      (Tail-cons t s' (link-release (behind a p) (suc j) xs) t', Same-mono (omega arith) s')

-- `free` at any segment of a heap.
pub free_at-Kept :
    (i : ℕ) (xs : List Segment) {h : Heap} {a : ℕ}
    → Tail h 0 a xs
    → i < length xs
    → Kept h 0 a (release i xs) (free_at (address a i xs) h)
free_at-Kept zero [] t n = absurd (omega arith)
free_at-Kept zero (x ∷ ys) t n = free_at-first t
free_at-Kept (suc i) xs t n = free_at-later i xs t n

pub address-le :
    (a i : ℕ) (xs : List Segment) → i < length xs → address a i xs + header_size ≤ end_of a xs
address-le a i [] n = absurd (omega arith)
address-le a zero (x ∷ xs) n = omega (arith, le-end_of (behind a x) xs)
address-le a (suc i) (x ∷ xs) n = address-le (behind a x) i xs (omega arith)

pub length-release : (i : ℕ) (xs : List Segment) → 0 < length xs → 0 < length (release i xs)
length-release i xs n = nonempty (release i xs) xs (link-release 1 i xs) n
  where
    nonempty : (ys zs : List Segment) → link 1 ys ≡ link 1 zs → 0 < length zs → 0 < length ys
    nonempty [] [] e n = n
    nonempty [] (z ∷ zs) e n = absurd (omega (arith, e))
    nonempty (y ∷ ys) zs e n = omega arith
