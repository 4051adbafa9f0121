-- ===== src/Heap/Merge.antt =====
-- `combineForward` and `combineBackward`: the list of segments after a merge.
use oke_os.Prelude.{
  ℕ, ◌+◌, ◌≤◌, ◌<◌, ◌≡◌, refl, true, false, inl, inr, Bool-cases, ==_ne, ==_refl, List, [], ◌∷◌,
  arith, ◌==◌, if◌then◌else◌, u64,
}
use oke_os.Heap.{header_size, put, Heap, combine_forward}
use oke_os.Heap.Chain.{
  Segment, segment, behind, last_of, link, header, Tail, Same, Same-refl, le-end_of, Chain-frame,
}

-- A segment with what is behind it: a free neighbour is taken in, its header too.
abbrev pub merged : Segment → List Segment → List Segment
merged x [] = x ∷ []
merged x (y ∷ zs) =
    if y.free then segment (x.length + y.length + header_size) x.free ∷ zs else x ∷ y ∷ zs

pub le-last_of : (prev a : ℕ) (xs : List Segment) → prev ≤ a → prev ≤ last_of prev a xs
le-last_of prev a [] h = omega arith
le-last_of prev a (x ∷ xs) h = omega (arith, le-last_of a (behind a x) xs (omega arith))

-- The last two segments.
module _ {h : Heap} {prev a : ℕ} {x y : Segment} (t : Tail h prev a (x ∷ y ∷ []))
    (is_free : y.free ≡ true) where
  abbrev both : Segment
  both = segment (x.length + y.length + header_size) x.free

  abbrev ended : Heap
  ended = record h { last_hdr = a; headers = put h.headers a (header both prev 0) }

  combine_forward-ended : combine_forward a h ≡ ended
  unfolding combine_forward
  combine_forward-ended = ground (arith, t.chain.0, t.chain.1.0, t.final, t.end, t.small, t.start)

  ended-Tail : Tail ended prev a (both ∷ [])
  ended-Tail = record {
    chain = (ground arith, tt);
    final = refl;
    end = omega (arith, t.end);
    start = t.start;
    small = t.small;
  }

  ended-Same : Same a h ended
  ended-Same = record {
    headers = λ b p l. ground arith;
    heap_start = refl;
    heap_end = refl;
    machine = refl;
    memory = refl;
  }

-- Two segments with another behind them.
module _ {h : Heap} {prev a : ℕ} {x y z : Segment} {zs : List Segment}
    (t : Tail h prev a (x ∷ y ∷ z ∷ zs)) (is_free : y.free ≡ true) where
  abbrev joined : Segment
  joined = segment (x.length + y.length + header_size) x.free

  abbrev further : ℕ
  further = behind (behind a x) y

  abbrev closed : Heap
  closed = record h {
    headers =
        put (put h.headers further (header z a (link (behind further z) zs))) a
          (header joined prev further);
  }

  within : further < h.heap_end
  within = omega (arith, t.end, le-end_of (behind further z) zs)

  last_hdr-apart : (behind a x == h.last_hdr) ≡ false
  last_hdr-apart =
      let far = le-last_of further (behind further z) zs (omega arith) in
      ==_ne (behind a x) h.last_hdr (omega (arith, t.final, far))

  combine_forward-closed : combine_forward a h ≡ closed
  unfolding combine_forward
  combine_forward-closed =
      let b_ne : (behind a x == 0) ≡ false = ==_ne (behind a x) 0 (omega arith) in
      let c_ne : (further == 0) ≡ false = ==_ne further 0 (omega arith) in
      let c_a : (further == a) ≡ false = ==_ne further a (omega arith) in
      let c_b : (further == behind a x) ≡ false = ==_ne further (behind a x) (omega arith) in
      let whole : u64 (x.length + y.length + header_size) ≡ x.length + y.length + header_size =
        omega (arith, within, t.small) in
      simp (
        t.chain.0, t.chain.1.0, t.chain.1.1.0, b_ne, c_ne, c_a, c_b, is_free, last_hdr-apart, whole,
      )

  behind-joined : behind a joined ≡ further
  behind-joined = omega arith

  closed_first : closed.headers a ≡ header joined prev further
  closed_first = rw (==_refl a)

  closed_further : closed.headers further ≡ header z a (link (behind further z) zs)
  closed_further =
      let apart : (a == further) ≡ false = ==_ne a further (omega arith) in
      rw (apart, ==_refl further)

  closed_above : (b : ℕ) → further < b → closed.headers b ≡ h.headers b
  closed_above b l =
      let apart_a : (a == b) ≡ false = ==_ne a b (omega arith) in
      let apart_c : (further == b) ≡ false = ==_ne further b (omega arith) in rw (apart_a, apart_c)

  closed_below : (b : ℕ) → b < a → closed.headers b ≡ h.headers b
  closed_below b l =
      let apart_a : (a == b) ≡ false = ==_ne a b (omega arith) in
      let apart_c : (further == b) ≡ false = ==_ne further b (omega arith) in rw (apart_a, apart_c)

  closed-Tail : Tail closed prev a (joined ∷ z ∷ zs)
  closed-Tail = record {
    chain = rw behind-joined (
      closed_first,
      (
        closed_further,
        Chain-frame further (behind further z) zs (λ b l u. closed_above b (omega arith))
            t.chain.1.1.1,
      ),
    );
    final = rw behind-joined t.final;
    end = rw behind-joined t.end;
    start = t.start;
    small = t.small;
  }

  closed-Same : Same a h closed
  closed-Same = record {
    headers = λ b p l. closed_below b l;
    heap_start = refl;
    heap_end = refl;
    machine = refl;
    memory = refl;
  }

-- The part of the heap from `a` on has the segments `xs`, and the headers in front are kept.
abbrev pub Kept : Heap → ℕ → ℕ → List Segment → Heap → Type 0
Kept h prev a xs h' = Tail h' prev a xs × Same a h h'

combine_forward-takes :
    {h : Heap} {prev a : ℕ} {x y : Segment} (zs : List Segment)
    → Tail h prev a (x ∷ y ∷ zs)
    → y.free ≡ true
    → Kept h prev a (segment (x.length + y.length + header_size) x.free ∷ zs) (combine_forward a h)
combine_forward-takes [] t f = rw (combine_forward-ended t f) (ended-Tail t f, ended-Same t f)
combine_forward-takes (z ∷ zs) t f =
    rw (combine_forward-closed t f) (closed-Tail t f, closed-Same t f)

combine_forward-last :
    {h : Heap} {prev a : ℕ} {x : Segment} → Tail h prev a (x ∷ []) → combine_forward a h ≡ h
unfolding combine_forward
combine_forward-last t = simp (t.chain.0)

combine_forward-blocked :
    {h : Heap} {prev a : ℕ} {x y : Segment} {zs : List Segment}
    → Tail h prev a (x ∷ y ∷ zs)
    → y.free ≡ false
    → combine_forward a h ≡ h
unfolding combine_forward
combine_forward-blocked {a = a} {x} t f =
    let b_ne : (behind a x == 0) ≡ false = ==_ne (behind a x) 0 (omega arith) in
    simp (t.chain.0, t.chain.1.0, b_ne, f)

-- `combineForward` takes a free neighbour in, and changes no header in front of the segment.
pub combine_forward-Kept :
    {h : Heap} {prev a : ℕ} (x : Segment) (ys : List Segment)
    → Tail h prev a (x ∷ ys)
    → Kept h prev a (merged x ys) (combine_forward a h)
combine_forward-Kept {h} {a = a} x [] t = rw (combine_forward-last t) (t, Same-refl a h)
combine_forward-Kept {h} {a = a} x (y ∷ zs) t = elim (Bool-cases y.free) [
  | inl yes_free ↦ rw yes_free (combine_forward-takes zs t yes_free)
  | inr taken ↦ simp (taken, combine_forward-blocked t taken) (t, Same-refl a h)
]
