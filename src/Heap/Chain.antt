-- ===== src/Heap/Chain.antt =====
-- The list of segments that the headers of a heap stand for.
use oke_os.Prelude.{
  false, ◌&&◌, ℕ, ◌+◌, ◌%◌, ◌^◌, ◌≤◌, ◌<◌, ◌≡◌, ◌∙◌, refl, Bool, List, [], ◌∷◌, arith, length,
}
use oke_os.Heap.{Header, Headers, header_size, Heap}

pub record Segment : Type 0 where
  pub length : ℕ
  pub free : Bool

abbrev pub segment : ℕ → Bool → Segment
segment n b = record { length = n; free = b }

-- The address behind a segment at `a`, and behind a list of segments from `a` on.
abbrev pub behind : ℕ → Segment → ℕ
behind a x = a + header_size + x.length

abbrev pub end_of : ℕ → List Segment → ℕ
end_of a [] = a
end_of a (x ∷ xs) = end_of (behind a x) xs

-- The address of the last segment, or that of the one in front.
abbrev pub last_of : ℕ → ℕ → List Segment → ℕ
last_of prev a [] = prev
last_of prev a (x ∷ xs) = last_of a (behind a x) xs

-- What `next` of the segment in front holds.
abbrev pub link : ℕ → List Segment → ℕ
link a [] = 0
link a (x ∷ xs) = a

abbrev pub header : Segment → ℕ → ℕ → Header
header x prev next = record { length = x.length; next = next; last = prev; free = x.free }

-- From `a` on the segments lie one behind the other, linked in both directions.
abbrev pub Chain : Headers → ℕ → ℕ → List Segment → Type 0
Chain headers prev a [] = Unit {0}
Chain headers prev a (x ∷ xs) =
    (headers a ≡ header x prev (link (behind a x) xs)) × Chain headers a (behind a x) xs

-- The part of a heap from `a` on, behind the segment at `prev`.
pub record Tail (h : Heap) (prev a : ℕ) (xs : List Segment) : Type 0 where
  pub chain : Chain h.headers prev a xs
  pub final : h.last_hdr ≡ last_of prev a xs
  pub end : end_of a xs ≡ h.heap_end
  pub start : 0 < a
  pub small : h.heap_end < 2 ^ 62

-- What an operation on the part of a heap from `a` on leaves alone.
pub record Same (a : ℕ) (h h' : Heap) : Type 0 where
  pub headers : (b : ℕ) → 0 < b → b < a → h'.headers b ≡ h.headers b
  pub heap_start : h'.heap_start ≡ h.heap_start
  pub heap_end : h'.heap_end ≡ h.heap_end
  pub machine : h'.machine ≡ h.machine
  pub memory : h'.memory ≡ h.memory

pub Same-refl : (a : ℕ) (h : Heap) → Same a h h
Same-refl a h = record {
  headers = λ b p l. refl;
  heap_start = refl;
  heap_end = refl;
  machine = refl;
  memory = refl;
}

pub Same-trans : {a b : ℕ} {h i j : Heap} → a ≤ b → Same a h i → Same b i j → Same a h j
Same-trans le p q = record {
  headers = λ c z l. q.headers c z (omega arith) ∙ p.headers c z l;
  heap_start = q.heap_start ∙ p.heap_start;
  heap_end = q.heap_end ∙ p.heap_end;
  machine = q.machine ∙ p.machine;
  memory = q.memory ∙ p.memory;
}

pub Same-mono : {a b : ℕ} {h i : Heap} → a ≤ b → Same b h i → Same a h i
Same-mono le p = record {
  headers = λ c z l. p.headers c z (omega arith);
  heap_start = p.heap_start;
  heap_end = p.heap_end;
  machine = p.machine;
  memory = p.memory;
}

pub le-end_of : (a : ℕ) (xs : List Segment) → a ≤ end_of a xs
le-end_of a [] = omega arith
le-end_of a (x ∷ xs) = omega (arith, le-end_of (behind a x) xs)

-- The list of a chain is read at its own addresses only.
pub Chain-frame :
    {H K : Headers} (prev a : ℕ) (xs : List Segment)
    → ((b : ℕ) → a ≤ b → b < end_of a xs → K b ≡ H b)
    → Chain H prev a xs
    → Chain K prev a xs
Chain-frame prev a [] same c = tt
Chain-frame prev a (x ∷ xs) same c = (
  same a (omega arith) (omega (arith, le-end_of (behind a x) xs)) ∙ c.0,
  Chain-frame a (behind a x) xs (λ b l u. same b (omega arith) u) c.1,
)

-- A change of the segments behind the first one.
pub Tail-cons :
    {h h' : Heap} {prev a : ℕ} {x : Segment} {xs ys : List Segment}
    → Tail h prev a (x ∷ xs)
    → Same (behind a x) h h'
    → link (behind a x) ys ≡ link (behind a x) xs
    → Tail h' a (behind a x) ys
    → Tail h' prev a (x ∷ ys)
Tail-cons {a = a} {x} t same linked rest = record {
  chain = (same.headers a t.start (omega arith) ∙ t.chain.0 ∙ rw linked, rest.chain);
  final = rest.final;
  end = rest.end;
  start = t.start;
  small = rest.small;
}

pub Tail-rest :
    {h : Heap} {prev a : ℕ} {x : Segment} {xs : List Segment}
    → Tail h prev a (x ∷ xs)
    → Tail h a (behind a x) xs
Tail-rest t = record {
  chain = t.chain.1;
  final = t.final;
  end = t.end;
  start = omega (arith, t.start);
  small = t.small;
}

-- No two free segments lie side by side.
abbrev pub head_free : List Segment → Bool
head_free [] = false
head_free (x ∷ xs) = x.free

abbrev pub Coalesced : List Segment → Type 0
Coalesced [] = Unit {0}
Coalesced (x ∷ xs) = ((x.free && head_free xs) ≡ false) × Coalesced xs

-- A heap with the segments `xs`, one at least, up to a page boundary, with no two free ones side by
-- side.
pub record IsHeap (h : Heap) (xs : List Segment) : Type 0 where
  pub tail : Tail h 0 h.heap_start xs
  pub nonempty : 0 < length xs
  pub coalesced : Coalesced xs
  pub aligned : h.heap_end % 4096 ≡ 0
