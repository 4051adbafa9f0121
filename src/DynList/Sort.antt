-- ===== src/DynList/Sort.antt =====
-- `sort` and `reverse`.
use oke_os.Prelude.{
  ℕ, zero, suc, ◌+◌, ◌-◌, ◌/◌, ◌≤◌, ◌<◌, ◌≡◌, ◌∙◌, refl, ap, inl, inr, ◌&&◌, Bool-cases, arith, ltb,
  leb, ◌==◌, if◌then◌else◌,
}
use oke_os.DynList.{DynList, swap, bubble, sort_loop, sort, reverse_loop, reverse}

-- One step of the inner loop.
abbrev ordered : (ℕ → ℕ) → ℕ → ℕ → ℕ
ordered items j = if ltb (items (j + 1)) (items j) then swap items j (j + 1) else items

ordered_cases :
    (items : ℕ → ℕ) (j k : ℕ)
    → ordered items j k ≡ (
        if k == j
        then (if ltb (items (j + 1)) (items j) then items (j + 1) else items j)
        else if k == j + 1
        then (if ltb (items (j + 1)) (items j) then items j else items (j + 1))
        else items k)
ordered_cases items j k = ground arith

-- The inner loop leaves what lies behind its range.
bubble_above :
    (rounds j : ℕ) (items : ℕ → ℕ) (k : ℕ) → j + rounds < k → bubble rounds j items k ≡ items k
unfolding bubble
bubble_above zero j items k h = refl
bubble_above (suc rounds) j items k h =
    bubble_above rounds (j + 1) (ordered items j) k (omega arith)
    ∙ ground (arith, ordered_cases items j k)

-- A bound on the range stays a bound.
bubble_bounded :
    (rounds j : ℕ) (items : ℕ → ℕ) (bound : ℕ)
    → ((k : ℕ) → k ≤ j + rounds → items k ≤ bound)
    → (k : ℕ) → k ≤ j + rounds
    → bubble rounds j items k ≤ bound
unfolding bubble
bubble_bounded zero j items bound below k h = below k h
bubble_bounded (suc rounds) j items bound below k h =
    bubble_bounded rounds (j + 1) (ordered items j) bound
      (λ l m. ground (arith, below l, below j, below (j + 1), ordered_cases items j l)) k
      (omega arith)

-- The largest item of the range comes to its end.
bubble_largest :
    (rounds j : ℕ) (items : ℕ → ℕ)
    → ((k : ℕ) → k ≤ j → items k ≤ items j)
    → (k : ℕ) → k ≤ j + rounds
    → bubble rounds j items k ≤ bubble rounds j items (j + rounds)
unfolding bubble
bubble_largest zero j items below k h =
    let e : j + 0 ≡ j = omega arith in rw e (below k (omega arith))
bubble_largest (suc rounds) j items below k h =
    let e : j + suc rounds ≡ j + 1 + rounds = omega arith in
    rw e (
      bubble_largest rounds (j + 1) (ordered items j)
        (λ l m. ground (arith, below l, ordered_cases items j l, ordered_cases items j (j + 1))) k
        (omega arith))

-- From index `from` on, every item is at least as large as all before it.
abbrev Settled : ℕ → ℕ → (ℕ → ℕ) → Type 0
Settled from length items = (a b : ℕ) → a ≤ b → from ≤ b → b < length → items a ≤ items b

bubble-Settled :
    (i length : ℕ) (items : ℕ → ℕ)
    → i < length
    → Settled (length - i) length items
    → Settled (length - (i + 1)) length (bubble (length - i - 1) 0 items)
bubble-Settled i length items h settled a b le from below =
    elim (Bool-cases (b == length - i - 1)) [
      | inl last ↦
          let e : 0 + (length - i - 1) ≡ b = ground arith in
          rw e at (bubble_largest (length - i - 1) 0 items (λ k z. ground arith) a (omega arith))
      | inr tail ↦
          let kept = bubble_above (length - i - 1) 0 items b (ground arith) in
          elim (Bool-cases (leb a (length - i - 1))) [
            | inl low ↦ rw kept (
                bubble_bounded (length - i - 1) 0 items (items b)
                  (λ k z. settled k b (ground arith) (ground arith) below) a (ground arith))
            | inr high ↦
                rw (kept, bubble_above (length - i - 1) 0 items a (ground arith))
                  (settled a b le (ground arith) below)
          ]
    ]

sort_loop-Settled :
    (rounds i length : ℕ) (items : ℕ → ℕ)
    → i + rounds ≡ length
    → Settled (length - i) length items
    → Settled 0 length (sort_loop rounds i length items)
unfolding sort_loop
sort_loop-Settled zero i length items e settled =
    λ a b le from below. settled a b le (omega arith) below
sort_loop-Settled (suc rounds) i length items e settled =
    sort_loop-Settled rounds (i + 1) length (bubble (length - i - 1) 0 items) (omega arith)
      (bubble-Settled i length items (omega arith) settled)

-- How often a value stands among the first `n` items.
abbrev pub count : ℕ → ℕ → (ℕ → ℕ) → ℕ
count v zero items = 0
count v (suc n) items = count v n items + (if items n == v then 1 else 0)

count_ext :
    (v n : ℕ) (xs ys : ℕ → ℕ) → ((k : ℕ) → k < n → xs k ≡ ys k) → count v n xs ≡ count v n ys
count_ext v zero xs ys same = refl
count_ext v (suc n) xs ys same =
    ground (arith, count_ext v n xs ys (λ k h. same k (omega arith)), same n)

count-ordered :
    (v n j : ℕ) (items : ℕ → ℕ) → j + 1 < n → count v n (ordered items j) ≡ count v n items
count-ordered v zero j items h = absurd (omega arith)
count-ordered v (suc zero) j items h = absurd (omega arith)
count-ordered v (suc (suc n)) j items h = elim (Bool-cases (j == n)) [
  | inl top ↦ ground (
    arith,
    count_ext v n (ordered items j) items (λ k l. ground (arith, ordered_cases items j k)),
    ordered_cases items j n,
    ordered_cases items j (suc n),
    at (suc n) (n + 1) items (omega arith),
    at (suc n) (j + 1) items (ground arith),
  )
  | inr lower ↦
      ground (arith, count-ordered v (suc n) j items (ground arith), ordered_cases items j (suc n))
]
  where
    at : (m n : ℕ) (items : ℕ → ℕ) → m ≡ n → items m ≡ items n
    at m n items e = ap items e

count-bubble :
    (v n rounds j : ℕ) (items : ℕ → ℕ)
    → j + rounds < n
    → count v n (bubble rounds j items) ≡ count v n items
unfolding bubble
count-bubble v n zero j items h = refl
count-bubble v n (suc rounds) j items h =
    count-bubble v n rounds (j + 1) (ordered items j) (omega arith)
    ∙ count-ordered v n j items (omega arith)

count-sort_loop :
    (v length rounds i : ℕ) (items : ℕ → ℕ)
    → i + rounds ≡ length
    → count v length (sort_loop rounds i length items) ≡ count v length items
unfolding sort_loop
count-sort_loop v length zero i items e = refl
count-sort_loop v length (suc rounds) i items e =
    count-sort_loop v length rounds (i + 1) (bubble (length - i - 1) 0 items) (omega arith)
    ∙ count-bubble v length (length - i - 1) 0 items (omega arith)

-- `sort` puts the items in ascending order, keeps every value as often as it was there, and
-- changes neither length nor capacity.
pub sort_lem :
    (d : DynList)
    → ((a b : ℕ) → a ≤ b → b < d.length → (sort d).items a ≤ (sort d).items b)
      × ((v : ℕ) → count v d.length (sort d).items ≡ count v d.length d.items)
      × ((sort d).length ≡ d.length)
      × ((sort d).capacity ≡ d.capacity)
unfolding sort
sort_lem d = (
  λ a b le below.
      sort_loop-Settled d.length 0 d.length d.items (omega arith)
        (λ x y l from z. absurd (omega arith)) a b le (omega arith) below,
  λ v. count-sort_loop v d.length d.length 0 d.items (omega arith),
  refl,
  refl,
)

reverse_loop_lem :
    (rounds i length : ℕ) (items : ℕ → ℕ) (k : ℕ)
    → i + rounds ≤ length / 2
    → k < length
    → reverse_loop rounds i length items k ≡ (
        if leb i k && ltb k (i + rounds)
        then items (length - 1 - k)
        else if leb (length - i - rounds) k && ltb k (length - i)
        then items (length - 1 - k)
        else items k)
unfolding reverse_loop
reverse_loop_lem zero i length items k h l = ground arith
reverse_loop_lem (suc rounds) i length items k h l =
    ground (arith, reverse_loop_lem rounds (i + 1) length (swap items i (length - i - 1)) k)

-- `reverse` puts the items in the opposite order.
pub reverse_lem :
    (d : DynList) (k : ℕ) → k < d.length → (reverse d).items k ≡ d.items (d.length - 1 - k)
unfolding reverse
reverse_lem d k h = ground (arith, reverse_loop_lem (d.length / 2) 0 d.length d.items k)
