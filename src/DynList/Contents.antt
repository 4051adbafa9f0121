-- ===== src/DynList/Contents.antt =====
-- The list as the sequence of its items.
use oke_os.Prelude.{
  ℕ, zero, suc, ◌+◌, ◌-◌, ◌*◌, ◌^◌, ◌≤◌, ◌<◌, ◌≡◌, refl, ◌⊎◌, inl, inr, ◌≢◌, true, false, ◌&&◌,
  Bool-cases, arith, ltb, leb, ◌==◌, if◌then◌else◌,
}
use oke_os.DynList.{
  DynList, store, copy_items, add, shift_down, remove_at, remove_item, find_from, contains,
  index_of, get,
}

-- The items fit the allocation, which is not empty, and twice its size is a `u64`.
pub record IsValid (d : DynList) : Type 0 where
  pub fits : d.length ≤ d.capacity
  pub room : 0 < d.capacity
  pub small : d.capacity * 2 < 2 ^ 64

copy_items_lem :
    (rounds i : ℕ) (items new_items : ℕ → ℕ) (k : ℕ)
    → copy_items rounds i items new_items k
      ≡ (if leb i k && ltb k (i + rounds) then items k else new_items k)
unfolding copy_items
copy_items_lem zero i items new_items k = ground arith
copy_items_lem (suc rounds) i items new_items k =
    ground (arith, copy_items_lem rounds (i + 1) items (store new_items i (items i)) k)

-- `add` writes inside the allocation, keeps the items and puts the new one behind them.
pub add_lem :
    (memory : ℕ → ℕ) (item : ℕ) {d : DynList}
    → IsValid d
    → let e = add memory item d in
      (e.length ≡ d.length + 1)
      × (d.length < e.capacity)
      × (get d.length e ≡ item)
      × ((k : ℕ) → k < d.length → get k e ≡ get k d)
unfolding add get
add_lem memory item {d} valid = (
  ground arith,
  ground arith,
  ground (arith, copy_items_lem d.length 0 d.items memory d.length),
  λ k h. ground (arith, copy_items_lem d.length 0 d.items memory k),
)

-- The capacity doubles when the list is full; below 2 ^ 62 items the list stays valid.
pub add-IsValid :
    (memory : ℕ → ℕ) (item : ℕ) {d : DynList}
    → IsValid d
    → d.capacity * 4 < 2 ^ 64
    → IsValid (add memory item d)
unfolding add
add-IsValid memory item {d} valid h = record {
  fits = ground (arith, valid.fits, valid.room);
  room = ground (arith, valid.room);
  small = ground (arith, valid.small);
}

shift_down_lem :
    (rounds i : ℕ) (items : ℕ → ℕ) (k : ℕ)
    → shift_down rounds i items k
      ≡ (if leb i k && ltb k (i + rounds) then items (k + 1) else items k)
unfolding shift_down
shift_down_lem zero i items k = ground arith
shift_down_lem (suc rounds) i items k =
    ground (arith, shift_down_lem rounds (i + 1) (store items i (items (i + 1))) k)

-- `remove` of an index in range drops that item, keeps the ones before it, and moves the ones
-- behind it down by one.
pub remove_at_lem :
    (i : ℕ) (d : DynList)
    → i < d.length
    → ((remove_at i d).length ≡ d.length - 1)
      × ((k : ℕ)
          → k < d.length - 1
          → get k (remove_at i d) ≡ (if ltb k i then get k d else get (k + 1) d))
unfolding remove_at get
remove_at_lem i d h =
    (ground arith, λ k l. ground (arith, shift_down_lem (d.length - 1 - i) i d.items k))

-- What the search finds: the end, if no item in the range is equal, or the first that is.
data Found (v from end : ℕ) (items : ℕ → ℕ) (i : ℕ) : Type 0 where
  nowhere : i ≡ end → ((k : ℕ) → from ≤ k → k < end → items k ≢ v) → Found v from end items i
  first :
      i < end → items i ≡ v → ((k : ℕ) → from ≤ k → k < i → items k ≢ v) → Found v from end items i

Found-earlier :
    {v i end : ℕ} {items : ℕ → ℕ} {r : ℕ}
    → items i ≢ v
    → Found v (i + 1) end items r
    → Found v i end items r
Found-earlier {v} {i} {items = items} other (nowhere e none_of) = nowhere e λ k h l.
    elim (Bool-cases (k == i)) [
      | inl here ↦ ground (arith, other)
      | inr later ↦ none_of k (ground arith) l
    ]
Found-earlier {v} {i} {items = items} other (first l e before) = first l e λ k h m.
    elim (Bool-cases (k == i)) [
      | inl here ↦ ground (arith, other)
      | inr later ↦ before k (ground arith) m
    ]

find_from-Found :
    (rounds i v end : ℕ) (items : ℕ → ℕ)
    → i + rounds ≡ end
    → Found v i end items (find_from rounds i v items)
unfolding find_from
find_from-Found zero i v end items e = nowhere (omega arith) (λ k h l. absurd (omega arith))
find_from-Found (suc rounds) i v end items e = elim (Bool-cases (items i == v)) [
  | inl here ↦ rw here (first (omega arith) (ground arith) (λ k h l. absurd (omega arith)))
  | inr other ↦
      rw other
        (Found-earlier (ground arith) (find_from-Found rounds (i + 1) v end items (omega arith)))
]

-- No item equals the value: the list does not contain it, and removing it changes nothing.
pub record Absent (v : ℕ) (d : DynList) : Type 0 where
  pub differs : (k : ℕ) → k < d.length → d.items k ≢ v
  pub not_contained : contains v d ≡ false
  pub no_index : index_of v d ≡ 2 ^ 64 - 1
  pub nothing_removed : remove_item v d ≡ d

-- The first equal item: its index is reported, and it is the one that is removed.
pub record Present (v : ℕ) (d : DynList) : Type 0 where
  pub index : ℕ
  pub in_range : index < d.length
  pub equal : d.items index ≡ v
  pub is_first : (k : ℕ) → k < index → d.items k ≢ v
  pub contained : contains v d ≡ true
  pub index_found : index_of v d ≡ index
  pub removed : remove_item v d ≡ remove_at index d

Found-search :
    (v : ℕ) (d : DynList) (i : ℕ)
    → find_from d.length 0 v d.items ≡ i
    → Found v 0 d.length d.items i
    → Absent v d ⊎ Present v d
unfolding contains index_of remove_item
Found-search v d i e (nowhere at_end none_of) = inl (record {
  differs = λ k h. none_of k (omega arith) h;
  not_contained = ground arith;
  no_index = ground arith;
  nothing_removed = ground arith;
})
Found-search v d i e (first l eq before) = inr (record {
  index = i;
  in_range = l;
  equal = eq;
  is_first = λ k h. before k (omega arith) h;
  contained = ground arith;
  index_found = ground arith;
  removed = ground arith;
})

-- `contains`, `indexOf` and `remove` of an item agree: either no item is equal, or they find the
-- first one that is.
pub search_lem : (v : ℕ) (d : DynList) → Absent v d ⊎ Present v d
search_lem v d =
    Found-search v d _ refl (find_from-Found d.length 0 v d.length d.items (omega arith))
