-- ===== src/DynList.antt =====
-- `class List<T>` of kernel/lib/list.h, for an unsigned number type `T` (a `get` out of range
-- returns NULL, which is the number 0). `items` is the allocated array, as a function of the index:
-- what stands behind the capacity is there too, and a write to it is seen.
pub mod Contents
pub mod Sort
use oke_os.Prelude.{
  ℕ, zero, suc, ◌+◌, ◌-◌, ◌*◌, ◌/◌, ◌%◌, ◌^◌, Bool, true, false, ltb, leb, ◌==◌, if◌then◌else◌, u64,
}

pub record DynList : Type 0 where
  pub items : ℕ → ℕ
  pub length : ℕ
  pub capacity : ℕ

abbrev pub store : (ℕ → ℕ) → ℕ → ℕ → ℕ → ℕ
store items i v k = if i == k then v else items k

-- `memory` is what the allocation held before.
unfoldable pub with_capacity : ℕ → (ℕ → ℕ) → DynList
with_capacity capacity memory = record { items = memory; length = 0; capacity = capacity }

unfoldable pub copy_items : ℕ → ℕ → (ℕ → ℕ) → (ℕ → ℕ) → ℕ → ℕ
copy_items zero i items new_items = new_items
copy_items (suc rounds) i items new_items =
    copy_items rounds (i + 1) items (store new_items i (items i))

-- Room for one more item; `memory` is what the new allocation held before.
unfoldable pub grow : (ℕ → ℕ) → DynList → DynList
unfolding copy_items
grow memory d =
    if d.length == d.capacity
    then record d { capacity = u64 (d.capacity * 2); items = copy_items d.length 0 d.items memory }
    else d

unfoldable pub add : (ℕ → ℕ) → ℕ → DynList → DynList
unfolding grow
add memory item d =
    let d' = grow memory d in
    record d' { items = store d'.items d'.length item; length = u64 (d'.length + 1) }

unfoldable pub shift_down : ℕ → ℕ → (ℕ → ℕ) → ℕ → ℕ
shift_down zero i items = items
shift_down (suc rounds) i items = shift_down rounds (i + 1) (store items i (items (i + 1)))

unfoldable pub remove_at : ℕ → DynList → DynList
unfolding shift_down
remove_at index d =
    if leb d.length index
    then d
    else record d { items = shift_down (d.length - 1 - index) index d.items; length = d.length - 1 }

-- The search of `remove`, `contains` and `indexOf`: the first index from `i` on that holds the
-- item, or the end of the rounds.
unfoldable pub find_from : ℕ → ℕ → ℕ → (ℕ → ℕ) → ℕ
find_from zero i item items = i
find_from (suc rounds) i item items =
    let rest = find_from rounds (i + 1) item items in if items i == item then i else rest

unfoldable pub remove_item : ℕ → DynList → DynList
unfolding find_from
remove_item item d =
    let i = find_from d.length 0 item d.items in if ltb i d.length then remove_at i d else d

unfoldable pub clear : DynList → DynList
clear d = record d { length = 0 }

unfoldable pub get : ℕ → DynList → ℕ
get index d = if leb d.length index then 0 else d.items index

unfoldable pub set : ℕ → ℕ → DynList → DynList
set index item d = if leb d.length index then d else record d { items = store d.items index item }

unfoldable pub contains : ℕ → DynList → Bool
unfolding find_from
contains item d = ltb (find_from d.length 0 item d.items) d.length

-- `-1` as a `u64` is the largest one.
unfoldable pub index_of : ℕ → DynList → ℕ
unfolding find_from
index_of item d =
    let i = find_from d.length 0 item d.items in if ltb i d.length then i else 2 ^ 64 - 1

abbrev pub swap : (ℕ → ℕ) → ℕ → ℕ → ℕ → ℕ
swap items i j = store (store items i (items j)) j (items i)

-- The inner loop of `sort`.
unfoldable pub bubble : ℕ → ℕ → (ℕ → ℕ) → ℕ → ℕ
bubble zero j items = items
bubble (suc rounds) j items =
    bubble rounds (j + 1) (if ltb (items (j + 1)) (items j) then swap items j (j + 1) else items)

unfoldable pub sort_loop : ℕ → ℕ → ℕ → (ℕ → ℕ) → ℕ → ℕ
sort_loop zero i length items = items
sort_loop (suc rounds) i length items =
    sort_loop rounds (i + 1) length (bubble (length - i - 1) 0 items)

unfoldable pub sort : DynList → DynList
unfolding sort_loop bubble
sort d = record d { items = sort_loop d.length 0 d.length d.items }

unfoldable pub reverse_loop : ℕ → ℕ → ℕ → (ℕ → ℕ) → ℕ → ℕ
reverse_loop zero i length items = items
reverse_loop (suc rounds) i length items =
    reverse_loop rounds (i + 1) length (swap items i (length - i - 1))

unfoldable pub reverse : DynList → DynList
unfolding reverse_loop
reverse d = record d { items = reverse_loop (d.length / 2) 0 d.length d.items }
