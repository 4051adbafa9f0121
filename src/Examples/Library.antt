-- ===== src/Examples/Library.antt =====
-- Concrete runs for kernel/lib/list.h and kernel/lib/mem.cpp.
use oke_os.Prelude.{some, refl, ℕ, ◌+◌, ◌-◌, ◌≤◌, ◌<◌, ◌≡◌, ◌⊎◌, arith, ltb, if◌then◌else◌}
use oke_os.DynList.{DynList, add, get, remove_at, sort}
use oke_os.DynList.Sort.{count, sort_lem}
use oke_os.DynList.Contents.{IsValid, Absent, Present, add_lem, remove_at_lem, search_lem}
use oke_os.MemLib.{Memory, memmove, strlen}
use oke_os.MemLib.Compare.{strlen_lem}
use oke_os.MemLib.Move.{within, memmove_lem}

-- A full list of four items, in falling order.
abbrev four : DynList
four = record { items = λ k. 9 - k; length = 4; capacity = 4 }

four-IsValid : IsValid four
four-IsValid = record { fits = omega arith; room = omega arith; small = omega arith }

sort_lem_example :
    ((a b : ℕ) → a ≤ b → b < 4 → (sort four).items a ≤ (sort four).items b)
    × ((v : ℕ) → count v 4 (sort four).items ≡ count v 4 four.items)
    × ((sort four).length ≡ 4)
    × ((sort four).capacity ≡ 4)
sort_lem_example = sort_lem four

add_lem_example :
    let e = add (λ k. 0) 7 four in
    (e.length ≡ 4 + 1) × (4 < e.capacity) × (get 4 e ≡ 7) × ((k : ℕ) → k < 4 → get k e ≡ get k four)
add_lem_example = add_lem (λ k. 0) 7 four-IsValid

remove_at_lem_example :
    ((remove_at 1 four).length ≡ 4 - 1)
    × ((k : ℕ)
        → k < 4 - 1
        → get k (remove_at 1 four) ≡ (if ltb k 1 then get k four else get (k + 1) four))
remove_at_lem_example = remove_at_lem 1 four (omega arith)

search_lem_example : Absent 8 four ⊎ Present 8 four
search_lem_example = search_lem 8 four

-- A memory with the bytes of a short text at address 1.
abbrev text : Memory
text = λ a. if ltb a 4 then a else 0

memmove_lem_example : memmove 2 1 3 text 4 ≡ (if within 2 3 4 then text (1 + (4 - 2)) else text 4)
memmove_lem_example = memmove_lem 2 1 3 text 4

strlen_lem_example : strlen 9 1 text ≡ some 3
strlen_lem_example = strlen_lem 3 9 1 text (omega arith) (omega arith) (λ j h. ground arith) refl
