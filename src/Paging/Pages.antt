-- ===== src/Paging/Pages.antt =====
-- The page of a virtual address.
use oke_os.Prelude.{ℕ, ◌/◌, ◌%◌, ◌^◌, ◌≡◌, arith}
use oke_os.Paging.Map.{path_of}

-- The number of the page of a virtual address.
abbrev pub page_of : ℕ → ℕ
page_of virt = virt % 2 ^ 48 / 4096

-- The path of an address depends on its page.
pub path_of-page : (x y : ℕ) → page_of x ≡ page_of y → path_of x ≡ path_of y
path_of-page x y e = ground arith
