-- ===== src/PageFrame/Counters.antt =====
-- The counters of free and used memory.
use oke_os.Prelude.{ℕ, zero, suc, ◌+◌, ◌*◌, ◌≡◌, ◌∙◌, refl, arith, u64}
use oke_os.PageFrame.{
  Pfa, lock_page, free_page, free_pages_loop, free_pages, lock_pages_loop, lock_pages, int_offset,
  total_ram,
}

total-lock_page : (addr : ℕ) (s : Pfa) → total_ram (lock_page addr s) ≡ total_ram s
unfolding lock_page total_ram
total-lock_page addr s = ground arith

total-free_page : (addr : ℕ) (s : Pfa) → total_ram (free_page addr s) ≡ total_ram s
unfolding free_page total_ram
total-free_page addr s = ground arith

total-lock_pages_loop :
    (n i addr : ℕ) (s : Pfa) → total_ram (lock_pages_loop n i addr s) ≡ total_ram s
unfolding lock_pages_loop
total-lock_pages_loop zero i addr s = refl
total-lock_pages_loop (suc n) i addr s =
    total-lock_pages_loop n (i + 1) addr _ ∙ total-lock_page (u64 (addr + int_offset i)) s

total-free_pages_loop :
    (n i addr : ℕ) (s : Pfa) → total_ram (free_pages_loop n i addr s) ≡ total_ram s
unfolding free_pages_loop
total-free_pages_loop zero i addr s = refl
total-free_pages_loop (suc n) i addr s =
    total-free_pages_loop n (i + 1) addr _ ∙ total-free_page (u64 (addr + u64 (i * 4096))) s

-- Locking and freeing ranges of pages moves memory between the counters, and `mem_getTotalRAM`
-- stays what it was.
pub total_ram_kept :
    (addr n : ℕ) (s : Pfa)
    → (total_ram (lock_pages addr n s) ≡ total_ram s)
      × (total_ram (free_pages addr n s) ≡ total_ram s)
unfolding lock_pages free_pages
total_ram_kept addr n s = (total-lock_pages_loop n 0 addr s, total-free_pages_loop n 0 addr s)
