-- ===== src/Boot/Ready.antt =====
-- The page frames and the page tables as `_start` leaves them in front of the switch to the tables.
use oke_os.Prelude.{
  ℕ, ◌^◌, ◌≤◌, ◌<◌, ◌≡◌, ◌≢◌, ◌∙◌, refl, ap, sym, none, some, List, ◌∷◌, ◌++◌, All, arith,
}
use mathlib.Core.Path.{subst}
use oke_os.MemoryMap.{MemmapEntry, Fits}
use oke_os.PageFrame.{Pfa, Outcome, panicked, no_free_memory, no_memory_map}
use oke_os.PageFrame.Init.{init_panics}
use oke_os.PageFrame.Largest.{IsLargest, IsEnd, survey_largest, init-Initialised}
use oke_os.Paging.{Machine, ◌>>=◌}
use oke_os.Paging.Descend.{Ensures}
use oke_os.Boot.{init_paging, start_pages}
use oke_os.Boot.Start.{Booted, init_paging-Booted}

module _ (hhdm kernel : ℕ) (buffer : ℕ → ℕ) (before : List MemmapEntry) (e : MemmapEntry)
    (after : List MemmapEntry) (end : ℕ) (m : Machine) where
  abbrev memmap : List MemmapEntry
  memmap = before ++ e ∷ after

  -- With a map of the memory that ends within 2 GiB, and bytes in the place of the bitmap: `_start`
  -- panics where there is no map, and where the largest usable entry starts at address 0; or else it
  -- sets up the page frames and builds sound page tables, in which the first 16 MiB are translated to
  -- themselves, every other page as the map of the memory says, and no further page, or it panics
  -- for want of memory.
  pub start_pages-Booted :
      All Fits memmap
      → IsEnd end memmap
      → end ≤ 2 ^ 31
      → IsLargest before e after
      → ((q : ℕ) → buffer q < 256)
      → ((t i : ℕ) → m.tables t i < 2 ^ 64)
      → (start_pages hhdm kernel buffer none m ≡ panicked no_memory_map)
        × (e.base ≡ 0 → start_pages hhdm kernel buffer (some memmap) m ≡ panicked no_free_memory)
        × (e.base ≢ 0
            → Ensures
                (λ (pml4, m'). Booted hhdm kernel memmap 4096 pml4 m')
                (start_pages hhdm kernel buffer (some memmap) m))
  unfolding start_pages
  start_pages-Booted fits last small largest_e bytes words = (
    refl,
    λ zero_base.
        let (size, base) = survey_largest before e after m.allocator largest_e in
        ap (λ r. r >>= further) (init_panics memmap buffer m.allocator (base ∙ zero_base)),
    λ placed.
        let (t, returns, made) =
          init-Initialised before e after end buffer m.allocator fits last small largest_e placed
            bytes in
        subst (λ r. Ensures (λ (pml4, m'). Booted hhdm kernel memmap 4096 pml4 m') (r >>= further))
          (sym returns)
          (init_paging-Booted hhdm kernel memmap (record m { allocator = t }) made.sound
            (omega (arith, made.size)) words),
  )
    where
      further : Pfa → Outcome (ℕ × Machine)
      further t = init_paging hhdm kernel memmap (record m { allocator = t })
