-- ===== src/Examples/Boot.antt =====
-- Concrete runs for kernel/kernel.cpp.
use oke_os.Prelude.{ℕ, ◌≡◌, ◌≢◌, some, none, [], ◌∷◌, arith}
use oke_os.PageFrame.{panicked, no_memory_map, no_free_memory}
use oke_os.Paging.Descend.{Ensures}
use oke_os.Boot.{init_paging, start_pages}
use oke_os.Boot.Ready.{start_pages-Booted}
use oke_os.Boot.Start.{Booted, init_paging-Booted}
use oke_os.Examples.Memory.{
  map, map-Fits, map-IsEnd, reserved, megabyte, megabyte-IsLargest, machine, allocator-IsSound,
}

init_paging-Booted_example :
    Ensures
      (λ (pml4, m'). Booted 0xffff800000000000 0xffffffff80000000 map 4096 pml4 m')
      (init_paging 0xffff800000000000 0xffffffff80000000 map machine)
init_paging-Booted_example =
    init_paging-Booted 0xffff800000000000 0xffffffff80000000 map machine allocator-IsSound
      (omega arith) (λ t i. omega arith)

start_pages-Booted_example :
    (start_pages 0xffff800000000000 0xffffffff80000000 (λ q. 255) none machine
      ≡ panicked no_memory_map)
    × (◌≡◌ {A = ℕ} 0x100000 0
        → start_pages 0xffff800000000000 0xffffffff80000000 (λ q. 255) (some map) machine
          ≡ panicked no_free_memory)
    × (◌≢◌ {A = ℕ} 0x100000 0
        → Ensures
            (λ (pml4, m'). Booted 0xffff800000000000 0xffffffff80000000 map 4096 pml4 m')
            (start_pages 0xffff800000000000 0xffffffff80000000 (λ q. 255) (some map) machine))
start_pages-Booted_example =
    start_pages-Booted 0xffff800000000000 0xffffffff80000000 (λ q. 255) (reserved ∷ []) megabyte []
      0x200000 machine map-Fits map-IsEnd (omega arith) megabyte-IsLargest (λ q. omega arith)
      (λ t i. omega arith)
