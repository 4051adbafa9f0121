-- ===== src/Boot/Start.antt =====
-- The page tables at the end of the loops of `_start`, from an empty root.
use oke_os.Prelude.{
  ℕ, ◌+◌, ◌*◌, ◌/◌, ◌^◌, ◌≤◌, ◌<◌, ◌≡◌, ◌≢◌, ◌∙◌, refl, ap, sym, true, false, inl, inr, ==_refl,
  Option, none, some, List, ◌++◌, arith, ltb, leb, leb-true, ◌&&◌, ◌==◌, if◌then◌else◌,
}
use oke_os.MemoryMap.{MemmapEntry}
use oke_os.PageFrame.{Pfa, locked, done, request_page}
use oke_os.PageFrame.Invariant.{IsSound}
use oke_os.PageFrame.Request.{Granted}
use oke_os.Paging.{Machine, clear_table, ◌>>=◌, present, get_flag}
use oke_os.Paging.Walk.{Tables, walk, is_present, Shape, IsTree, absent_zero}
use oke_os.Paging.Descend.{Ensures, request_page_cases}
use oke_os.Paging.Map.{path_of, Ensures-bind}
use oke_os.Paging.Pages.{page_of}
use oke_os.Boot.{map_entries, map_first, init_paging}
use oke_os.Boot.Plan.{
  final, map_plan, first_plan, final-append, final-first_plan, Installed, Installed-append,
}
use oke_os.Boot.Install.{map_entries-Installed, map_first-Installed}

-- The tables before the first mapping: the root alone.
abbrev root_only : ℕ → Shape
root_only pml4 = record { level = λ t. if t == pml4 then 4 else 0; parent = λ t. 0; slot = λ t. 0 }

level_root : (pml4 t : ℕ) → (root_only pml4).level t ≢ 0 → t ≡ pml4
level_root pml4 t h = ground arith

cleared_absent :
    (tables : ℕ → ℕ → ℕ) (pml4 i : ℕ) → get_flag (clear_table tables pml4 pml4 i) present ≡ false
cleared_absent tables pml4 i = rw (==_refl pml4) absent_zero

cleared_empty :
    (A : Type 0) (tables : ℕ → ℕ → ℕ) (pml4 t i : ℕ)
    → (root_only pml4).level t ≢ 0
    → is_present (clear_table tables pml4) t i ≡ true
    → A
cleared_empty A tables pml4 t i h there =
    let at = level_root pml4 t h in
    let absent : is_present (clear_table tables pml4) t i ≡ false =
      ap (λ u. is_present (clear_table tables pml4) u i) at ∙ cleared_absent tables pml4 i in
    absurd (false_true (sym absent ∙ there))
  where
    false_true : false ≢ true
    false_true e = absurd cc

walk_cleared :
    (tables : ℕ → ℕ → ℕ) (pml4 virt : ℕ) → walk (clear_table tables pml4) pml4 (path_of virt) ≡ none
unfolding walk
walk_cleared tables pml4 virt = rw (==_refl pml4, absent_zero) refl

-- The state with an empty table in a page that is given out.
module _ (m : Machine) (grant : Granted m.allocator (request_page m.allocator)) where
  abbrev root_page : ℕ
  root_page = grant.page * 4096

  abbrev emptied : Machine
  emptied = record m { allocator = grant.after; tables = clear_table m.tables root_page }

  emptied-IsTree :
      m.allocator.bitmap.size * 32768 ≤ 2 ^ 52
      → ((t i : ℕ) → m.tables t i < 2 ^ 64)
      → IsTree emptied (root_only root_page)
  emptied-IsTree physical words = record {
    sound = grant.sound;
    physical = omega (arith, physical, grant.same_size);
    words = λ t i. let w = words t i in ground (arith, w);
    in_range = λ t h.
        let e = level_root root_page t h in omega (arith, e, grant.in_range, grant.same_size);
    is_locked = λ t h.
        let e = level_root root_page t h in
        let at : t / 4096 ≡ grant.page = omega (arith, e) in
        ap (locked grant.after) at
        ∙ grant.marks grant.page (omega (arith, grant.in_range))
        ∙ simp (==_refl grant.page) refl;
    child_level = λ t i k l h. cleared_empty _ m.tables root_page t i (omega (arith, l)) h;
    child_parent = λ t i k l h. cleared_empty _ m.tables root_page t i (omega (arith, l)) h;
    child_slot = λ t i k l h. cleared_empty _ m.tables root_page t i (omega (arith, l)) h;
  }

request-emptied :
    (m : Machine)
    → IsSound m.allocator
    → m.allocator.bitmap.size * 32768 ≤ 2 ^ 52
    → ((t i : ℕ) → m.tables t i < 2 ^ 64)
    → Ensures
        (λ (pml4, after).
          IsTree
            (record { allocator = after; tables = clear_table m.tables pml4 })
            (root_only pml4))
        (request_page m.allocator)
request-emptied m sound physical words = elim (request_page_cases m.allocator sound) [
  | inr halts ↦ rw halts refl
  | inl grant ↦ let e = grant.returns in rw e (emptied-IsTree m grant physical words)
]

-- The first pages are translated to themselves, and every other page as the map of the memory says,
-- where it names the page.
pub record Booted (hhdm kernel : ℕ) (memmap : List MemmapEntry) (pages pml4 : ℕ) (m' : Machine)
    : Type 0 where
  pub shape : Shape
  pub tree : IsTree m' shape
  pub root : shape.level pml4 ≡ 4
  pub translates :
      (virt : ℕ)
      → walk m'.tables pml4 (path_of virt) ≡ (
          if ltb (page_of virt) pages
          then some (page_of virt * 4096)
          else final (page_of virt) (map_plan hhdm kernel memmap) none)

in_first :
    (q pages : ℕ) (x : Option ℕ) {y z : Option ℕ}
    → y ≡ z
    → (if leb 0 q && ltb q (0 + pages) then x else y) ≡ (if ltb q pages then x else z)
in_first q pages x e =
    let l : leb 0 q ≡ true = leb-true 0 q (omega arith) in
    let n : 0 + pages ≡ pages = omega arith in rw (l, n) (ap (λ o. if ltb q pages then x else o) e)

module _ (hhdm kernel : ℕ) (memmap : List MemmapEntry) (pages : ℕ)
    (room : pages * 4096 ≤ 2 ^ 48) where
  Installed-Booted :
      (tables : Tables) (a : Pfa) (pml4 : ℕ) {m' : Machine}
      → (i : Installed
          (record { allocator = a; tables = clear_table tables pml4 })
          (root_only pml4)
          pml4
          (map_plan hhdm kernel memmap ++ first_plan pages 0)
          m')
      → Booted hhdm kernel memmap pages pml4 m'
  Installed-Booted tables a pml4 i = record {
    shape = i.shape;
    tree = i.tree;
    root = i.keeps pml4 (ground arith) ∙ rw (==_refl pml4) refl;
    translates = λ virt.
        let plan = map_plan hhdm kernel memmap in
        let old = walk (clear_table tables pml4) pml4 (path_of virt) in
        i.translates virt
        ∙ final-append (page_of virt) plan (first_plan pages 0) old
        ∙ final-first_plan (page_of virt) pages 0 (final (page_of virt) plan old) refl (omega arith)
        ∙ in_first (page_of virt) pages (some (page_of virt * 4096))
            (ap (final (page_of virt) plan) (walk_cleared tables pml4 virt));
  }

  -- The loops behind the first request.
  mapping-Booted :
      (tables : Tables) (a : Pfa) (pml4 : ℕ)
      → IsTree (record { allocator = a; tables = clear_table tables pml4 }) (root_only pml4)
      → Ensures
          (λ (p, m'). Booted hhdm kernel memmap pages p m')
          (map_entries hhdm kernel pml4 memmap
              (record { allocator = a; tables = clear_table tables pml4 })
            >>= λ m₂. map_first pml4 pages 0 m₂ >>= λ m₃. done (pml4, m₃))
  mapping-Booted tables a pml4 tree =
      let m₁ : Machine = record { allocator = a; tables = clear_table tables pml4 } in
      let plan = map_plan hhdm kernel memmap in
      let Q = λ (r : ℕ × Machine). Booted hhdm kernel memmap pages r.0 r.1 in
      let root : (root_only pml4).level pml4 ≡ 4 = rw (==_refl pml4) refl in
      Ensures-bind (Installed m₁ (root_only pml4) pml4 plan) Q
        (map_entries hhdm kernel pml4 memmap m₁)
        (λ m₂. map_first pml4 pages 0 m₂ >>= λ m₃. done (pml4, m₃))
        (map_entries-Installed hhdm kernel pml4 memmap m₁ (root_only pml4) tree root)
        λ m₂ i.
          Ensures-bind (Installed m₂ i.shape pml4 (first_plan pages 0)) Q
            (map_first pml4 pages 0 m₂) (λ m₃. done (pml4, m₃))
            (map_first-Installed pml4 pages 0 m₂ i.shape i.tree
              (i.keeps pml4 (omega (arith, root)) ∙ root))
            λ m₃ j.
              Installed-Booted tables a pml4 (Installed-append pml4 plan (first_plan pages 0) i j)

-- From a sound allocator of at most 2^52 bytes, `_start` builds a sound tree of page tables: the
-- first 16 MiB, 4096 pages, are translated to themselves, every other page as the map of the memory
-- says, and a page that it does not name is not mapped; or it panics for want of memory.
pub init_paging-Booted :
    (hhdm kernel : ℕ) (memmap : List MemmapEntry) (m : Machine)
    → IsSound m.allocator
    → m.allocator.bitmap.size * 32768 ≤ 2 ^ 52
    → ((t i : ℕ) → m.tables t i < 2 ^ 64)
    → Ensures
        (λ (pml4, m'). Booted hhdm kernel memmap 4096 pml4 m')
        (init_paging hhdm kernel memmap m)
unfolding init_paging
init_paging-Booted hhdm kernel memmap m sound physical words =
    Ensures-bind
      (λ (r : ℕ × Pfa).
        IsTree (record { allocator = r.1; tables = clear_table m.tables r.0 }) (root_only r.0))
      (λ (r : ℕ × Machine). Booted hhdm kernel memmap 4096 r.0 r.1) (request_page m.allocator) _
      (request-emptied m sound physical words)
      λ (pml4, after) tree.
        mapping-Booted hhdm kernel memmap 4096 (omega arith) m.tables after pml4 tree
