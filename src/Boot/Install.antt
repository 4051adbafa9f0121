-- ===== src/Boot/Install.antt =====
-- `_start` carries the plan out.
use oke_os.Prelude.{ℕ, zero, suc, ◌+◌, ◌≡◌, ◌∙◌, List, [], ◌∷◌, ◌++◌, arith}
use oke_os.MemoryMap.{MemmapEntry}
use oke_os.PageFrame.{Outcome}
use oke_os.Paging.{Machine, map_memory, ◌>>=◌}
use oke_os.Paging.Walk.{Shape, IsTree}
use oke_os.Paging.Descend.{Ensures}
use oke_os.Paging.Map.{Translated, map_memory_lem, Ensures-bind, Ensures-mono}
use oke_os.Boot.{map_entry, map_entries, map_first}
use oke_os.Boot.Plan.{
  Plan, pages_of, size_in_pages-pages_of, entry_phys-plan, entry_virt-plan, entry_plan, map_plan,
  first_plan, Installed, Installed-nil, Installed-cons, Installed-append,
}

-- One mapping and those behind it.
map-Installed :
    (pml4 virt phys : ℕ) (plan : Plan) (m : Machine) (g : Shape) (rest : Machine → Outcome Machine)
    → IsTree m g
    → g.level pml4 ≡ 4
    → ((m₁ : Machine) (g₁ : Shape)
        → IsTree m₁ g₁
        → g₁.level pml4 ≡ 4
        → Ensures (Installed m₁ g₁ pml4 plan) (rest m₁))
    → Ensures (Installed m g pml4 ((virt, phys) ∷ plan)) (map_memory pml4 virt phys m >>= rest)
map-Installed pml4 virt phys plan m g rest tree root later =
    Ensures-bind (Translated m g pml4 virt phys) (Installed m g pml4 ((virt, phys) ∷ plan))
      (map_memory pml4 virt phys m) rest (map_memory_lem pml4 virt phys tree root)
      λ m₁ t.
        Ensures-mono (Installed m₁ t.shape pml4 plan) (Installed m g pml4 ((virt, phys) ∷ plan))
          (rest m₁) (later m₁ t.shape t.tree (t.keeps pml4 (omega arith) ∙ root))
          λ m₂ i. Installed-cons pml4 virt phys plan t i

-- A list of mappings and another behind it.
append-Installed :
    (pml4 : ℕ) (plan plan' : Plan) (m : Machine) (g : Shape) (first : Outcome Machine)
    (rest : Machine → Outcome Machine)
    → g.level pml4 ≡ 4
    → Ensures (Installed m g pml4 plan) first
    → ((m₁ : Machine) (g₁ : Shape)
        → IsTree m₁ g₁
        → g₁.level pml4 ≡ 4
        → Ensures (Installed m₁ g₁ pml4 plan') (rest m₁))
    → Ensures (Installed m g pml4 (plan ++ plan')) (first >>= rest)
append-Installed pml4 plan plan' m g first rest root before later =
    Ensures-bind (Installed m g pml4 plan) (Installed m g pml4 (plan ++ plan')) first rest before
      λ m₁ i.
        Ensures-mono (Installed m₁ i.shape pml4 plan') (Installed m g pml4 (plan ++ plan'))
          (rest m₁) (later m₁ i.shape i.tree (i.keeps pml4 (omega arith) ∙ root))
          λ m₂ j. Installed-append pml4 plan plan' i j

module _ (hhdm kernel pml4 : ℕ) where
  map_entry-Installed :
      (entry : MemmapEntry) (rounds i : ℕ) (m : Machine) (g : Shape)
      → IsTree m g
      → g.level pml4 ≡ 4
      → Ensures
          (Installed m g pml4 (entry_plan hhdm kernel entry rounds i))
          (map_entry hhdm kernel pml4 entry rounds i m)
  unfolding map_entry
  map_entry-Installed entry zero i m g tree root = Installed-nil pml4 tree
  map_entry-Installed entry (suc rounds) i m g tree root =
      let virt = entry_virt-plan hhdm kernel entry i in
      let phys = entry_phys-plan entry i in
      rw (virt, phys)
        (map-Installed pml4 _ _ (entry_plan hhdm kernel entry rounds (i + 1)) m g
          (map_entry hhdm kernel pml4 entry rounds (i + 1)) tree root
          (map_entry-Installed entry rounds (i + 1)))

  pub map_entries-Installed :
      (memmap : List MemmapEntry) (m : Machine) (g : Shape)
      → IsTree m g
      → g.level pml4 ≡ 4
      → Ensures
          (Installed m g pml4 (map_plan hhdm kernel memmap))
          (map_entries hhdm kernel pml4 memmap m)
  unfolding map_entries
  map_entries-Installed [] m g tree root = Installed-nil pml4 tree
  map_entries-Installed (entry ∷ entries) m g tree root = rw (size_in_pages-pages_of entry) (
      append-Installed pml4 (entry_plan hhdm kernel entry (pages_of entry.length) 0)
        (map_plan hhdm kernel entries) m g
        (map_entry hhdm kernel pml4 entry (pages_of entry.length) 0 m)
        (map_entries hhdm kernel pml4 entries) root
        (map_entry-Installed entry (pages_of entry.length) 0 m g tree root)
        (map_entries-Installed entries))

pub map_first-Installed :
    (pml4 rounds i : ℕ) (m : Machine) (g : Shape)
    → IsTree m g
    → g.level pml4 ≡ 4
    → Ensures (Installed m g pml4 (first_plan rounds i)) (map_first pml4 rounds i m)
unfolding map_first
map_first-Installed pml4 zero i m g tree root = Installed-nil pml4 tree
map_first-Installed pml4 (suc rounds) i m g tree root =
    map-Installed pml4 i i (first_plan rounds (i + 4096)) m g (map_first pml4 rounds (i + 4096))
      tree root (map_first-Installed pml4 rounds (i + 4096))
