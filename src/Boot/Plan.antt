-- ===== src/Boot/Plan.antt =====
-- The list of mappings that the kernel makes, and the translation that it stands for.
use oke_os.Prelude.{
  ℕ, zero, suc, ◌+◌, ◌*◌, ◌/◌, ◌%◌, ◌^◌, ◌≤◌, ◌≡◌, ◌≢◌, ◌∙◌, refl, ap, sym, inl, inr, Bool-cases,
  ==_iff, Option, some, List, [], ◌∷◌, ◌++◌, arith, ltb, leb, ◌&&◌, ◌==◌, if◌then◌else◌,
}
use oke_os.MemoryMap.{MemmapEntry, to_virt}
use oke_os.Paging.{Machine}
use oke_os.Paging.Walk.{walk, Shape, IsTree}
use oke_os.Paging.Leaf.{frame}
use oke_os.Paging.Map.{path_of, Translated}
use oke_os.Paging.Pages.{page_of, path_of-page}
use oke_os.Boot.{size_in_pages, entry_phys, entry_virt}

-- Pairs of a virtual and a physical address.
abbrev pub Plan : Type 0
Plan = List (ℕ × ℕ)

-- The frame of the page `q`: the last pair counts, and `old` where there is none.
abbrev pub final : ℕ → Plan → Option ℕ → Option ℕ
final q [] old = old
final q ((virt, phys) ∷ plan) old =
    final q plan (if q == page_of virt then some (frame phys) else old)

-- The pages of an entry from `i` on: those of the kernel are mapped from its virtual base on, and
-- the others at their physical address behind the direct map's offset.
abbrev pub entry_plan : ℕ → ℕ → MemmapEntry → ℕ → ℕ → Plan
entry_plan hhdm kernel entry zero i = []
entry_plan hhdm kernel entry (suc rounds) i =
    (
      (if entry.type == 6 then kernel + i * 4096 else hhdm + entry.base + i * 4096) % 2 ^ 64,
      (entry.base + i * 4096) % 2 ^ 64,
    )
    ∷ entry_plan hhdm kernel entry rounds (i + 1)

-- The pages that an entry of so many bytes reaches into, when it starts at a page.
abbrev pub pages_of : ℕ → ℕ
pages_of length = (length + 4095) / 4096

-- The pages of all the entries, in the order of the map.
abbrev pub map_plan : ℕ → ℕ → List MemmapEntry → Plan
map_plan hhdm kernel [] = []
map_plan hhdm kernel (entry ∷ entries) =
    entry_plan hhdm kernel entry (pages_of entry.length) 0 ++ map_plan hhdm kernel entries

pub size_in_pages-pages_of : (entry : MemmapEntry) → size_in_pages entry ≡ pages_of entry.length
unfolding size_in_pages
size_in_pages-pages_of entry = ground arith

pub entry_phys-plan :
    (entry : MemmapEntry) (i : ℕ) → entry_phys entry i ≡ (entry.base + i * 4096) % 2 ^ 64
unfolding entry_phys
entry_phys-plan entry i = omega arith

pub entry_virt-plan :
    (hhdm kernel : ℕ) (entry : MemmapEntry) (i : ℕ)
    → entry_virt hhdm kernel entry i
      ≡ (if entry.type == 6 then kernel + i * 4096 else hhdm + entry.base + i * 4096) % 2 ^ 64
unfolding entry_virt entry_phys to_virt
entry_virt-plan hhdm kernel entry i = ground arith

-- The first pages, each at its own address.
abbrev pub first_plan : ℕ → ℕ → Plan
first_plan zero i = []
first_plan (suc rounds) i = (i, i) ∷ first_plan rounds (i + 4096)

pub final-append :
    (q : ℕ) (plan later : Plan) (old : Option ℕ)
    → final q (plan ++ later) old ≡ final q later (final q plan old)
final-append q [] later old = refl
final-append q ((virt, phys) ∷ plan) later old =
    final-append q plan later (if q == page_of virt then some (frame phys) else old)

-- The first pages are translated to themselves, and the others as before.
pub final-first_plan :
    (q rounds i : ℕ) (old : Option ℕ)
    → i % 4096 ≡ 0
    → i + rounds * 4096 ≤ 2 ^ 48
    → final q (first_plan rounds i) old
      ≡ (if leb (i / 4096) q && ltb q (i / 4096 + rounds) then some (q * 4096) else old)
final-first_plan q zero i old aligned room = ground arith
final-first_plan q (suc rounds) i old aligned room =
    let ih =
      final-first_plan q rounds (i + 4096) (if q == page_of i then some (frame i) else old)
        (omega arith) (omega arith) in
    ih ∙ ground arith

-- From the state `m` with the tables `g` a sound tree has come about, with the old tables, whose
-- translation is that of the plan.
pub record Installed (m : Machine) (g : Shape) (pml4 : ℕ) (plan : Plan) (m' : Machine)
    : Type 0 where
  pub shape : Shape
  pub tree : IsTree m' shape
  pub keeps : (s : ℕ) → g.level s ≢ 0 → shape.level s ≡ g.level s
  pub translates :
      (virt : ℕ)
      → walk m'.tables pml4 (path_of virt)
        ≡ final (page_of virt) plan (walk m.tables pml4 (path_of virt))

pub Installed-nil : {m : Machine} {g : Shape} (pml4 : ℕ) → IsTree m g → Installed m g pml4 [] m
Installed-nil {g = g} pml4 tree = record {
  shape = g;
  tree = tree;
  keeps = λ s h. refl;
  translates = λ virt. refl;
}

pub Installed-cons :
    {m m₁ m₂ : Machine} {g : Shape} (pml4 virt phys : ℕ) (plan : Plan)
    (t : Translated m g pml4 virt phys m₁)
    → Installed m₁ t.shape pml4 plan m₂
    → Installed m g pml4 ((virt, phys) ∷ plan) m₂
Installed-cons {m} {m₁} {m₂} {g} pml4 virt phys plan t rest = record {
  shape = rest.shape;
  tree = rest.tree;
  keeps = λ s h. let e = t.keeps s h in rest.keeps s (omega arith) ∙ e;
  translates = λ virt'. rest.translates virt' ∙ ap (final (page_of virt') plan) (first virt');
}
  where
    first :
        (virt' : ℕ)
        → walk m₁.tables pml4 (path_of virt') ≡ (
            if page_of virt' == page_of virt
            then some (frame phys)
            else walk m.tables pml4 (path_of virt'))
    first virt' = elim (Bool-cases (page_of virt' == page_of virt)) [
      | inl here ↦
          let same : page_of virt' ≡ page_of virt =
            (==_iff (page_of virt') (page_of virt)).0 here in
          simp here (ap (walk m₁.tables pml4) (path_of-page virt' virt same) ∙ t.maps)
      | inr there ↦ simp there (t.others virt' (ground arith))
    ]

pub Installed-append :
    {m m₁ m₂ : Machine} {g : Shape} (pml4 : ℕ) (plan later : Plan)
    (first : Installed m g pml4 plan m₁)
    → Installed m₁ first.shape pml4 later m₂
    → Installed m g pml4 (plan ++ later) m₂
Installed-append {m} {m₁} {m₂} {g} pml4 plan later first second = record {
  shape = second.shape;
  tree = second.tree;
  keeps = λ s h. let e = first.keeps s h in second.keeps s (omega arith) ∙ e;
  translates = λ virt.
      second.translates virt
      ∙ ap (final (page_of virt) later) (first.translates virt)
      ∙ sym (final-append (page_of virt) plan later (walk m.tables pml4 (path_of virt)));
}
