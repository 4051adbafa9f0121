-- ===== src/Paging/Map.antt =====
-- kernel/mem/paging.cpp: `PageTable_MapMemory` as a whole, against the translation of Paging/Walk.
use oke_os.Prelude.{
  ℕ, suc, ◌+◌, ◌*◌, ◌/◌, ◌%◌, ◌^◌, ◌≡◌, ◌≢◌, ◌∙◌, refl, ap, sym, fun_ext, true, false, ◌&&◌,
  Bool-cases, inl, inr, List, [], ◌∷◌, none, some, arith, ◌==◌, u64, ◌<<<◌, length,
}
use mathlib.Core.Path.{ap₂}
use oke_os.PageFrame.{Outcome, done, panicked}
use oke_os.Paging.{
  Machine, present, get_flag, get_address, descend, map_page, map_memory, indexer_from, ◌>>=◌,
}
use oke_os.Paging.Index.{indexer_from_split}
use oke_os.Paging.Walk.{is_present, target, walk, Shape, IsTree, walk_agree}
use oke_os.Paging.Descend.{Ensures, Descended, descend_lem}
use oke_os.Paging.Leaf.{
  frame, Mapped, walk_entry, walk_absent, walk_first, written-Mapped, map_page-written,
}

-- The four levels as a recursion on the path.
map_path : ℕ → List ℕ → ℕ → Machine → Outcome Machine
map_path t [] phys m = done m
map_path t (i ∷ []) phys m = map_page t i phys m
map_path t (i ∷ j ∷ path) phys m = descend t i m >>= λ (c, m'). map_path c (j ∷ path) phys m'

-- One level above: the descent, then the mapping from the next table.
module _ {m : Machine} {g : Shape} (t i phys c : ℕ) (m₁ m' : Machine) (j : ℕ) (path : List ℕ)
    (tree : IsTree m g) (level : g.level t ≡ suc (length (j ∷ path)))
    (d : Descended m g t i (length path) c m₁) (r : Mapped m₁ d.shape c (j ∷ path) phys m') where
  upper_entry : (s k : ℕ) → g.level s ≡ suc (length (j ∷ path)) → m'.tables s k ≡ m₁.tables s k
  upper_entry s k l = let same = d.keeps s (omega arith) in r.upper s k (omega arith) (omega arith)

  -- The child of another entry is another table.
  other_child :
      (s k : ℕ)
      → g.level s ≡ suc (length (j ∷ path))
      → (s == t && k == i) ≡ false
      → is_present m₁.tables s k ≡ true
      → target m₁.tables s k ≢ c
  other_child s k l n there e =
      let ls : d.shape.level s ≡ suc (suc (length path)) = d.keeps s (omega arith) ∙ l in
      let lt : d.shape.level t ≡ suc (suc (length path)) = d.keeps t (omega arith) ∙ level in
      let ps = d.tree.child_parent s k (length path) ls there in
      let pt = d.tree.child_parent t i (length path) lt d.linked in
      let ss = d.tree.child_slot s k (length path) ls there in
      let st = d.tree.child_slot t i (length path) lt d.linked in
      let same : target m₁.tables s k ≡ target m₁.tables t i = e ∙ sym d.leads in
      let es : s ≡ t = sym ps ∙ ap d.shape.parent same ∙ pt in
      let ek : k ≡ i = sym ss ∙ ap d.shape.slot same ∙ st in ground arith

  -- Walks through the entry of the descent.
  through :
      (path' : List ℕ)
      → length path' ≡ length (j ∷ path)
      → path' ≢ j ∷ path
      → walk m'.tables t (i ∷ path') ≡ walk m.tables t (i ∷ path')
  through path' l n =
      let entry = upper_entry t i level in
      let below =
        walk_entry m'.tables t i c path' (ap (λ e. get_flag e present) entry ∙ d.linked)
          (ap (λ e. u64 (get_address e <<< 12)) entry ∙ d.leads)
        ∙ r.others c path' d.child_level l (λ p. n p.1) in
      elim d.before [
        | inl same ↦
            let tables : m₁.tables ≡ m.tables = fun_ext λ s. fun_ext λ k. same s k in
            below
            ∙ sym (walk_entry m₁.tables t i c path' d.linked d.leads)
            ∙ ap (λ x. walk x t (i ∷ path')) tables
        | inr new ↦ below ∙ empty path' l new.1 ∙ sym (walk_absent m.tables t i path' new.0)
      ]
    where
      empty :
          (path' : List ℕ)
          → length path' ≡ length (j ∷ path)
          → ((k : ℕ) → is_present m₁.tables c k ≡ false)
          → walk m₁.tables c path' ≡ none
      empty [] l none_there = absurd (omega arith)
      empty (k ∷ path') l none_there = walk_absent m₁.tables c k path' (none_there k)

  -- Walks through any other entry of the level.
  beside :
      (s k : ℕ) (path' : List ℕ)
      → g.level s ≡ suc (length (j ∷ path))
      → length path' ≡ length (j ∷ path)
      → (s == t && k == i) ≡ false
      → walk m'.tables s (k ∷ path') ≡ walk m.tables s (k ∷ path')
  beside s k path' ls l n =
      let entry = upper_entry s k ls in
      let kept = d.others s k (omega arith) n in
      walk_first m'.tables m.tables s k path' (entry ∙ kept) λ there.
        let was : is_present m₁.tables s k ≡ true = ap (λ e. get_flag e present) kept ∙ there in
        let lead : target m₁.tables s k ≡ target m.tables s k =
          ap (λ e. u64 (get_address e <<< 12)) kept in
        let child = tree.child_level s k (length path) ls there in
        let child' : d.shape.level (target m.tables s k) ≡ suc (length path) =
          d.keeps (target m.tables s k) (omega arith) ∙ child in
        let apart = other_child s k ls n was in
        r.others (target m.tables s k) path' child' l (λ p. apart (lead ∙ p.0))
        ∙ walk_agree tree m₁.tables (suc (suc (length path)))
            (λ u v h b. d.others u v h (ground arith)) path' (target m.tables s k) (child ∙ sym l)
            (omega arith)

  elsewhere :
      (s : ℕ) (path' : List ℕ)
      → g.level s ≡ suc (suc (length path))
      → length path' ≡ suc (suc (length path))
      → ¬ ((s ≡ t) × (path' ≡ i ∷ j ∷ path))
      → walk m'.tables s path' ≡ walk m.tables s path'
  elsewhere s [] ls l n = absurd (omega arith)
  elsewhere s (k ∷ path') ls l n = elim (Bool-cases (s == t && k == i)) [
    | inl e ↦
        let es : s ≡ t = ground arith in
        let ek : k ≡ i = ground arith in
        rw (es, ek) (through path' (omega arith) (λ p. n (es, ap₂ ◌∷◌ ek p)))
    | inr e ↦ beside s k path' ls (omega arith) e
  ]

  above-Mapped : Mapped m g t (i ∷ j ∷ path) phys m'
  above-Mapped = record {
    shape = r.shape;
    tree = r.tree;
    keeps = λ s h. let e = d.keeps s h in r.keeps s (omega arith) ∙ e;
    upper = λ s k h l.
        let e = d.keeps s h in
        r.upper s k (omega arith) (omega arith) ∙ d.others s k h (ground arith);
    maps =
        let entry = upper_entry t i level in
        walk_entry m'.tables t i c (j ∷ path) (ap (λ e. get_flag e present) entry ∙ d.linked)
          (ap (λ e. u64 (get_address e <<< 12)) entry ∙ d.leads)
        ∙ r.maps;
    others = elsewhere;
  }

pub Ensures-bind :
    {A B : Type 0} (P : A → Type 0) (Q : B → Type 0) (r : Outcome A) (f : A → Outcome B)
    → Ensures P r
    → ((a : A) → P a → Ensures Q (f a))
    → Ensures Q (r >>= f)
Ensures-bind P Q (done a) f p next = next a p
Ensures-bind P Q (panicked e) f p next = p

pub Ensures-mono :
    {A : Type 0} (P Q : A → Type 0) (r : Outcome A)
    → Ensures P r
    → ((a : A) → P a → Q a)
    → Ensures Q r
Ensures-mono P Q (done a) p weaken = weaken a p
Ensures-mono P Q (panicked e) p weaken = p

map_path-Mapped :
    (path : List ℕ) (i t phys : ℕ) (m : Machine) (g : Shape)
    → IsTree m g
    → g.level t ≡ suc (length path)
    → Ensures (λ m'. Mapped m g t (i ∷ path) phys m') (map_path t (i ∷ path) phys m)
unfolding map_path
map_path-Mapped [] i t phys m g tree level =
    rw (map_page-written tree t i phys level) (written-Mapped tree t i phys level)
map_path-Mapped (j ∷ path) i t phys m g tree level =
    Ensures-bind (λ (c, m'). Descended m g t i (length path) c m')
      (λ m'. Mapped m g t (i ∷ j ∷ path) phys m') (descend t i m)
      (λ (c, m'). map_path c (j ∷ path) phys m') (descend_lem tree t i (length path) level)
      λ (c, m₁) d.
        Ensures-mono (λ m'. Mapped m₁ d.shape c (j ∷ path) phys m')
          (λ m'. Mapped m g t (i ∷ j ∷ path) phys m') (map_path c (j ∷ path) phys m₁)
          (map_path-Mapped path j c phys m₁ d.shape d.tree d.child_level)
          λ m' r. above-Mapped t i phys c m₁ m' j path tree level d r

-- The path of a virtual address, as the processor splits it: four groups of nine bits, from bit 47
-- down to bit 12.
abbrev pub path_of : ℕ → List ℕ
path_of virt =
    virt / 2 ^ 39 % 512 ∷ virt / 2 ^ 30 % 512 ∷ virt / 2 ^ 21 % 512 ∷ virt / 2 ^ 12 % 512 ∷ []

-- The tables that `pml4` is the root of translate `virt` to the frame of `phys`, and every virtual
-- address in another page as they did before.
pub record Translated (m : Machine) (g : Shape) (pml4 virt phys : ℕ) (m' : Machine) : Type 0 where
  pub shape : Shape
  pub tree : IsTree m' shape
  pub keeps : (s : ℕ) → g.level s ≢ 0 → shape.level s ≡ g.level s
  pub maps : walk m'.tables pml4 (path_of virt) ≡ some (frame phys)
  pub others :
      (virt' : ℕ)
      → virt' % 2 ^ 48 / 4096 ≢ virt % 2 ^ 48 / 4096
      → walk m'.tables pml4 (path_of virt') ≡ walk m.tables pml4 (path_of virt')

pub number : ℕ → List ℕ → ℕ
number n [] = n
number n (i ∷ path) = number (n * 512 + i) path

number-path_of : (x : ℕ) → number 0 (path_of x) ≡ x % 2 ^ 48 / 4096
unfolding number
number-path_of x = omega arith

-- Two virtual addresses with one path are in one page.
same_page : (x y : ℕ) → path_of x ≡ path_of y → x % 2 ^ 48 / 4096 ≡ y % 2 ^ 48 / 4096
same_page x y e = sym (number-path_of x) ∙ ap (number 0) e ∙ number-path_of y

map_memory-indexed :
    (pml4 virt phys : ℕ) (m : Machine)
    → let i = indexer_from virt in
      map_path pml4 (i.pdp_i ∷ i.pd_i ∷ i.pt_i ∷ i.p_i ∷ []) phys m ≡ map_memory pml4 virt phys m
unfolding map_memory map_path
map_memory-indexed pml4 virt phys m = refl

map_memory-map_path :
    (pml4 virt phys : ℕ) (m : Machine)
    → map_memory pml4 virt phys m ≡ map_path pml4 (path_of virt) phys m
map_memory-map_path pml4 virt phys m =
    let (a, b, c, d) = indexer_from_split virt in
    sym (map_memory-indexed pml4 virt phys m)
    ∙ ap (λ path. map_path pml4 path phys m)
        (ap₂ ◌∷◌ a (ap₂ ◌∷◌ b (ap₂ ◌∷◌ c (ap (λ i. i ∷ []) d))))

pub map_memory_lem :
    {m : Machine} {g : Shape} (pml4 virt phys : ℕ)
    → IsTree m g
    → g.level pml4 ≡ 4
    → Ensures (λ m'. Translated m g pml4 virt phys m') (map_memory pml4 virt phys m)
map_memory_lem {m} {g} pml4 virt phys tree root = rw (map_memory-map_path pml4 virt phys m) (
    Ensures-mono (λ m'. Mapped m g pml4 (path_of virt) phys m')
      (λ m'. Translated m g pml4 virt phys m') (map_path pml4 (path_of virt) phys m)
      (map_path-Mapped (virt / 2 ^ 30 % 512 ∷ virt / 2 ^ 21 % 512 ∷ virt / 2 ^ 12 % 512 ∷ [])
        (virt / 2 ^ 39 % 512) pml4 phys m g tree root)
      λ m' r. record {
        shape = r.shape;
        tree = r.tree;
        keeps = r.keeps;
        maps = r.maps;
        others =
            λ virt' n. r.others pml4 (path_of virt') root refl (λ p. n (same_page virt' virt p.1));
      })
