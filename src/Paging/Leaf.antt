-- ===== src/Paging/Leaf.antt =====
-- The last level of `PageTable_MapMemory`, and what a mapping has to do at each level.
use oke_os.Prelude.{
  ℕ, ◌*◌, ◌/◌, ◌%◌, ◌^◌, ◌<◌, ◌≡◌, ◌≢◌, ◌∙◌, refl, ap, sym, true, false, ◌&&◌, Bool-cases, inl, inr,
  List, [], ◌∷◌, none, some, arith, ◌==◌, u64, ◌<<<◌, length,
}
use oke_os.PageFrame.{done}
use oke_os.Paging.{Machine, present, get_flag, get_address, point_to, map_page, write_entry}
use oke_os.Paging.Walk.{
  Tables, is_present, target, walk, Shape, IsTree, point_to-lt, present-point_to, target-point_to,
}

-- The frame of a physical address, within 52 bits.
abbrev pub frame : ℕ → ℕ
frame phys = phys % 2 ^ 52 / 4096 * 4096

-- The walk from `t` down the path now ends at the frame; the walk from any table of that level
-- down any other path ends where it did, and the levels above are untouched.
pub record Mapped (m : Machine) (g : Shape) (t : ℕ) (path : List ℕ) (phys : ℕ) (m' : Machine)
    : Type 0 where
  pub shape : Shape
  pub tree : IsTree m' shape
  pub keeps : (s : ℕ) → g.level s ≢ 0 → shape.level s ≡ g.level s
  pub upper : (s j : ℕ) → g.level s ≢ 0 → length path < g.level s → m'.tables s j ≡ m.tables s j
  pub maps : walk m'.tables t path ≡ some (frame phys)
  pub others :
      (s : ℕ) (path' : List ℕ)
      → g.level s ≡ length path
      → length path' ≡ length path
      → ¬ ((s ≡ t) × (path' ≡ path))
      → walk m'.tables s path' ≡ walk m.tables s path'

pub walk_entry :
    (tables : Tables) (t i c : ℕ) (path : List ℕ)
    → is_present tables t i ≡ true
    → target tables t i ≡ c
    → walk tables t (i ∷ path) ≡ walk tables c path
unfolding walk
walk_entry tables t i c path there lead = rw (there, lead)

pub walk_absent :
    (tables : Tables) (t i : ℕ) (path : List ℕ)
    → is_present tables t i ≡ false
    → walk tables t (i ∷ path) ≡ none
unfolding walk
walk_absent tables t i path missing = rw missing

-- A walk depends on its first entry and on the rest of the walk.
pub walk_first :
    (xs ys : Tables) (t i : ℕ) (path : List ℕ)
    → xs t i ≡ ys t i
    → (is_present ys t i ≡ true → walk xs (target ys t i) path ≡ walk ys (target ys t i) path)
    → walk xs t (i ∷ path) ≡ walk ys t (i ∷ path)
walk_first xs ys t i path same rest = elim (Bool-cases (is_present ys t i)) [
  | inl there ↦
      walk_entry xs t i (target ys t i) path (ap (λ e. get_flag e present) same ∙ there)
        (ap (λ e. u64 (get_address e <<< 12)) same)
      ∙ rest there
      ∙ sym (walk_entry ys t i (target ys t i) path there refl)
  | inr missing ↦
      walk_absent xs t i path (ap (λ e. get_flag e present) same ∙ missing)
      ∙ sym (walk_absent ys t i path missing)
]

-- The last level.
module _ {m : Machine} {g : Shape} (tree : IsTree m g) (t i phys : ℕ) (level : g.level t ≡ 1) where
  abbrev pub written : Machine
  written = record m { tables = write_entry m.tables t i (point_to (m.tables t i) phys) }

  written_at : written.tables t i ≡ point_to (m.tables t i) phys
  written_at = ground arith

  written_present : is_present written.tables t i ≡ true
  written_present =
      ap (λ e. get_flag e present) written_at
      ∙ present-point_to (m.tables t i) phys (tree.words t i)

  written_other : (s j : ℕ) → (t == s && i == j) ≡ false → written.tables s j ≡ m.tables s j
  written_other s j n = ground arith

  written-IsTree : IsTree written g
  written-IsTree = record {
    sound = tree.sound;
    physical = tree.physical;
    words = λ s j. ground (arith, point_to-lt (m.tables t i) phys (tree.words t i), tree.words s j);
    in_range = tree.in_range;
    is_locked = tree.is_locked;
    child_level = λ s j k l. rw (written_other s j (ground arith)) (tree.child_level s j k l);
    child_parent = λ s j k l. rw (written_other s j (ground arith)) (tree.child_parent s j k l);
    child_slot = λ s j k l. rw (written_other s j (ground arith)) (tree.child_slot s j k l);
  }

  written_walk :
      (s : ℕ) (path : List ℕ)
      → length path ≡ 1
      → ¬ ((s ≡ t) × (path ≡ i ∷ []))
      → walk written.tables s path ≡ walk m.tables s path
  written_walk s [] l n = absurd (omega arith)
  written_walk s (j ∷ k ∷ path) l n = absurd (omega arith)
  written_walk s (j ∷ []) l n = elim (Bool-cases (t == s && i == j)) [
    | inl e ↦
        let es : s ≡ t = ground arith in
        let ej : j ≡ i = ground arith in absurd (n (es, ap (λ x. x ∷ []) ej))
    | inr e ↦
        walk_first written.tables m.tables s j [] (written_other s j e)
          (λ there. unfold walk in refl)
  ]

  pub written-Mapped : Mapped m g t (i ∷ []) phys written
  written-Mapped = record {
    shape = g;
    tree = written-IsTree;
    keeps = λ s h. refl;
    upper = λ s j h l. written_other s j (ground arith);
    maps =
        walk_entry written.tables t i (frame phys) [] written_present (
          ap (λ e. u64 (get_address e <<< 12)) written_at
          ∙ target-point_to (m.tables t i) phys (tree.words t i))
        ∙ (unfold walk in refl);
    others = λ s path l e n. written_walk s path e n;
  }

  pub map_page-written : map_page t i phys m ≡ done written
  unfolding map_page
  map_page-written = rw written_present
