-- ===== src/Paging/Walk.antt =====
-- The translation that the processor makes of a tree of tables, and the invariant of the tree.
use oke_os.Prelude.{
  ℕ, suc, ◌*◌, ◌/◌, ◌%◌, ◌^◌, ◌≤◌, ◌<◌, ◌≡◌, ◌≢◌, ◌∙◌, refl, Bool, true, false, Bool-cases, inl,
  inr, List, [], ◌∷◌, Option, none, some, arith, if◌then◌else◌, u64, ◌<<<◌, ◌>>>◌, length,
}
use oke_os.PageFrame.{locked}
use oke_os.PageFrame.Invariant.{IsSound}
use oke_os.Paging.{
  Machine, present, read_write, nx, get_flag, get_address, set_flag, set_address, point_to,
}
use oke_os.Paging.Entry.{
  get_flag-set_flag, get_address-set_flag, get_address-set_address, set_flag-lt, set_address-lt,
}

abbrev pub Tables : Type 0
Tables = ℕ → ℕ → ℕ

abbrev pub is_present : Tables → ℕ → ℕ → Bool
is_present tables t i = get_flag (tables t i) present

abbrev pub target : Tables → ℕ → ℕ → ℕ
target tables t i = u64 (get_address (tables t i) <<< 12)

-- From a table down a path of indices to the address of a frame.
unfoldable pub walk : Tables → ℕ → List ℕ → Option ℕ
walk tables t [] = some t
walk tables t (i ∷ path) =
    if is_present tables t i then walk tables (target tables t i) path else none

-- For each table its level (0 where there is no table) and the entry that leads to it.
pub record Shape : Type 0 where
  pub level : ℕ → ℕ
  pub parent : ℕ → ℕ
  pub slot : ℕ → ℕ

-- Tables lie in locked pages, and a present entry above the last level leads to a table of the
-- next level, which no other entry leads to.
pub record IsTree (m : Machine) (g : Shape) : Type 0 where
  pub sound : IsSound m.allocator
  pub physical : m.allocator.bitmap.size * 32768 ≤ 2 ^ 52
  pub words : (t i : ℕ) → m.tables t i < 2 ^ 64
  pub in_range : (t : ℕ) → g.level t ≢ 0 → t / 4096 < m.allocator.bitmap.size * 8
  pub is_locked : (t : ℕ) → g.level t ≢ 0 → locked m.allocator (t / 4096) ≡ true
  pub child_level :
      (t i k : ℕ)
      → g.level t ≡ suc (suc k)
      → is_present m.tables t i ≡ true
      → g.level (target m.tables t i) ≡ suc k
  pub child_parent :
      (t i k : ℕ)
      → g.level t ≡ suc (suc k)
      → is_present m.tables t i ≡ true
      → g.parent (target m.tables t i) ≡ t
  pub child_slot :
      (t i k : ℕ)
      → g.level t ≡ suc (suc k)
      → is_present m.tables t i ≡ true
      → g.slot (target m.tables t i) ≡ i

-- The entry that a mapping writes.
module _ (e p : ℕ) (word : e < 2 ^ 64) where
  abbrev addressed : ℕ
  addressed = set_address e (p >>> 12)

  addressed-lt : addressed < 2 ^ 64
  addressed-lt = set_address-lt e (p >>> 12) word

  once-lt : set_flag addressed present true < 2 ^ 64
  once-lt = set_flag-lt addressed present true addressed-lt

  twice-lt : set_flag (set_flag addressed present true) read_write true < 2 ^ 64
  twice-lt = set_flag-lt (set_flag addressed present true) read_write true once-lt

  pub point_to-lt : point_to e p < 2 ^ 64
  unfolding point_to
  point_to-lt = set_flag-lt _ nx false twice-lt

  pub present-point_to : get_flag (point_to e p) present ≡ true
  unfolding point_to
  present-point_to =
      get_flag-set_flag _ nx present false twice-lt
      ∙ get_flag-set_flag _ read_write present true once-lt
      ∙ get_flag-set_flag addressed present present true addressed-lt

  get_address-point_to : get_address (point_to e p) ≡ p / 4096 % 2 ^ 40
  unfolding point_to
  get_address-point_to =
      get_address-set_flag _ nx false twice-lt
      ∙ get_address-set_flag _ read_write true once-lt
      ∙ get_address-set_flag addressed present true addressed-lt
      ∙ get_address-set_address e (p >>> 12) word

  -- It leads to the frame, within the 52 bits of a physical address.
  pub target-point_to : u64 (get_address (point_to e p) <<< 12) ≡ p % 2 ^ 52 / 4096 * 4096
  target-point_to = omega (arith, get_address-point_to)

pub absent_zero : get_flag 0 present ≡ false
unfolding get_flag
absent_zero = refl

-- A walk below a level reads no entry of that level or above.
pub walk_agree :
    {m : Machine} {g : Shape} (tree : IsTree m g) (tables' : Tables) (bound : ℕ)
    → ((t i : ℕ) → g.level t ≢ 0 → g.level t < bound → tables' t i ≡ m.tables t i)
    → (path : List ℕ) (t : ℕ) → g.level t ≡ length path
    → length path < bound
    → walk tables' t path ≡ walk m.tables t path
unfolding walk
walk_agree tree tables' bound same [] t l h = refl
walk_agree tree tables' bound same (i ∷ []) t l h =
    let e = same t i (omega arith) (omega arith) in rw e refl
walk_agree {m} tree tables' bound same (i ∷ j ∷ path) t l h =
    let e = same t i (omega arith) (omega arith) in
    rw e (elim (Bool-cases (is_present m.tables t i)) [
      | inl there ↦ rw there (
          walk_agree tree tables' bound same (j ∷ path) (target m.tables t i)
            (tree.child_level t i (length path) l there) (omega arith))
      | inr missing ↦ rw missing refl
    ])
