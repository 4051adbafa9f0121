-- ===== src/Paging/Descend.antt =====
-- One level of `PageTable_MapMemory`: the table behind an entry is found, or made.
use oke_os.Prelude.{
  ℕ, suc, ◌*◌, ◌/◌, ◌^◌, ◌<◌, ◌≡◌, ◌≢◌, ◌∙◌, refl, ap, sym, true, false, ◌&&◌, Bool-cases, inl, inr,
  ◌⊎◌, arith, ltb, ◌==◌, if◌then◌else◌, u64, ◌<<<◌,
}
use oke_os.PageFrame.{Pfa, Outcome, done, panicked, out_of_memory, locked, request_page}
use oke_os.PageFrame.Invariant.{IsSound}
use oke_os.PageFrame.Request.{Granted, request_page_lowest, request_page_low}
use oke_os.Paging.{
  Machine, present, get_flag, get_address, point_to, descend, write_entry, clear_table,
}
use oke_os.Paging.Walk.{
  is_present, target, Shape, IsTree, point_to-lt, present-point_to, target-point_to, absent_zero,
}

-- The operation returns a result with the property, or panics for want of memory.
abbrev pub Ensures : {A : Type 0} → (A → Type 0) → Outcome A → Type 0
Ensures P (done a) = P a
Ensures P (panicked p) = p ≡ out_of_memory

-- The table `c` is the one behind the entry `i` of `table`; nothing but this entry has changed in
-- the tables that were there.
pub record Descended (m : Machine) (g : Shape) (table i k c : ℕ) (m' : Machine) : Type 0 where
  pub shape : Shape
  pub tree : IsTree m' shape
  pub keeps : (t : ℕ) → g.level t ≢ 0 → shape.level t ≡ g.level t
  pub child_level : shape.level c ≡ suc k
  pub linked : is_present m'.tables table i ≡ true
  pub leads : target m'.tables table i ≡ c
  pub others :
      (t j : ℕ) → g.level t ≢ 0 → (t == table && j == i) ≡ false → m'.tables t j ≡ m.tables t j
  pub before :
      ((t j : ℕ) → m'.tables t j ≡ m.tables t j)
      ⊎ ((is_present m.tables table i ≡ false) × ((j : ℕ) → is_present m'.tables c j ≡ false))

-- A request for a page, in either outcome.
pub request_page_cases :
    (s : Pfa) → IsSound s → Granted s (request_page s) ⊎ (request_page s ≡ panicked out_of_memory)
request_page_cases s sound = elim (Bool-cases (s.oom_panics && ltb s.free_memory 16384)) [
  | inl low ↦ inr (request_page_low s (ground arith) (ground arith))
  | inr enough ↦ elim (request_page_lowest sound enough) [ inl g ↦ inl g | inr x ↦ inr x.halts ]
]

-- A new table in a page that was free.
module _ {m : Machine} {g : Shape} (tree : IsTree m g) (table i k : ℕ)
    (level : g.level table ≡ suc (suc k)) (missing : is_present m.tables table i ≡ false)
    (grant : Granted m.allocator (request_page m.allocator)) where
  abbrev page : ℕ
  page = grant.page * 4096

  abbrev entry : ℕ
  entry = point_to (m.tables table i) page

  abbrev made : Machine
  made = record {
    allocator = grant.after;
    tables = write_entry (clear_table m.tables page) table i entry;
  }

  abbrev shape' : Shape
  shape' = record {
    level = λ t. if page == t then suc k else g.level t;
    parent = λ t. if page == t then table else g.parent t;
    slot = λ t. if page == t then i else g.slot t;
  }

  -- The new table is no table that was there.
  page_new : (t : ℕ) → g.level t ≢ 0 → (page == t) ≡ false
  page_new t h = elim (Bool-cases (page == t)) [
    | inl e ↦
        let same : t / 4096 ≡ grant.page = ground arith in
        let clash : true ≡ false =
          sym (tree.is_locked t h) ∙ ap (locked m.allocator) same ∙ grant.was_free in
        absurd (cc)
    | inr n ↦ n
  ]

  made_at : made.tables table i ≡ entry
  made_at = ground arith

  made_other :
      (t j : ℕ) → g.level t ≢ 0 → (t == table && j == i) ≡ false → made.tables t j ≡ m.tables t j
  made_other t j h n = ground (arith, page_new t h)

  made_page : (j : ℕ) → made.tables page j ≡ 0
  made_page j = ground (arith, page_new table (ground arith))

  made_leads : target made.tables table i ≡ page
  made_leads =
      let e = target-point_to (m.tables table i) page (tree.words table i) in
      rw made_at (e ∙ omega (arith, tree.physical, grant.in_range))

  made-words : (t j : ℕ) → made.tables t j < 2 ^ 64
  made-words t j =
      ground (arith, point_to-lt (m.tables table i) page (tree.words table i), tree.words t j)

  -- What the entries of the new tree lead to.
  made_child :
      (t j l : ℕ)
      → shape'.level t ≡ suc (suc l)
      → is_present made.tables t j ≡ true
      → (shape'.level (target made.tables t j) ≡ suc l)
        × (shape'.parent (target made.tables t j) ≡ t)
        × (shape'.slot (target made.tables t j) ≡ j)
  made_child t j l h there = elim (Bool-cases (page == t)) [
    | inl new ↦
        let e : page ≡ t = ground arith in
        let empty : is_present made.tables t j ≡ false =
          rw (← e) (ap (λ x. get_flag x present) (made_page j) ∙ absent_zero) in
        absurd (cc)
    | inr old ↦ elim (Bool-cases (t == table && j == i)) [
      | inl here ↦
          let et : t ≡ table = ground arith in
          let ej : j ≡ i = ground arith in
          let lead : target made.tables t j ≡ page = rw (et, ej) made_leads in
          rw lead (ground arith, ground arith, ground arith)
      | inr other ↦
          let same = made_other t j (ground arith) other in
          let lead : target made.tables t j ≡ target m.tables t j =
            ap (λ e. u64 (get_address e <<< 12)) same in
          let was : is_present m.tables t j ≡ true =
            sym (ap (λ e. get_flag e present) same) ∙ there in
          let level' = tree.child_level t j l (ground arith) was in
          let parent' = tree.child_parent t j l (ground arith) was in
          let slot' = tree.child_slot t j l (ground arith) was in
          let distinct = page_new (target m.tables t j) (ground arith) in
          rw (lead, distinct) (level', parent', slot')
    ]
  ]

  made-IsTree : IsTree made shape'
  made-IsTree = record {
    sound = grant.sound;
    physical = omega (arith, tree.physical, grant.same_size);
    words = made-words;
    in_range = λ t h. ground (arith, grant.same_size, grant.in_range, tree.in_range t);
    is_locked = λ t h.
        ground (arith, grant.marks (t / 4096), grant.in_range, tree.in_range t, tree.is_locked t);
    child_level = λ t j l h there. (made_child t j l h there).0;
    child_parent = λ t j l h there. (made_child t j l h there).1;
    child_slot = λ t j l h there. (made_child t j l h there).2;
  }

  made-Descended : Descended m g table i k page made
  made-Descended = record {
    shape = shape';
    tree = made-IsTree;
    keeps = λ t h. ground (arith, page_new t h);
    child_level = ground arith;
    linked =
        ap (λ e. get_flag e present) made_at
        ∙ present-point_to (m.tables table i) page (tree.words table i);
    leads = made_leads;
    others = made_other;
    before = inr (missing, λ j. ap (λ e. get_flag e present) (made_page j) ∙ absent_zero);
  }

found-Descended :
    {m : Machine} {g : Shape}
    → IsTree m g
    → (table i k : ℕ) → g.level table ≡ suc (suc k)
    → is_present m.tables table i ≡ true
    → Descended m g table i k (target m.tables table i) m
found-Descended {g = g} tree table i k level there = record {
  shape = g;
  tree = tree;
  keeps = λ t h. refl;
  child_level = tree.child_level table i k level there;
  linked = there;
  leads = refl;
  others = λ t j h n. refl;
  before = inl (λ t j. refl);
}

descend-found :
    (m : Machine) (table i : ℕ)
    → is_present m.tables table i ≡ true
    → descend table i m ≡ done (target m.tables table i, m)
unfolding descend
descend-found m table i there = ground arith

descend-halts :
    (m : Machine) (table i : ℕ)
    → is_present m.tables table i ≡ false
    → request_page m.allocator ≡ panicked out_of_memory
    → descend table i m ≡ panicked out_of_memory
unfolding descend
descend-halts m table i missing halts = ground arith

descend-made :
    {m : Machine} {g : Shape} (tree : IsTree m g) (table i k : ℕ)
    (level : g.level table ≡ suc (suc k)) (missing : is_present m.tables table i ≡ false)
    (grant : Granted m.allocator (request_page m.allocator))
    → descend table i m
      ≡ done (page tree table i k level missing grant, made tree table i k level missing grant)
unfolding descend
descend-made tree table i k level missing grant =
    let new = made-Descended tree table i k level missing grant in
    ground (arith, grant.returns, new.linked)

-- The descent finds the table behind the entry, or makes it; the check that follows never fails.
pub descend_lem :
    {m : Machine} {g : Shape}
    → IsTree m g
    → (table i k : ℕ) → g.level table ≡ suc (suc k)
    → Ensures (λ (c, m'). Descended m g table i k c m') (descend table i m)
descend_lem {m} tree table i k level = elim (Bool-cases (is_present m.tables table i)) [
  | inl there ↦ rw (descend-found m table i there) (found-Descended tree table i k level there)
  | inr missing ↦ elim (request_page_cases m.allocator tree.sound) [
    | inl grant ↦
        rw (descend-made tree table i k level missing grant)
          (made-Descended tree table i k level missing grant)
    | inr halts ↦ rw (descend-halts m table i missing halts) refl
  ]
]
