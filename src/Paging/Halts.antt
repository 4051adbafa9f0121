-- ===== src/Paging/Halts.antt =====
-- The panics of a mapping.
use oke_os.Prelude.{
  ◌⊎◌, inl, inr, ℕ, zero, suc, ◌+◌, ◌≡◌, refl, Bool, true, false, if◌then◌else◌, u64, ◌<<<◌, ltb,
  ◌&&◌,
}
use oke_os.Bitmap
use oke_os.PageFrame.{
  Pfa, Outcome, Panic, done, panicked, out_of_memory, mapping_failure, scan, request_page,
}
use oke_os.Paging.{
  Machine, get_flag, get_address, present, clear_table, write_entry, point_to, descend, map_page,
  map_memory, indexer_from, ◌>>=◌,
}

-- A result, or a panic for want of memory or for an entry that is not present.
pub data Mapping {A : Type 0} : Outcome A → Type 0 where
  goes_on : (a : A) → Mapping (done a)
  stops : (p : Panic) → (p ≡ out_of_memory) ⊎ (p ≡ mapping_failure) → Mapping (panicked p)

Mapping-bind :
    {A B : Type 0} (r : Outcome A) (f : A → Outcome B)
    → Mapping r
    → ((a : A) → Mapping (f a))
    → Mapping (r >>= f)
Mapping-bind (done a) f (goes_on _) g = g a
Mapping-bind (panicked p) f (stops _ e) g = stops p e

Mapping-if :
    {A : Type 0} (b : Bool) {x y : Outcome A} → Mapping x → Mapping y → Mapping (if b then x else y)
Mapping-if true p q = p
Mapping-if false p q = q

scan-Mapping : (n : ℕ) (s : Pfa) → Mapping (scan n s)
unfolding scan
scan-Mapping zero s = stops out_of_memory (inl refl)
scan-Mapping (suc n) s =
    Mapping-if (Bitmap.get s.bitmap s.bitmap_idx)
      (scan-Mapping n (record s { bitmap_idx = s.bitmap_idx + 1 })) (goes_on _)

request_page-Mapping : (s : Pfa) → Mapping (request_page s)
unfolding request_page
request_page-Mapping s =
    Mapping-if (s.oom_panics && ltb s.free_memory 16384) (stops out_of_memory (inl refl))
      (scan-Mapping _ s)

descend-Mapping : (table i : ℕ) (m : Machine) → Mapping (descend table i m)
unfolding descend
descend-Mapping table i m =
    flagged (get_flag (m.tables table i) present) (request_page m.allocator)
      (request_page-Mapping m.allocator)
  where
    made : ℕ × Pfa → Outcome (ℕ × Machine)
    made (page, allocator') =
        let cleared = clear_table m.tables page in
        let tables' = write_entry cleared table i (point_to (m.tables table i) page) in
        if get_flag (tables' table i) present
        then done (page, record { allocator = allocator'; tables = tables' })
        else panicked mapping_failure

    flagged :
        (b : Bool) (r : Outcome (ℕ × Pfa))
        → Mapping r
        → Mapping (elim b as (λ x. Outcome (ℕ × Machine)) [
          | true ↦ done (u64 (get_address (m.tables table i) <<< 12), m)
          | false ↦ elim r as (λ x. Outcome (ℕ × Machine)) [
            | panicked p ↦ panicked p
            | done x ↦ made x
          ]
        ])
    flagged true r h = goes_on _
    flagged false (done (page, allocator')) (goes_on _) =
        Mapping-if _ (goes_on _) (stops mapping_failure (inr refl))
    flagged false (panicked p) (stops _ e) = stops p e

map_page-Mapping : (table i phys : ℕ) (m : Machine) → Mapping (map_page table i phys m)
unfolding map_page
map_page-Mapping table i phys m = Mapping-if _ (goes_on _) (stops mapping_failure (inr refl))

pub map_memory-Mapping : (pml4 virt phys : ℕ) (m : Machine) → Mapping (map_memory pml4 virt phys m)
unfolding map_memory
map_memory-Mapping pml4 virt phys m =
    let i = indexer_from virt in
    Mapping-bind (descend pml4 i.pdp_i m) _ (descend-Mapping pml4 i.pdp_i m) λ (t, m₁).
      Mapping-bind (descend t i.pd_i m₁) _ (descend-Mapping t i.pd_i m₁) λ (t', m₂).
        Mapping-bind (descend t' i.pt_i m₂) _ (descend-Mapping t' i.pt_i m₂)
          λ (t'', m₃). map_page-Mapping t'' i.p_i phys m₃
