-- ===== src/MemoryMap/Sizes.antt =====
-- What the sizes computed from a memory map mean, and the two address translations.
use oke_os.Prelude.{
  ℕ, ◌+◌, ◌≤◌, ◌<◌, ◌^◌, ◌≡◌, refl, ◌⊎◌, inl, inr, List, [], ◌∷◌, All, arith, ltb, Bool-cases, u64,
  if◌then◌else◌,
}
use oke_os.MemoryMap.{MemmapEntry, Fits, areal_size_loop, areal_size, to_phys, to_virt}

-- An end that some entry reaches, or 0.
abbrev pub Reached : ℕ → List MemmapEntry → Type 0
Reached n [] = n ≡ 0
Reached n (e ∷ es) = (n ≡ e.base + e.length) ⊎ Reached n es

areal_size_loop-above :
    (es : List MemmapEntry) (size : ℕ)
    → All Fits es
    → (size ≤ areal_size_loop es size) × All (λ e. e.base + e.length ≤ areal_size_loop es size) es
unfolding areal_size_loop
areal_size_loop-above [] size fits = (omega arith, tt)
areal_size_loop-above (e ∷ es) size fits =
    let end = u64 (e.base + e.length) in
    let ih = areal_size_loop-above es (if ltb size end then end else size) fits.1 in
    (ground (arith, ih.0, fits.0), (ground (arith, ih.0, fits.0), ih.1))

areal_size_loop-Reached :
    (es : List MemmapEntry) (size : ℕ)
    → All Fits es
    → (areal_size_loop es size ≡ size) ⊎ Reached (areal_size_loop es size) es
unfolding areal_size_loop
areal_size_loop-Reached [] size fits = inl refl
areal_size_loop-Reached (e ∷ es) size fits =
    let end = u64 (e.base + e.length) in
    let next = if ltb size end then end else size in
    elim (areal_size_loop-Reached es next fits.1) [
      | inl same ↦ elim (Bool-cases (ltb size end)) [
        | inl larger ↦ inr (inl (ground (arith, fits.0, same)))
        | inr smaller ↦ inl (ground (arith, same))
      ]
      | inr further ↦ inr (inr further)
    ]

-- `getMemoryArealSize` is the largest end of an entry: no entry ends above it, and some entry
-- ends there, unless it is 0.
pub areal_size_largest :
    (es : List MemmapEntry)
    → All Fits es
    → All (λ e. e.base + e.length ≤ areal_size es) es
      × ((areal_size es ≡ 0) ⊎ Reached (areal_size es) es)
unfolding areal_size
areal_size_largest es fits =
    ((areal_size_loop-above es 0 fits).1, areal_size_loop-Reached es 0 fits)

-- The two translations undo one another.
pub to_phys-to_virt : (hhdm addr : ℕ) → addr < 2 ^ 64 → to_phys hhdm (to_virt hhdm addr) ≡ addr
unfolding to_phys to_virt
to_phys-to_virt hhdm addr h = omega arith

pub to_virt-to_phys : (hhdm addr : ℕ) → addr < 2 ^ 64 → to_virt hhdm (to_phys hhdm addr) ≡ addr
unfolding to_phys to_virt
to_virt-to_phys hhdm addr h = omega arith
