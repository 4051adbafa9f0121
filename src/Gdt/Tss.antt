-- ===== src/Gdt/Tss.antt =====
-- The descriptor of the task state segment, and what of it reaches the table.
use oke_os.Prelude.{ℕ, ◌+◌, ◌*◌, ◌/◌, ◌%◌, ◌^◌, ◌<◌, ◌≡◌, refl, ◌∙◌, arith}
use oke_os.Prelude.Bits.{bit_and_mask}
use oke_os.Gdt.{TssDescriptor, GdtEntry, Gdt, tss_entry, first_half, gdt_init}

-- The address and the limit in a descriptor, as the processor puts them together.
abbrev pub base_of : TssDescriptor → ℕ
base_of d = d.base_low + d.base_mid * 2 ^ 16 + d.base_high * 2 ^ 24 + d.base_upper * 2 ^ 32

abbrev pub entry_base : GdtEntry → ℕ
entry_base e = e.base0 + e.base1 * 2 ^ 16 + e.base2 * 2 ^ 24

abbrev pub entry_limit : GdtEntry → ℕ
entry_limit e = e.limit0 + e.limit1_flags % 2 ^ 4 * 2 ^ 16

masks :
    (base : ℕ)
    → (base_of (tss_entry base 104) ≡ base % 2 ^ 64)
      × (entry_base (first_half (tss_entry base 104)) ≡ base % 2 ^ 32)
unfolding tss_entry first_half
masks base =
    let a = bit_and_mask 16 base in
    let b = bit_and_mask 8 (base / 2 ^ 16) in
    let c = bit_and_mask 8 (base / 2 ^ 24) in
    let d = bit_and_mask 32 (base / 2 ^ 32) in
    (ground (arith, a, b, c, d), ground (arith, a, b, c, d))

-- The descriptor that `gdt_init` builds holds the address of the task state segment; the entry
-- that it stores in the table holds the low 32 bits of it, with the limit 104, present, and of the
-- type of an available task state segment.
pub gdt_init_lem :
    (tss_address gdt_address : ℕ) (gdt : Gdt)
    → tss_address < 2 ^ 64
    → let e = (gdt_init tss_address gdt_address gdt).0.tss in
      (base_of (tss_entry tss_address 104) ≡ tss_address)
      × (entry_base e ≡ tss_address % 2 ^ 32)
      × (entry_limit e ≡ 104)
      × (e.access_byte ≡ 0x89)
unfolding gdt_init first_half tss_entry
gdt_init_lem tss_address gdt_address gdt h =
    ((masks tss_address).0 ∙ omega arith, (masks tss_address).1, refl, refl)
