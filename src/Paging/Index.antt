-- ===== src/Paging/Index.antt =====
-- The four indices of a virtual address.
use oke_os.Prelude.{ℕ, ◌+◌, ◌*◌, ◌/◌, ◌%◌, ◌^◌, ◌<◌, ◌≡◌, arith}
use oke_os.Prelude.Bits.{bit_and_mask}
use oke_os.Paging.{indexer_from}

-- The indices are within a table, and together they are the number of the page within the 48 bits
-- that the four levels translate.
pub indexer_from_lem :
    (addr : ℕ)
    → let i = indexer_from addr in
      (i.pdp_i < 512)
      × (i.pd_i < 512)
      × (i.pt_i < 512)
      × (i.p_i < 512)
      × (((i.pdp_i * 512 + i.pd_i) * 512 + i.pt_i) * 512 + i.p_i ≡ addr % 2 ^ 48 / 4096)
unfolding indexer_from
indexer_from_lem addr =
    let a = bit_and_mask 9 (addr / 2 ^ 12) in
    let b = bit_and_mask 9 (addr / 2 ^ 12 / 2 ^ 9) in
    let c = bit_and_mask 9 (addr / 2 ^ 12 / 2 ^ 9 / 2 ^ 9) in
    let d = bit_and_mask 9 (addr / 2 ^ 12 / 2 ^ 9 / 2 ^ 9 / 2 ^ 9) in ground (arith, a, b, c, d)

-- Each index is the group of nine bits at its place.
pub indexer_from_split :
    (addr : ℕ)
    → let i = indexer_from addr in
      (i.pdp_i ≡ addr / 2 ^ 39 % 512)
      × (i.pd_i ≡ addr / 2 ^ 30 % 512)
      × (i.pt_i ≡ addr / 2 ^ 21 % 512)
      × (i.p_i ≡ addr / 2 ^ 12 % 512)
unfolding indexer_from
indexer_from_split addr =
    let a = bit_and_mask 9 (addr / 2 ^ 12) in
    let b = bit_and_mask 9 (addr / 2 ^ 12 / 2 ^ 9) in
    let c = bit_and_mask 9 (addr / 2 ^ 12 / 2 ^ 9 / 2 ^ 9) in
    let d = bit_and_mask 9 (addr / 2 ^ 12 / 2 ^ 9 / 2 ^ 9 / 2 ^ 9) in
    (omega (arith, d), omega (arith, c), omega (arith, b), omega (arith, a))
