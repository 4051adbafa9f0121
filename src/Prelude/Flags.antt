-- ===== src/Prelude/Flags.antt =====
-- One bit of a word: testing it, clearing it and setting it, as arithmetic.
use oke_os.Prelude.{ℕ, suc, ◌+◌, ◌-◌, ◌*◌, ◌/◌, ◌%◌, ◌^◌, ◌<◌, ◌≡◌, refl, arith, bit_and, bit_or}
use oke_os.Prelude.Bits.{
  bit_and_split, bit_or_split, bit_and_mask, bit_and-zero, bit_or-zero, zero-bit_or,
}
use native.Mathlib.Nat.{pow-suc, one-le-pow, mod-eq_of_lt}

pub bit_and_bit : (k v : ℕ) → bit_and v (2 ^ k) ≡ v / 2 ^ k % 2 * 2 ^ k
bit_and_bit k v = ground (
  arith,
  one-le-pow k 2,
  bit_and_split k (v / 2 ^ k) (v % 2 ^ k) 1 0,
  bit_and_mask 1 (v / 2 ^ k),
  bit_and-zero (v % 2 ^ k),
)

pub bit_or_bit :
    (k a r : ℕ) → r < 2 ^ k → bit_or (a * 2 ^ suc k + r) (2 ^ k) ≡ a * 2 ^ suc k + 2 ^ k + r
bit_or_bit k a r h = ground (
  arith,
  one-le-pow k 2,
  pow-suc 2 k,
  bit_or_split (suc k) a r 0 (2 ^ k),
  bit_or-zero a,
  bit_or_split k 0 r 1 0,
  zero-bit_or 1,
  bit_or-zero r,
)

-- A mask of ones with a hole at bit `k`, below `suc k + q` bits in all.
pub bit_and_hole :
    (k q a t : ℕ)
    → a < 2 ^ q
    → t < 2 ^ suc k
    → bit_and (a * 2 ^ suc k + t) ((2 ^ q - 1) * 2 ^ suc k + (2 ^ k - 1))
      ≡ a * 2 ^ suc k + t % 2 ^ k
bit_and_hole k q a t h l =
    let mask : 2 ^ k - 1 < 2 ^ suc k = omega (arith, pow-suc 2 k, one-le-pow k 2) in
    rw
      (
        bit_and_split (suc k) a t (2 ^ q - 1) (2 ^ k - 1) l mask,
        bit_and_mask q a,
        bit_and_mask k t,
        mod-eq_of_lt h,
      )
      refl
