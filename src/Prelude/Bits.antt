-- ===== src/Prelude/Bits.antt =====
-- `&` and `|` at variables, as arithmetic: on the lowest digit, on two fields, with a low mask.
use Prim.Native.Nat.{
  ℕ, zero, suc, ◌+◌, ◌-◌, ◌*◌, ◌/◌, ◌%◌, ◌^◌, ◌≤◌, ◌<◌, min, max, digits, bitwise, bit_and, bit_or,
  bit_and-bitwise, bit_or-bitwise,
}
use mathlib.Core.Path.{◌≡◌, refl, ap}
use native.Mathlib.Nat.{pow-suc, le_refl, one-le-pow}
use native.Mathlib.Omega.{arith}

-- More fuel than the first number needs is not used.
module _ (at_zero : ℕ → ℕ) (on_digits : ℕ → ℕ → ℕ) where
  spare_fuel :
      (x y spare fuel : ℕ)
      → x ≤ fuel
      → digits at_zero on_digits (fuel + spare) x y ≡ digits at_zero on_digits fuel x y
  spare_fuel zero y zero fuel h = let e : fuel + 0 ≡ fuel = omega arith in rw e
  spare_fuel zero y (suc spare) zero h = let e : 0 + suc spare ≡ suc spare = omega arith in rw e
  spare_fuel zero y (suc spare) (suc fuel) h =
      let e : suc fuel + suc spare ≡ suc (fuel + suc spare) = omega arith in rw e
  spare_fuel (suc x) y spare zero h = absurd (omega arith)
  spare_fuel (suc x) y spare (suc fuel) h =
      let e : suc fuel + spare ≡ suc (fuel + spare) = omega arith in
      let next = spare_fuel (suc x / 2) (y / 2) spare fuel (omega arith) in
      rw e (ap (λ d. d * 2 + on_digits (suc x % 2) (y % 2)) next)

  first_digit :
      (x y : ℕ)
      → bitwise at_zero on_digits (suc x) y
        ≡ bitwise at_zero on_digits (suc x / 2) (y / 2) * 2 + on_digits (suc x % 2) (y % 2)
  first_digit x y =
      let half = suc x / 2 in
      let split : half + (x - half) ≡ x = omega arith in
      let used = spare_fuel half (y / 2) (x - half) half (omega arith) in
      ap (λ d. d * 2 + on_digits (suc x % 2) (y % 2)) (rw split at used)

pub bit_and_digit : (a b : ℕ) → bit_and a b ≡ bit_and (a / 2) (b / 2) * 2 + min (a % 2) (b % 2)
bit_and_digit zero b = simp bit_and-bitwise (omega arith)
bit_and_digit (suc a) b = simp bit_and-bitwise (first_digit (λ y. 0) min a b)

pub bit_or_digit : (a b : ℕ) → bit_or a b ≡ bit_or (a / 2) (b / 2) * 2 + max (a % 2) (b % 2)
bit_or_digit zero b = simp bit_or-bitwise (omega arith)
bit_or_digit (suc a) b = simp bit_or-bitwise (first_digit (λ y. y) max a b)

doubled : (q k : ℕ) → q * 2 ^ suc k ≡ 2 * (q * 2 ^ k)
doubled q k = omega (arith, ap (λ (t : ℕ). q * t) (pow-suc 2 k))

-- `&` works on the high and the low field of a word apart.
pub bit_and_split :
    (k a r b s : ℕ)
    → r < 2 ^ k
    → s < 2 ^ k
    → bit_and (a * 2 ^ k + r) (b * 2 ^ k + s) ≡ bit_and a b * 2 ^ k + bit_and r s
bit_and_split zero a r b s p q = ground arith
bit_and_split (suc k) a r b s p q = ground (
  arith,
  bit_and_digit (a * 2 ^ suc k + r) (b * 2 ^ suc k + s),
  bit_and_digit r s,
  doubled a k,
  doubled b k,
  doubled (bit_and a b) k,
  pow-suc 2 k,
  bit_and_split k a (r / 2) b (s / 2),
)

pub bit_or_split :
    (k a r b s : ℕ)
    → r < 2 ^ k
    → s < 2 ^ k
    → bit_or (a * 2 ^ k + r) (b * 2 ^ k + s) ≡ bit_or a b * 2 ^ k + bit_or r s
bit_or_split zero a r b s p q = ground arith
bit_or_split (suc k) a r b s p q = ground (
  arith,
  bit_or_digit (a * 2 ^ suc k + r) (b * 2 ^ suc k + s),
  bit_or_digit r s,
  doubled a k,
  doubled b k,
  doubled (bit_or a b) k,
  pow-suc 2 k,
  bit_or_split k a (r / 2) b (s / 2),
)

-- Both operations with the number 0 on the right, by halving the left one.
right_zero : (bound x : ℕ) → x ≤ bound → (bit_or x 0 ≡ x) × (bit_and x 0 ≡ 0)
right_zero bound zero h = (refl, refl)
right_zero zero (suc x) h = absurd (omega arith)
right_zero (suc bound) (suc x) h =
    let half = right_zero bound (suc x / 2) (omega arith) in
    (omega (arith, bit_or_digit (suc x) 0, half.0), omega (arith, bit_and_digit (suc x) 0, half.1))

pub bit_or-zero : (a : ℕ) → bit_or a 0 ≡ a
bit_or-zero a = (right_zero a a (le_refl a)).0

pub zero-bit_or : (a : ℕ) → bit_or 0 a ≡ a
zero-bit_or a = simp bit_or-bitwise

pub bit_and-zero : (a : ℕ) → bit_and a 0 ≡ 0
bit_and-zero a = (right_zero a a (le_refl a)).1

-- A mask of `k` ones keeps the low field and clears the high one.
pub bit_and_ones : (k r : ℕ) → r < 2 ^ k → bit_and r (2 ^ k - 1) ≡ r
bit_and_ones zero r h = ground (arith, bit_and-zero 0)
bit_and_ones (suc k) r h =
    ground
      (arith, bit_and_digit r (2 ^ suc k - 1), pow-suc 2 k, one-le-pow k 2, bit_and_ones k (r / 2))

pub bit_and_mask : (k a : ℕ) → bit_and a (2 ^ k - 1) ≡ a % 2 ^ k
bit_and_mask k a = ground (
  arith,
  one-le-pow k 2,
  bit_and_split k (a / 2 ^ k) (a % 2 ^ k) 0 (2 ^ k - 1),
  bit_and-zero (a / 2 ^ k),
  bit_and_ones k (a % 2 ^ k),
)

-- `|` of a shifted high field and a low field is a sum.
pub bit_or_fields : (k q r : ℕ) → r < 2 ^ k → bit_or (q * 2 ^ k) r ≡ q * 2 ^ k + r
bit_or_fields k q r h =
    ground (arith, one-le-pow k 2, bit_or_split k q 0 0 r, bit_or-zero q, zero-bit_or r)
