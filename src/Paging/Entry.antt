-- ===== src/Paging/Entry.antt =====
-- One page table entry: its flags and its address do not disturb one another.
use oke_os.Prelude.{
  ℕ, suc, ◌+◌, ◌-◌, ◌*◌, ◌/◌, ◌%◌, ◌^◌, ◌<◌, ◌≡◌, refl, Bool, bit_and, bit_or, arith, ◌==◌,
  if◌then◌else◌,
}
use oke_os.Prelude.Flags.{bit_and_bit, bit_or_bit, bit_and_hole}
use oke_os.Prelude.Bits.{
  bit_and_split, bit_or_split, bit_and_mask, bit_and-zero, bit_or-zero, bit_or_fields,
}
use native.Mathlib.Nat.{pow-suc, one-le-pow}
use oke_os.Paging.{PtFlag, present, bit, set_flag, get_flag, set_address, get_address}

get_flag_lem : (v : ℕ) (f : PtFlag) → get_flag v f ≡ ((v / 2 ^ bit f % 2) == 1)
unfolding get_flag
get_flag_lem v present = ground (arith, bit_and_bit 0 v)
get_flag_lem v f = ground (arith, bit_and_bit (bit f) v)

-- The value in which the bit `k` is replaced.
abbrev with_bit : ℕ → ℕ → ℕ → ℕ
with_bit v k b = v / 2 ^ suc k * 2 ^ suc k + b * 2 ^ k + v % 2 ^ suc k % 2 ^ k

-- Clearing with a mask, and setting with a selector, at any position.
masked :
    (k q m selector v : ℕ) (enabled : Bool)
    → v / 2 ^ suc k < 2 ^ q
    → m ≡ (2 ^ q - 1) * 2 ^ suc k + (2 ^ k - 1)
    → selector ≡ 2 ^ k
    → (if enabled then bit_or (bit_and v m) selector else bit_and v m)
      ≡ with_bit v k (if enabled then 1 else 0)
masked k q m selector v enabled h e e' = ground (
  arith,
  one-le-pow k 2,
  pow-suc 2 k,
  bit_and_hole k q (v / 2 ^ suc k) (v % 2 ^ suc k),
  bit_or_bit k (v / 2 ^ suc k) (v % 2 ^ suc k % 2 ^ k),
)

set_flag_lem :
    (v : ℕ) (f : PtFlag) (enabled : Bool)
    → v < 2 ^ 64
    → set_flag v f enabled ≡ with_bit v (bit f) (if enabled then 1 else 0)
unfolding set_flag
set_flag_lem v present enabled h = masked 0 63 _ _ v enabled (omega arith) refl refl
set_flag_lem v f enabled h = masked (bit f) (63 - bit f) _ _ v enabled (omega arith) refl refl

get_address_lem : (v : ℕ) → get_address v ≡ v / 2 ^ 12 % 2 ^ 40
unfolding get_address
get_address_lem v = ground (
  arith,
  bit_and_split 12 (v / 2 ^ 12) (v % 2 ^ 12) (2 ^ 40 - 1) 0,
  bit_and_mask 40 (v / 2 ^ 12),
  bit_and-zero (v % 2 ^ 12),
)

kept_lem : (v : ℕ) → v < 2 ^ 64 → bit_and v 0xfff0000000000fff ≡ v / 2 ^ 52 * 2 ^ 52 + v % 2 ^ 12
kept_lem v h = ground (
  arith,
  bit_and_split 12 (v / 2 ^ 12) (v % 2 ^ 12) (0xfff * 2 ^ 40) 0xfff,
  bit_and_mask 12 (v % 2 ^ 12),
  bit_and_split 40 (v / 2 ^ 52) (v / 2 ^ 12 % 2 ^ 40) 0xfff 0,
  bit_and_mask 12 (v / 2 ^ 52),
  bit_and-zero (v / 2 ^ 12 % 2 ^ 40),
)

set_address_lem :
    (v a : ℕ)
    → v < 2 ^ 64
    → set_address v a ≡ v / 2 ^ 52 * 2 ^ 52 + a % 2 ^ 40 * 2 ^ 12 + v % 2 ^ 12
unfolding set_address
set_address_lem v a h = ground (
  arith,
  bit_and_mask 40 a,
  kept_lem v h,
  bit_or_split 12 (v / 2 ^ 52 * 2 ^ 40) (v % 2 ^ 12) (a % 2 ^ 40) 0,
  bit_or-zero (v % 2 ^ 12),
  bit_or_fields 40 (v / 2 ^ 52) (a % 2 ^ 40),
)

-- Entries stay 64-bit words.
pub set_flag-lt : (v : ℕ) (f : PtFlag) (enabled : Bool) → v < 2 ^ 64 → set_flag v f enabled < 2 ^ 64
set_flag-lt v present enabled h = ground (arith, set_flag_lem v present enabled)
set_flag-lt v f enabled h = ground (arith, set_flag_lem v f enabled)

pub set_address-lt : (v a : ℕ) → v < 2 ^ 64 → set_address v a < 2 ^ 64
set_address-lt v a h = omega (arith, set_address_lem v a h)

-- `SetFlag` changes the one flag.
pub get_flag-set_flag :
    (v : ℕ) (f g : PtFlag) (enabled : Bool)
    → v < 2 ^ 64
    → get_flag (set_flag v f enabled) g ≡ (if bit f == bit g then enabled else get_flag v g)
get_flag-set_flag v present present enabled h =
    ground
      (arith, get_flag_lem (set_flag v present enabled) present, set_flag_lem v present enabled)
get_flag-set_flag v f g enabled h =
    ground
      (arith, get_flag_lem v g, get_flag_lem (set_flag v f enabled) g, set_flag_lem v f enabled)

-- `SetFlag` leaves the address as it was.
pub get_address-set_flag :
    (v : ℕ) (f : PtFlag) (enabled : Bool)
    → v < 2 ^ 64
    → get_address (set_flag v f enabled) ≡ get_address v
get_address-set_flag v present enabled h = ground (
  arith,
  get_address_lem v,
  get_address_lem (set_flag v present enabled),
  set_flag_lem v present enabled,
)
get_address-set_flag v f enabled h =
    ground
      (arith, get_address_lem v, get_address_lem (set_flag v f enabled), set_flag_lem v f enabled)

-- `GetAddress` reads back what `SetAddress` has stored, which is 40 bits of it.
pub get_address-set_address : (v a : ℕ) → v < 2 ^ 64 → get_address (set_address v a) ≡ a % 2 ^ 40
get_address-set_address v a h =
    omega (arith, get_address_lem (set_address v a), set_address_lem v a h)

-- `SetAddress` leaves every flag as it was.
pub get_flag-set_address :
    (v a : ℕ) (f : PtFlag) → v < 2 ^ 64 → get_flag (set_address v a) f ≡ get_flag v f
get_flag-set_address v a present h =
    ground
      (arith, get_flag_lem v present, get_flag_lem (set_address v a) present, set_address_lem v a)
get_flag-set_address v a f h =
    ground (arith, get_flag_lem v f, get_flag_lem (set_address v a) f, set_address_lem v a)
