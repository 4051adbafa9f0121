-- ===== src/Strings/Digits.antt =====
-- The conversion of a number to digits ends.
use oke_os.Prelude.{
  ℕ, zero, suc, ◌+◌, ◌-◌, ◌/◌, ◌%◌, ◌^◌, ◌≤◌, ◌<◌, ◌≡◌, refl, true, inl, inr, Bool-cases, ◌==◌,
  if◌then◌else◌, leb, ◌&&◌, ltb, ◌||◌, some, arith,
}
use native.Mathlib.Nat.{div-lt_iff_lt-mul, mul-le-mul_left, pow-suc}
use oke_os.MemLib.{Memory, poke}
use oke_os.Strings.{convert, digit_char, invert, uitoa, itoa}

-- Division by a base takes off a binary digit at least.
pub halved : (f value base : ℕ) → 2 ≤ base → value < 2 ^ suc f → value / base < 2 ^ f
halved f value base b h =
    (div-lt_iff_lt-mul (omega arith)).1 (omega (arith, pow-suc 2 f, mul-le-mul_left (2 ^ f) b))

-- With as much fuel as the number has binary digits, and one at least, the loop ends, behind the
-- first digit.
convert-ends :
    (f value base ptr : ℕ) (m : Memory)
    → 2 ≤ base
    → value < 2 ^ suc f
    → (n : ℕ) × (m' : Memory) × (convert (suc f) value base ptr m ≡ some (ptr + suc n, m'))
      × (n ≤ f)
unfolding convert
convert-ends zero value base ptr m b h =
    let none_left = halved 0 value base b h in
    let last : (value / base == 0) ≡ true = ground (arith, none_left) in
    (0, poke m ptr (digit_char (value % base)), rw last refl, omega arith)
convert-ends (suc f) value base ptr m b h = elim (Bool-cases (value / base == 0)) [
  | inl last ↦ (0, poke m ptr (digit_char (value % base)), rw last refl, omega arith)
  | inr more ↦
      let (n, m', e, k) =
        convert-ends f (value / base) base (ptr + 1) (poke m ptr (digit_char (value % base))) b
          (halved (suc f) value base b h) in
      let place : ptr + 1 + suc n ≡ ptr + suc (suc n) = omega arith in
      (suc n, m', rw (more, ← place) e, omega arith)
]

uitoa-returns :
    (value str base : ℕ) (m : Memory)
    → value < 2 ^ 64
    → (m' : Memory) × (uitoa 64 value str base m ≡ some m')
unfolding uitoa
uitoa-returns value str base m h = elim (Bool-cases (ltb base 2 || ltb 36 base)) [
  | inl bad ↦ (poke m str 0, rw bad refl)
  | inr good ↦
      let (n, m', e, k) = convert-ends 63 value base str m (ground arith) h in
      (
        invert (str + suc n - str) str (str + suc n - 1) (poke m' (str + suc n) 0),
        rw (good, e) refl,
      )
]

itoa-returns :
    (value str base : ℕ) (m : Memory)
    → value < 2 ^ 64
    → (m' : Memory) × (itoa 64 value str base m ≡ some m')
unfolding itoa
itoa-returns value str base m h =
    let negative = leb (2 ^ 63) value in
    let signed = negative && base == 10 in
    let low = if signed then str + 1 else str in
    elim (Bool-cases (ltb base 2 || ltb 36 base)) [
      | inl bad ↦ (poke m str 0, rw bad refl)
      | inr good ↦
          let (n, m', e, k) =
            convert-ends 63 (if negative then 2 ^ 64 - value else value) base low
              (if signed then poke m str 45 else m) (ground arith) (ground arith) in
          (
            invert (low + suc n - low) low (low + suc n - 1) (poke m' (low + suc n) 0),
            rw (good, e) refl,
          )
    ]

-- For every 64-bit value and every base, 64 rounds are enough for `uitoa` and for `itoa` to
-- return.
pub uitoa-ends :
    (value str base : ℕ) (m : Memory)
    → value < 2 ^ 64
    → ((m' : Memory) × (uitoa 64 value str base m ≡ some m'))
      × ((m' : Memory) × (itoa 64 value str base m ≡ some m'))
uitoa-ends value str base m h = (uitoa-returns value str base m h, itoa-returns value str base m h)
