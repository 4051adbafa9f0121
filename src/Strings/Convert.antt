-- ===== src/Strings/Convert.antt =====
-- The loop of `uitoa` that writes the digits from the lowest on.
use oke_os.Prelude.{
  ℕ, zero, suc, ◌+◌, ◌*◌, ◌/◌, ◌%◌, ◌^◌, ◌≤◌, ◌<◌, ◌≡◌, ◌∙◌, refl, sym, ap, true, false, inl, inr,
  Bool-cases, ==_ne, ==_refl, ◌==◌, some, arith,
}
use mathlib.Core.Path.{subst}
use native.Mathlib.Nat.{mod-add-div, pow-zero, pow-succ', mul-le-mul_left}
use oke_os.Strings.Digits.{halved}
use oke_os.MemLib.{Memory, poke}
use oke_os.Strings.{convert, digit_char}

-- The digits of a number, from the lowest on.
abbrev pub digit_at : ℕ → ℕ → ℕ → ℕ
digit_at base value zero = value % base
digit_at base value (suc j) = digit_at base (value / base) j

-- The number of so many digits.
abbrev pub number_of : ℕ → ℕ → (ℕ → ℕ) → ℕ
number_of base zero digit = 0
number_of base (suc n) digit = digit 0 + base * number_of base n (λ j. digit (suc j))

-- What the loop has written from `ptr` on: `n` digits, at least one, that are all of the number, and
-- no more than it needs.
pub record Converted (base value ptr n : ℕ) (m m' : Memory) : Type 0 where
  pub digits : (j : ℕ) → j < n → m' (ptr + j) ≡ digit_char (digit_at base value j)
  pub outside : (a : ℕ) → a < ptr → m' a ≡ m a
  pub above : (a : ℕ) → ptr + n ≤ a → m' a ≡ m a
  pub whole : number_of base n (digit_at base value) ≡ value
  pub needed : (k : ℕ) → n ≡ suc (suc k) → base ^ suc k ≤ value

last-Converted :
    (value base ptr : ℕ) (m : Memory)
    → (value / base == 0) ≡ true
    → Converted base value ptr 1 m (poke m ptr (digit_char (value % base)))
last-Converted value base ptr m last = record {
  digits = λ j l.
      let z : j ≡ 0 = omega arith in
      let here : (ptr == ptr + j) ≡ true = ground (arith, z) in rw (here, z) refl;
  outside = λ a l. let apart : (ptr == a) ≡ false = ==_ne ptr a (omega arith) in rw apart refl;
  above = λ a l. let apart : (ptr == a) ≡ false = ==_ne ptr a (omega arith) in rw apart refl;
  whole =
      let q : value / base ≡ 0 = ground arith in
      let d = mod-add-div value base in ap (λ v. value % base + base * v) (sym q) ∙ d;
  needed = λ k e. absurd (omega arith);
}

below_sum : (r : ℕ) {a b c : ℕ} → a ≤ b → r + b ≡ c → a ≤ c
below_sum r l e = omega arith

next-Converted :
    (value base ptr n : ℕ) (m m' : Memory)
    → 0 < value / base
    → Converted base (value / base) (ptr + 1) (suc n) (poke m ptr (digit_char (value % base))) m'
    → Converted base value ptr (suc (suc n)) m m'
next-Converted value base ptr n m m' more c = record {
  digits = digits;
  outside = λ a l.
      let apart : (ptr == a) ≡ false = ==_ne ptr a (omega arith) in
      c.outside a (omega arith) ∙ rw apart refl;
  above = λ a l.
      let apart : (ptr == a) ≡ false = ==_ne ptr a (omega arith) in
      c.above a (omega arith) ∙ rw apart refl;
  whole = ap (λ v. value % base + base * v) c.whole ∙ mod-add-div value base;
  needed = λ k e. subst (λ i. base ^ suc i ≤ value) (omega (arith, e)) (one_more n c.needed);
}
  where
    scaled : (q : ℕ) → q ≤ value / base → base * q ≤ value
    scaled q l = below_sum _ (mul-le-mul_left base l) (mod-add-div value base)

    one_more :
        (n : ℕ)
        → ((k : ℕ) → suc n ≡ suc (suc k) → base ^ suc k ≤ value / base)
        → base ^ suc n ≤ value
    one_more zero below =
        subst (λ x. x ≤ value) (sym (pow-succ' base 0))
          (scaled (base ^ 0) (omega (arith, pow-zero base, more)))
    one_more (suc k) below =
        subst (λ x. x ≤ value) (sym (pow-succ' base (suc k))) (scaled _ (below k refl))

    digits : (j : ℕ) → j < suc (suc n) → m' (ptr + j) ≡ digit_char (digit_at base value j)
    digits zero l =
        let p : ptr + 0 ≡ ptr = omega arith in
        ap m' p ∙ c.outside ptr (omega arith) ∙ rw (==_refl ptr) refl
    digits (suc j) l =
        let p : ptr + suc j ≡ ptr + 1 + j = omega arith in ap m' p ∙ c.digits j (omega arith)

-- `k + 1` binary digits are enough for the value, and for the number of digits.
pub convert-Converted :
    (f k value base ptr : ℕ) (m : Memory)
    → 2 ≤ base
    → k ≤ f
    → value < 2 ^ suc k
    → (n : ℕ) × (m' : Memory) × (convert (suc f) value base ptr m ≡ some (ptr + suc n, m'))
      × (n ≤ k)
      × Converted base value ptr (suc n) m m'
unfolding convert
convert-Converted f zero value base ptr m b l h =
    let none_left = halved 0 value base b h in
    let last : (value / base == 0) ≡ true = ground (arith, none_left) in
    let m' = poke m ptr (digit_char (value % base)) in
    (0, m', rw last refl, omega arith, last-Converted value base ptr m last)
convert-Converted zero (suc k) value base ptr m b l h = absurd (omega arith)
convert-Converted (suc f) (suc k) value base ptr m b l h = elim (Bool-cases (value / base == 0)) [
  | inl last ↦ (
    0,
    poke m ptr (digit_char (value % base)),
    rw last refl,
    omega arith,
    last-Converted value base ptr m last,
  )
  | inr more ↦
      let m₁ = poke m ptr (digit_char (value % base)) in
      let (n, m', e, short, c) =
        convert-Converted f k (value / base) base (ptr + 1) m₁ b (omega arith)
          (halved (suc k) value base b h) in
      let place : ptr + 1 + suc n ≡ ptr + suc (suc n) = omega arith in
      (
        suc n,
        m',
        rw (more, ← place) e,
        omega arith,
        next-Converted value base ptr n m m' (ground arith) c,
      )
]
