-- ===== src/Strings/Read.antt =====
-- The text of `uitoa`, read back as a number.
use oke_os.Prelude.{
  ◌⊎◌, ℕ, zero, suc, ◌+◌, ◌-◌, ◌*◌, ◌^◌, ◌≤◌, ◌<◌, ◌≡◌, ◌∙◌, refl, sym, ap, true, false, inl, inr,
  Bool-cases, ==_ne, ==_refl, ◌==◌, if◌then◌else◌, leb, ◌&&◌, ltb, ◌||◌, some, arith,
}
use mathlib.Core.Path.{subst}
use native.Mathlib.Nat.{pow-le-pow_right}
use oke_os.MemLib.{Memory, poke}
use oke_os.Strings.{digit_char, invert, uitoa}
use oke_os.Strings.Convert.{digit_at, number_of, convert-Converted}

-- What the range `low` to `ptr` of the memory holds when it is turned round.
abbrev turned : ℕ → ℕ → Memory → Memory
turned low ptr m a = if leb low a && leb a ptr then m (low + ptr - a) else m a

turned-short : (low ptr : ℕ) (m : Memory) (a : ℕ) → ptr ≤ low → m a ≡ turned low ptr m a
turned-short low ptr m a h = elim (Bool-cases (leb low a && leb a ptr)) [
  | inl within ↦ let same : a ≡ low + ptr - a = ground arith in simp within (ap m same)
  | inr beyond ↦ simp beyond refl
]

-- The two ends are exchanged, and what is between them is turned round.
turned-swap :
    (low ptr : ℕ) (m : Memory) (a : ℕ)
    → low < ptr
    → turned (low + 1) (ptr - 1) (poke (poke m low (m ptr)) ptr (m low)) a ≡ turned low ptr m a
turned-swap low ptr m a l =
    let m' = poke (poke m low (m ptr)) ptr (m low) in
    let apart : (ptr == low) ≡ false = ==_ne ptr low (omega arith) in
    elim (Bool-cases (a == low)) [
      | inl first ↦
          let at : a ≡ low = ground arith in
          let inner : (leb (low + 1) a && leb a (ptr - 1)) ≡ false = ground arith in
          let outer : (leb low a && leb a ptr) ≡ true = ground arith in
          let other : low + ptr - a ≡ ptr = omega arith in
          simp (inner, outer) (ap m' at ∙ simp (apart, ==_refl low) refl ∙ ap m (sym other))
      | inr not_first ↦ elim (Bool-cases (a == ptr)) [
        | inl final ↦
            let at : a ≡ ptr = ground arith in
            let inner : (leb (low + 1) a && leb a (ptr - 1)) ≡ false = ground arith in
            let outer : (leb low a && leb a ptr) ≡ true = ground arith in
            let other : low + ptr - a ≡ low = omega arith in
            simp (inner, outer) (ap m' at ∙ simp (==_refl ptr) refl ∙ ap m (sym other))
        | inr not_final ↦ elim (Bool-cases (leb low a && leb a ptr)) [
          | inl within ↦
              let inner : (leb (low + 1) a && leb a (ptr - 1)) ≡ true = ground arith in
              let x : low + 1 + (ptr - 1) - a ≡ low + ptr - a = omega arith in
              let not_low : (low == low + ptr - a) ≡ false = ground arith in
              let not_ptr : (ptr == low + ptr - a) ≡ false = ground arith in
              simp (inner, within) (ap m' x ∙ simp (not_ptr, not_low) refl)
          | inr beyond ↦
              let inner : (leb (low + 1) a && leb a (ptr - 1)) ≡ false = ground arith in
              let not_low : (low == a) ≡ false = ground arith in
              let not_ptr : (ptr == a) ≡ false = ground arith in
              simp (inner, beyond, not_ptr, not_low) refl
        ]
      ]
    ]

-- The loop at the end turns the digits round.
invert-turned :
    (rounds low ptr : ℕ) (m : Memory) (a : ℕ)
    → ptr < low + 2 * rounds + 1
    → invert rounds low ptr m a ≡ turned low ptr m a
unfolding invert
invert-turned zero low ptr m a h = turned-short low ptr m a (omega arith)
invert-turned (suc rounds) low ptr m a h = elim (Bool-cases (ltb low ptr)) [
  | inl goes_on ↦
      let l : low < ptr = ground arith in
      let ih =
        invert-turned rounds (low + 1) (ptr - 1) (poke (poke m low (m ptr)) ptr (m low)) a
          (omega arith) in
      rw goes_on (ih ∙ turned-swap low ptr m a l)
  | inr ends ↦ let l : ptr ≤ low = ground arith in rw ends (turned-short low ptr m a l)
]

in_range : (low a high : ℕ) → low ≤ a → a ≤ high → (leb low a && leb a high) ≡ true
in_range low a high l h = ground arith

behind_range : (low a high : ℕ) → high < a → (leb low a && leb a high) ≡ false
behind_range low a high h = ground arith

-- The character of a digit: from `0` to `9` and then from `a` on.
abbrev pub IsDigit : ℕ → ℕ → Type 0
IsDigit d c = ((d < 10) × (c ≡ b'0' + d)) ⊎ ((10 ≤ d) × (c + 10 ≡ b'a' + d))

digit_char-IsDigit : (d : ℕ) {c : ℕ} → c ≡ digit_char d → IsDigit d c
unfolding digit_char
digit_char-IsDigit d e = ground arith

-- What `uitoa` leaves at `str`: the `n` digits from the highest on, of which the number is made up,
-- no more than it needs, and a zero behind them.
pub record Printed (base value str n : ℕ) (m : Memory) : Type 0 where
  pub some_digits : 0 < n
  pub digits : (j : ℕ) → j < n → IsDigit (digit_at base value (n - 1 - j)) (m (str + j))
  pub ends : m (str + n) ≡ 0
  pub whole : number_of base n (digit_at base value) ≡ value
  pub needed : 1 < n → base ^ (n - 1) ≤ value

-- A number below a power of its base has no more digits than the exponent.
pub digits_fit :
    (base value n k : ℕ)
    → 0 < base
    → 0 < k
    → (1 < n → base ^ (n - 1) ≤ value)
    → value < base ^ k
    → n ≤ k
digits_fit base value n k pos room needed small = elim (Bool-cases (leb n k)) [
  | inl fits ↦ ground arith
  | inr over ↦
      let longer : k < n = ground arith in
      let l : k ≤ n - 1 = omega arith in
      let power : base ^ k ≤ base ^ (n - 1) = pow-le-pow_right pos l in
      let least : base ^ (n - 1) ≤ value = needed (omega arith) in
      absurd (crossed power least small)
]
  where
    crossed : {a b c : ℕ} → a ≤ b → b ≤ c → c < a → ⊥
    crossed p q r = omega arith

enough_digits :
    (base value n : ℕ)
    → ((k : ℕ) → suc n ≡ suc (suc k) → base ^ suc k ≤ value)
    → 1 < suc n
    → base ^ (suc n - 1) ≤ value
enough_digits base value zero needed l = absurd (omega arith)
enough_digits base value (suc k) needed l =
    subst (λ i. base ^ i ≤ value) (omega arith) (needed k refl)

-- `uitoa` of a 64-bit value to a base from 2 to 36 returns, with fuel for 64 digits, and writes at
-- most 64 digits of the value from the highest on and a zero behind them; put together, the digits are
-- the value; no other byte changes.
pub uitoa-Printed :
    (fuel base value str : ℕ) (m : Memory)
    → 64 ≤ fuel
    → 2 ≤ base
    → base ≤ 36
    → value < 2 ^ 64
    → (n : ℕ) × (m' : Memory) × (uitoa fuel value str base m ≡ some m')
      × (n ≤ 64)
      × Printed base value str n m'
      × ((a : ℕ) → (a < str) ⊎ (str + n < a) → m' a ≡ m a)
unfolding uitoa
uitoa-Printed zero base value str m enough low high small = absurd (omega arith)
uitoa-Printed (suc fuel) base value str m enough low high small =
    let (n, m₁, e, short, c) = convert-Converted fuel 63 value base str m low (omega arith) small in
    let good : (ltb base 2 || ltb 36 base) ≡ false = ground arith in
    let ptr = str + suc n in
    let m' = invert (ptr - str) str (ptr - 1) (poke m₁ ptr 0) in
    let turn = λ (a : ℕ). invert-turned (ptr - str) str (ptr - 1) (poke m₁ ptr 0) a (omega arith) in
    (
      suc n,
      m',
      rw (good, e) refl,
      omega arith,
      record {
        some_digits = omega arith;
        digits = λ j l.
            let within : (leb str (str + j) && leb (str + j) (ptr - 1)) ≡ true =
              in_range str (str + j) (ptr - 1) (omega arith) (omega arith) in
            let mirror : str + (ptr - 1) - (str + j) ≡ str + (suc n - 1 - j) = omega arith in
            let before : (ptr == str + (suc n - 1 - j)) ≡ false =
              ==_ne ptr (str + (suc n - 1 - j)) (omega arith) in
            digit_char-IsDigit _ (
              turn (str + j)
              ∙ simp within (
                  ap (poke m₁ ptr 0) mirror
                  ∙ simp before (c.digits (suc n - 1 - j) (omega arith))));
        ends =
            let beyond : (leb str ptr && leb ptr (ptr - 1)) ≡ false =
              behind_range str ptr (ptr - 1) (omega arith) in
            turn ptr ∙ simp (beyond, ==_refl ptr) refl;
        whole = c.whole;
        needed = λ l. enough_digits base value n c.needed l;
      },
      λ a o. elim o [
        | inl below ↦
            let beyond : (leb str a && leb a (ptr - 1)) ≡ false = ground (arith, below) in
            let before : (ptr == a) ≡ false = ==_ne ptr a (omega arith) in
            turn a ∙ simp (beyond, before) (c.outside a below)
        | inr further ↦
            let beyond : (leb str a && leb a (ptr - 1)) ≡ false =
              behind_range str a (ptr - 1) (omega arith) in
            let before : (ptr == a) ≡ false = ==_ne ptr a (omega arith) in
            turn a ∙ simp (beyond, before) (c.above a (omega arith))
      ],
    )
