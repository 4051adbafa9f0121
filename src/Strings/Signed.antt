-- ===== src/Strings/Signed.antt =====
-- The text of `itoa`, with its sign.
use oke_os.Prelude.{
  ◌⊎◌, ℕ, ◌+◌, ◌-◌, ◌^◌, ◌≤◌, ◌<◌, ◌≡◌, ◌≢◌, ◌∙◌, refl, Bool, true, false, inl, inr, Bool-cases,
  ==_ne, ==_refl, ◌==◌, if◌then◌else◌, leb, ◌&&◌, ltb, ◌||◌, none, some, Option, arith,
}
use oke_os.MemLib.{Memory, poke}
use oke_os.Strings.{convert, invert, uitoa, itoa}
use oke_os.Strings.Read.{Printed, uitoa-Printed}

-- The absolute value of the `i64` with this bit pattern.
abbrev pub magnitude : ℕ → ℕ
magnitude value = if leb (2 ^ 63) value then 2 ^ 64 - value else value

-- The digits of the absolute value, with a minus sign in front of them for a negative number to the
-- base 10, and for no other.
abbrev pub PrintedSigned : ℕ → ℕ → ℕ → ℕ → Memory → Type 0
PrintedSigned base value str n m =
    ((2 ^ 63 ≤ value) × (base ≡ 10) × (m str ≡ b'-') × Printed base (2 ^ 64 - value) (str + 1) n m)
    ⊎ (((value < 2 ^ 63) ⊎ (base ≢ 10)) × Printed base (magnitude value) str n m)

itoa-uitoa :
    (fuel base value str : ℕ) (m : Memory)
    → 2 ≤ base
    → base ≤ 36
    → itoa fuel value str base m ≡ (
        if leb (2 ^ 63) value && base == 10
        then uitoa fuel (2 ^ 64 - value) (str + 1) base (poke m str 45)
        else uitoa fuel (magnitude value) str base m)
unfolding itoa uitoa
itoa-uitoa fuel base value str m low high =
    let good : (ltb base 2 || ltb 36 base) ≡ false = ground arith in
    rw good (go (leb (2 ^ 63) value) (base == 10))
  where
    digits : ℕ → ℕ → Memory → Option Memory
    digits size start m₀ = elim (convert fuel size base start m₀) [
      | none ↦ none
      | some (ptr, m') ↦ some (invert (ptr - start) start (ptr - 1) (poke m' ptr 0))
    ]

    go :
        (negative ten : Bool)
        → digits
            (if negative then 2 ^ 64 - value else value)
            (if negative && ten then str + 1 else str)
            (if negative && ten then poke m str 45 else m)
          ≡ (if negative && ten
              then digits (2 ^ 64 - value) (str + 1) (poke m str 45)
              else digits (if negative then 2 ^ 64 - value else value) str m)
    go true true = refl
    go true false = refl
    go false true = refl
    go false false = refl

-- `itoa` of a 64-bit value to a base from 2 to 36 returns, with fuel for 64 digits, and writes at
-- most 64 digits of the absolute value from the highest on and a zero behind them; put together, the
-- digits are that value, which for the lowest number is 2 ^ 63. In front of them it writes a minus
-- sign, for a negative number and the base 10 alone. No other byte changes.
pub itoa-Printed :
    (fuel base value str : ℕ) (m : Memory)
    → 64 ≤ fuel
    → 2 ≤ base
    → base ≤ 36
    → value < 2 ^ 64
    → (n : ℕ) × (m' : Memory) × (itoa fuel value str base m ≡ some m')
      × (n ≤ 64)
      × PrintedSigned base value str n m'
      × ((a : ℕ) → (a < str) ⊎ (str + n + 1 < a) → m' a ≡ m a)
itoa-Printed fuel base value str m enough low high small =
    let same = itoa-uitoa fuel base value str m low high in
    elim (Bool-cases (leb (2 ^ 63) value && base == 10)) [
      | inl signed ↦
          let (n, m', e, short, p, others) =
            uitoa-Printed fuel base (2 ^ 64 - value) (str + 1) (poke m str 45) enough low high
              (ground arith) in
          (
            n,
            m',
            same ∙ simp signed e,
            short,
            inl (
              ground arith,
              ground arith,
              others str (inl (omega arith)) ∙ simp (==_refl str) refl,
              p,
            ),
            λ a o.
                let apart : (str == a) ≡ false = ==_ne str a (ground (arith, o)) in
                others a (beside n a o) ∙ simp apart refl,
          )
      | inr unsigned ↦
          let (n, m', e, short, p, others) =
            uitoa-Printed fuel base (magnitude value) str m enough low high (ground arith) in
          (
            n,
            m',
            same ∙ simp unsigned e,
            short,
            inr (ground arith, p),
            λ a o. others a (farther n a o),
          )
    ]
  where
    beside : (n a : ℕ) → (a < str) ⊎ (str + n + 1 < a) → (a < str + 1) ⊎ (str + 1 + n < a)
    beside n a (inl l) = inl (omega arith)
    beside n a (inr l) = inr (omega arith)

    farther : (n a : ℕ) → (a < str) ⊎ (str + n + 1 < a) → (a < str) ⊎ (str + n < a)
    farther n a (inl l) = inl l
    farther n a (inr l) = inr (omega arith)
