-- ===== src/Debug/Text.antt =====
-- The strings that stand in memory.
use oke_os.Prelude.{
  ◌⊎◌, ℕ, zero, suc, ◌+◌, ◌≤◌, ◌≡◌, ◌∙◌, refl, sym, ap, true, false, inl, inr, Bool-cases, Option,
  none, some, List, [], ◌∷◌, length, arith, ◌==◌,
}
use oke_os.MemLib.{Memory}
use oke_os.Debug.{c_string}

-- The first character of a string.
pub string_cases :
    (fuel a : ℕ) (m : Memory) {text : List ℕ}
    → c_string (suc fuel) a m ≡ some text
    → (((m a == 0) ≡ true) × (text ≡ []))
      ⊎ (((m a == 0) ≡ false)
          × (rest : List ℕ) × (c_string fuel (a + 1) m ≡ some rest)
          × (text ≡ m a ∷ rest))
unfolding c_string
string_cases fuel a m {text} e = elim (Bool-cases (m a == 0)) [
  | inl ends ↦ inl (ends, cc (rw ends at e))
  | inr goes ↦
      let (rest, later, more) = split (c_string fuel (a + 1) m) (rw goes at e) in
      inr (goes, rest, later, more)
]
  where
    split :
        (r : Option (List ℕ))
        → (elim r as (λ x. Option (List ℕ)) [ none ↦ none | some str ↦ some (m a ∷ str) ])
          ≡ some text
        → (rest : List ℕ) × (r ≡ some rest) × (text ≡ m a ∷ rest)
    split none q = absurd cc
    split (some str) q = (str, refl, cc)

-- A string is that of another memory with the same bytes up to its zero.
pub c_string-agrees :
    (fuel a : ℕ) (m m' : Memory) {text : List ℕ}
    → c_string fuel a m ≡ some text
    → ((j : ℕ) → j ≤ length text → m' (a + j) ≡ m (a + j))
    → c_string fuel a m' ≡ some text
unfolding c_string
c_string-agrees zero a m m' e same = absurd cc
c_string-agrees (suc fuel) a m m' {text} e same =
    let at : a + 0 ≡ a = omega arith in
    let first : m' a ≡ m a = ap m' (sym at) ∙ same 0 (omega arith) ∙ ap m at in
    elim (string_cases fuel a m e) [
      | inl (ends, empty) ↦ rw (empty, first, ends) refl
      | inr (goes, rest, later, more) ↦
          let longer : length text ≡ suc (length rest) = ap length more in
          let others = c_string-agrees fuel (a + 1) m m' later (λ j l.
            let next : a + 1 + j ≡ a + suc j = omega arith in
            ap m' next ∙ same (suc j) (omega (arith, longer)) ∙ ap m (sym next)) in
          rw (more, first, goes, others) (ap (λ c. some (c ∷ rest)) first)
    ]
