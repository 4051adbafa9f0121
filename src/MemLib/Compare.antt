-- ===== src/MemLib/Compare.antt =====
-- Comparing memory, and the length of a string.
use oke_os.Prelude.{
  ℕ, zero, suc, ◌+◌, ◌^◌, ◌<◌, ◌≡◌, ap, ◌∙◌, ◌≢◌, inl, inr, some, arith, ltb, ◌==◌, Bool-cases,
}
use oke_os.MemLib.{Memory, Sign, minus_one, nought, one, compare_up, memcmp, strlen_loop, strlen}

-- What a comparison reports: the ranges agree, or they agree up to a first difference `k`, whose
-- bytes are ordered as the sign says.
pub data Compared (s1 s2 n : ℕ) (m : Memory) : Sign → Type 0 where
  agree : ((j : ℕ) → j < n → m (s1 + j) ≡ m (s2 + j)) → Compared s1 s2 n m nought
  less :
      (k : ℕ)
      → k < n
      → ((j : ℕ) → j < k → m (s1 + j) ≡ m (s2 + j))
      → m (s1 + k) < m (s2 + k)
      → Compared s1 s2 n m minus_one
  greater :
      (k : ℕ)
      → k < n
      → ((j : ℕ) → j < k → m (s1 + j) ≡ m (s2 + j))
      → m (s2 + k) < m (s1 + k)
      → Compared s1 s2 n m one

compare_up_lem :
    (rounds i s1 s2 n : ℕ) (m : Memory)
    → i + rounds ≡ n
    → ((j : ℕ) → j < i → m (s1 + j) ≡ m (s2 + j))
    → Compared s1 s2 n m (compare_up rounds i s1 s2 m)
unfolding compare_up
compare_up_lem zero i s1 s2 n m e same = agree (λ j h. same j (omega arith))
compare_up_lem (suc rounds) i s1 s2 n m e same = elim (Bool-cases (m (s1 + i) == m (s2 + i))) [
  | inl eq ↦ rw eq (
      compare_up_lem rounds (i + 1) s1 s2 n m (omega arith) (λ j h. elim (Bool-cases (j == i)) [
        | inl here ↦ ground arith
        | inr before ↦ same j (ground arith)
      ]))
  | inr ne ↦ elim (Bool-cases (ltb (m (s1 + i)) (m (s2 + i)))) [
    | inl lt ↦ rw (ne, lt) (less i (omega arith) same (ground arith))
    | inr ge ↦ rw (ne, ge) (greater i (omega arith) same (ground arith))
  ]
]

-- `memcmp` finds the first difference of the two ranges, and reports which byte is larger.
pub memcmp-Compared : (s1 s2 n : ℕ) (m : Memory) → Compared s1 s2 n m (memcmp s1 s2 n m)
unfolding memcmp
memcmp-Compared s1 s2 n m = compare_up_lem n 0 s1 s2 n m (omega arith) (λ j h. absurd (omega arith))

strlen_loop_lem :
    (n fuel i str : ℕ) (m : Memory)
    → n < fuel
    → i + n < 2 ^ 32
    → ((j : ℕ) → j < n → m (str + j) ≢ 0)
    → m (str + n) ≡ 0
    → strlen_loop fuel i str m ≡ some (i + n)
unfolding strlen_loop
strlen_loop_lem n zero i str m h l nz z = absurd (omega arith)
strlen_loop_lem zero (suc fuel) i str m h l nz z =
    let here : str + 0 ≡ str = omega arith in ground (arith, ap m here)
strlen_loop_lem (suc n) (suc fuel) i str m h l nz z =
    let nz' : (j : ℕ) → j < n → m (str + 1 + j) ≢ 0 = λ j k.
      let next : str + 1 + j ≡ str + suc j = omega arith in rw next (nz (suc j) (omega arith)) in
    let z' : m (str + 1 + n) ≡ 0 =
      let next : str + 1 + n ≡ str + suc n = omega arith in rw next z in
    let first : m (str + 0) ≢ 0 = nz 0 (omega arith) in
    let here : str + 0 ≡ str = omega arith in
    ground (
      arith,
      first,
      ap m here,
      strlen_loop_lem n fuel (i + 1) (str + 1) m (omega arith) (omega arith) nz' z',
    )

-- For a string of fewer than 2 ^ 32 bytes, `strlen` ends, with a round for each byte and the zero, and
-- returns the offset of its zero byte.
pub strlen_lem :
    (n fuel str : ℕ) (m : Memory)
    → n < fuel
    → n < 2 ^ 32
    → ((j : ℕ) → j < n → m (str + j) ≢ 0)
    → m (str + n) ≡ 0
    → strlen fuel str m ≡ some n
unfolding strlen
strlen_lem n fuel str m l h nz z =
    let e : 0 + n ≡ n = omega arith in
    strlen_loop_lem n fuel 0 str m l (omega arith) nz z ∙ ap some e
