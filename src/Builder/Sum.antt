-- ===== src/Builder/Sum.antt =====
-- Strings in memory, their total length, and `fullSize`.
use oke_os.Prelude.{ℕ, zero, suc, ◌+◌, ◌^◌, ◌≤◌, ◌<◌, ◌≡◌, ◌≢◌, ap, some, arith, u64, u32}
use native.Mathlib.Nat.{le_refl}
use mathlib.Core.Path.{subst}
use oke_os.MemLib.{Memory, strlen}
use oke_os.MemLib.Compare.{strlen_lem}
use oke_os.Builder.{measure}

-- A string of `n` bytes at `a`, and its terminating zero.
pub record IsString (m : Memory) (a n : ℕ) : Type 0 where
  pub bytes : (j : ℕ) → j < n → m (a + j) ≢ 0
  pub ends : m (a + n) ≡ 0

-- The offset of the part `i`, where the parts stand one behind the other.
abbrev pub offset : (ℕ → ℕ) → ℕ → ℕ
offset len zero = 0
offset len (suc i) = offset len i + len i

offset_mono : (len : ℕ → ℕ) (i k : ℕ) → offset len i ≤ offset len (i + k)
offset_mono len i zero = let e : i + 0 ≡ i = omega arith in rw e (le_refl (offset len i))
offset_mono len i (suc k) =
    let e : i + suc k ≡ suc (i + k) = omega arith in rw e (omega (arith, offset_mono len i k))

-- The offset behind the part `i`.
pub offset_next :
    (len : ℕ → ℕ) (i rounds n : ℕ) → i + suc rounds ≡ n → offset len i + len i ≤ offset len n
offset_next len i rounds n e =
    let at : suc i + rounds ≡ n = omega arith in
    subst (λ k. offset len i + len i ≤ offset len k) at (offset_mono len (suc i) rounds)

pub strlen-IsString :
    (text n a : ℕ) {m : Memory}
    → IsString m a n
    → n < text
    → text ≤ 2 ^ 32
    → strlen text a m ≡ some n
strlen-IsString text n a {m} s l small = strlen_lem n text a m l (omega arith) s.bytes s.ends

module _ (text n : ℕ) (slots len : ℕ → ℕ) (m : Memory) (fits : text ≤ 2 ^ 31)
    (strings : (i : ℕ) → i < n → IsString m (slots i) (len i) × (len i < text)) where
  measure_from :
      (rounds i : ℕ)
      → i + rounds ≡ n
      → offset len n + n < 2 ^ 62
      → measure text rounds i (offset len i + i) slots m ≡ some (offset len n + n)
  unfolding measure
  measure_from zero i e small = ap (λ k. some (offset len k + k)) (omega arith)
  measure_from (suc rounds) i e small =
      let (string, short) = strings i (omega arith) in
      let room = offset_next len i rounds n e in
      let next : u64 (offset len i + i + u32 (len i + 1)) ≡ offset len (suc i) + suc i =
        omega arith in
      let plus : i + 1 ≡ suc i = omega arith in
      rw (measure, strlen-IsString text (len i) (slots i) string short (omega arith), next, plus)
        (measure_from rounds (suc i) (omega arith) small)

  -- `fullSize` counts a zero for each part.
  pub measure_lem : offset len n + n < 2 ^ 62 → measure text n 0 0 slots m ≡ some (offset len n + n)
  measure_lem small = measure_from n 0 (omega arith) small
