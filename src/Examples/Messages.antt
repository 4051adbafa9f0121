-- ===== src/Examples/Messages.antt =====
-- Concrete runs for `FastStringBuilder` of kernel/lib/string.cpp.
use oke_os.Prelude.{ℕ, ◌+◌, ◌*◌, ◌%◌, ◌<◌, ◌≡◌, some, ◌&&◌, arith, ltb, ◌==◌, if◌then◌else◌, inl}
use oke_os.MemLib.{Memory}
use oke_os.Builder.{measure, join}
use oke_os.Builder.Sum.{IsString}
use oke_os.Builder.Join.{Joined, measure-join}

-- A letter at each odd address below 64, and zeros.
abbrev letters : Memory
letters a = if a % 2 == 1 && ltb a 64 then 65 else 0

letter-IsString : (a : ℕ) → a % 2 ≡ 1 → a < 64 → IsString letters a 1
letter-IsString a odd low = record { bytes = λ j l. ground arith; ends = ground arith }

-- Two letters, at the addresses 1 and 3, and a buffer at 100.
measure-join_example :
    (measure 16 2 0 0 (λ i. i * 2 + 1) letters ≡ some 4)
    × (m' : Memory) × (join 16 2 0 0 100 (λ i. i * 2 + 1) letters ≡ some m')
    × Joined 100 2 (λ i. i * 2 + 1) (λ i. 1) 0 letters m'
measure-join_example =
    measure-join 16 100 2 (λ i. i * 2 + 1) (λ i. 1) letters (omega arith) (omega arith)
      (λ j l k.
        (letter-IsString (j * 2 + 1) (omega arith) (omega arith), omega arith, inl (omega arith)))
