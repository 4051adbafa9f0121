-- ===== src/Acpi/Checksum.antt =====
-- The checksum as a sum.
use oke_os.Prelude.{ℕ, zero, suc, ◌+◌, ◌%◌, ◌≡◌, refl, ap, arith, ◌==◌, u8}
use oke_os.MemLib.{Memory}
use oke_os.Acpi.{read32, checksum_loop, do_checksum}

-- The sum of the `n` bytes from `a` on.
abbrev pub sum_bytes : ℕ → ℕ → Memory → ℕ
sum_bytes zero a m = 0
sum_bytes (suc n) a m = m a + sum_bytes n (a + 1) m

checksum_loop_lem :
    (rounds i header sum : ℕ) (m : Memory)
    → sum % 256 ≡ sum
    → checksum_loop rounds i header sum m ≡ (sum + sum_bytes rounds (header + i) m) % 256
unfolding checksum_loop
checksum_loop_lem zero i header sum m h = omega arith
checksum_loop_lem (suc rounds) i header sum m h =
    let next : header + i + 1 ≡ header + (i + 1) = omega arith in
    rw next (
      omega (
        arith,
        checksum_loop_lem rounds (i + 1) header (u8 (sum + m (header + i))) m (omega arith),
      ))

-- The checksum is right exactly when the bytes of the table, as many as its length says, add up to
-- a multiple of 256.
pub do_checksum_lem :
    (header : ℕ) (m : Memory)
    → do_checksum header m ≡ ((sum_bytes (read32 m (header + 4)) header m % 256) == 0)
unfolding do_checksum
do_checksum_lem header m =
    let here : header + 0 ≡ header = omega arith in
    let none : 0 + sum_bytes (read32 m (header + 4)) header m
        ≡ sum_bytes (read32 m (header + 4)) header m =
      omega arith in
    let total = checksum_loop_lem (read32 m (header + 4)) 0 header 0 m refl in
    ap (λ x. x == 0) (rw (here, none) at total)
