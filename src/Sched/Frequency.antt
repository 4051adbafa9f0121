-- ===== src/Sched/Frequency.antt =====
-- Programming the divisor of the timer.
use oke_os.Prelude.{
  ℕ, ◌+◌, ◌*◌, ◌/◌, ◌%◌, ◌^◌, ◌<◌, ◌≡◌, refl, bit_and, List, [], ◌∷◌, arith, ltb, if◌then◌else◌,
}
use oke_os.Prelude.Bits.{bit_and_mask, bit_and_split, bit_and-zero}
use oke_os.Ports.{Outb}
use oke_os.Sched.{Pit, set_divisor}

-- What the chip makes of two writes to its data port: the low byte, then the high byte.
abbrev pub latched : List Outb → ℕ
latched (low ∷ high ∷ []) = low.value + high.value * 2 ^ 8
latched _ = 0

high_byte : (d : ℕ) → d < 2 ^ 16 → bit_and d 0xff00 ≡ d / 2 ^ 8 * 2 ^ 8
high_byte d h = ground (
  arith,
  bit_and_split 8 (d / 2 ^ 8) (d % 2 ^ 8) 0xff 0,
  bit_and_mask 8 (d / 2 ^ 8),
  bit_and-zero (d % 2 ^ 8),
)

-- The chip gets the divisor that the kernel stores, which is the argument or 100, if that is more.
pub set_divisor_lem :
    (d : ℕ) (s : Pit)
    → d < 2 ^ 16
    → (latched (set_divisor d s).1 ≡ ((set_divisor d s).0).divisor)
      × (((set_divisor d s).0).divisor ≡ (if ltb d 100 then 100 else d))
      × (((set_divisor d s).0).time_since_boot_ns ≡ s.time_since_boot_ns)
unfolding set_divisor
set_divisor_lem d s h = (
  ground (arith, bit_and_mask 8 d, bit_and_mask 8 100, high_byte d h, high_byte 100 (omega arith)),
  refl,
  refl,
)
