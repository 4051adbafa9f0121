-- ===== src/Sched.antt =====
-- kernel/sched/pit.cpp and timer.h: the programmable interval timer and the stopwatch on it. The
-- globals of the namespace `PIT` are the fields of `Pit`; an `outb` is a value written to a port.
pub mod Sleep
pub mod Frequency
use oke_os.Prelude.{
  ℕ, zero, suc, ◌+◌, ◌*◌, ◌/◌, ◌%◌, ◌^◌, bit_and, Bool, Option, none, some, List, [], ◌∷◌, ltb,
  if◌then◌else◌, u8, u16, u64, sub64, ◌>>>◌,
}
use oke_os.Ports.{Outb}

pub record Pit : Type 0 where
  pub time_since_boot_ns : ℕ
  pub divisor : ℕ

abbrev pub base_frequency : ℕ
base_frequency = 1193182

unfoldable pub get_frequency : Pit → ℕ
get_frequency s = base_frequency / s.divisor

unfoldable pub tick : Pit → Pit
unfolding get_frequency
tick s = record s { time_since_boot_ns = u64 (s.time_since_boot_ns + 1000000000 / get_frequency s) }

-- `asm("hlt")` waits for an interrupt: `wake` is what its handlers do to the timer before the
-- processor goes on.
module _ (wake : Pit → Pit) where
  -- On fuel; `none` means that it ran out.
  unfoldable pub sleep_loop : ℕ → ℕ → Pit → Option Pit
  sleep_loop zero target s = none
  sleep_loop (suc fuel) target s =
      let rest = sleep_loop fuel target (wake s) in
      if ltb s.time_since_boot_ns target then rest else some s

  unfoldable pub sleep_ns : ℕ → ℕ → Pit → Option Pit
  unfolding sleep_loop
  sleep_ns fuel ns s = sleep_loop fuel (u64 (s.time_since_boot_ns + ns)) s

  unfoldable pub sleep_micros : ℕ → ℕ → Pit → Option Pit
  unfolding sleep_ns
  sleep_micros fuel micros s = sleep_ns fuel (u64 (micros * 1000)) s

  unfoldable pub sleep_millis : ℕ → ℕ → Pit → Option Pit
  unfolding sleep_ns
  sleep_millis fuel millis s = sleep_ns fuel (u64 (millis * 1000000)) s

  unfoldable pub sleep_seconds : ℕ → ℕ → Pit → Option Pit
  unfolding sleep_ns
  sleep_seconds fuel seconds s = sleep_ns fuel (u64 (seconds * 1000000000)) s

-- The new state and the bytes written, in order.
unfoldable pub set_divisor : ℕ → Pit → Pit × List Outb
set_divisor divisor s =
    let d = if ltb divisor 100 then 100 else divisor in
    (
      record s { divisor = d },
      record { port = 0x40; value = u8 (bit_and d 0x00ff) }
          ∷ record { port = 0x40; value = u8 (bit_and d 0xff00 >>> 8) }
          ∷ [],
    )

-- The quotient is passed as a `u16`. A frequency of 0 is undefined in the source.
unfoldable pub set_frequency : ℕ → Pit → Pit × List Outb
unfolding set_divisor
set_frequency frequency s = set_divisor (u16 (base_frequency / frequency)) s

pub record Timer : Type 0 where
  pub start_time : ℕ
  pub end_time : ℕ

unfoldable pub new_timer : Pit → Timer
new_timer s = record { start_time = s.time_since_boot_ns; end_time = 0 }

unfoldable pub start : Pit → Timer → Timer
start s t = record t { start_time = s.time_since_boot_ns }

unfoldable pub stop : Pit → Timer → Timer
stop s t = record t { end_time = s.time_since_boot_ns }

unfoldable pub elapsed_ns : Timer → ℕ
elapsed_ns t = sub64 t.end_time t.start_time

unfoldable pub elapsed_micros : Timer → ℕ
unfolding elapsed_ns
elapsed_micros t = elapsed_ns t / 1000

unfoldable pub elapsed_millis : Timer → ℕ
unfolding elapsed_micros
elapsed_millis t = elapsed_micros t / 1000

unfoldable pub elapsed_seconds : Timer → ℕ
unfolding elapsed_millis
elapsed_seconds t = elapsed_millis t / 1000
