-- ===== src/Sched/Sleep.antt =====
-- Sleeping, and measuring time with the stopwatch.
use oke_os.Prelude.{
  ◌⊎◌, true, false, none, ℕ, zero, suc, ◌+◌, ◌-◌, ◌*◌, ◌/◌, ◌^◌, ◌≤◌, ◌<◌, ◌≡◌, ◌∙◌, refl, inl, inr,
  Bool-cases, Option, some, arith, ltb, u64,
}
use oke_os.Sched.{
  Pit, get_frequency, tick, sleep_loop, sleep_ns, Timer, start, stop, elapsed_ns, elapsed_micros,
  elapsed_millis, elapsed_seconds,
}

-- The length of a tick.
unfoldable pub period : Pit → ℕ
period s = 1000000000 / get_frequency s

-- A sleep that returns in time: not before the target, and less than one tick behind it.
pub record Slept (target : ℕ) (s : Pit) (r : Option Pit) : Type 0 where
  pub after : Pit
  pub returns : r ≡ some after
  pub same_divisor : after.divisor ≡ s.divisor
  pub not_early : target ≤ after.time_since_boot_ns
  pub not_late : after.time_since_boot_ns < target + period s

period-tick : (s : Pit) → period (tick s) ≡ period s
unfolding period tick get_frequency
period-tick s = refl

time-tick :
    (s : Pit)
    → s.time_since_boot_ns + period s < 2 ^ 64
    → (tick s).time_since_boot_ns ≡ s.time_since_boot_ns + period s
unfolding period tick
time-tick s h = omega arith

sleep_loop-Slept :
    (fuel target : ℕ) (s : Pit)
    → 0 < period s
    → target + period s < 2 ^ 64
    → target + period s ≤ s.time_since_boot_ns + fuel * period s
    → s.time_since_boot_ns < target + period s
    → Slept target s (sleep_loop tick fuel target s)
unfolding sleep_loop
sleep_loop-Slept zero target s pos room enough near = absurd (omega arith)
sleep_loop-Slept (suc fuel) target s pos room enough near =
    elim (Bool-cases (ltb s.time_since_boot_ns target)) [
      | inl waiting ↦
          let time = time-tick s (ground arith) in
          let same : period (tick s) ≡ period s = period-tick s in
          let rest =
            sleep_loop-Slept fuel target (tick s) (omega arith) (omega arith)
              (rw (same, time) (omega arith)) (ground arith) in
          rw waiting (record {
            after = rest.after;
            returns = rest.returns;
            same_divisor = rest.same_divisor ∙ unfold tick in refl;
            not_early = rest.not_early;
            not_late = omega (arith, rest.not_late);
          })
      | inr over ↦ rw over (record {
        after = s;
        returns = refl;
        same_divisor = refl;
        not_early = ground arith;
        not_late = near;
      })
    ]

sleep_ns-Slept :
    (ns : ℕ) (s : Pit)
    → 0 < period s
    → s.time_since_boot_ns + ns + period s < 2 ^ 64
    → Slept (s.time_since_boot_ns + ns) s (sleep_ns tick (ns + 1) ns s)
unfolding sleep_ns
sleep_ns-Slept ns s pos room =
    let whole : u64 (s.time_since_boot_ns + ns) ≡ s.time_since_boot_ns + ns = omega arith in
    rw whole
      (sleep_loop-Slept (ns + 1) (s.time_since_boot_ns + ns) s pos room (grind arith) (omega arith))

-- Handlers that leave the time as it is.
abbrev pub Unticked : (Pit → Pit) → Type 0
Unticked wake = (s : Pit) → (wake s).time_since_boot_ns ≡ s.time_since_boot_ns

sleep_loop-Unticked :
    (wake : Pit → Pit) (fuel target : ℕ) (s : Pit)
    → Unticked wake
    → s.time_since_boot_ns < target
    → sleep_loop wake fuel target s ≡ none
unfolding sleep_loop
sleep_loop-Unticked wake zero target s still early = refl
sleep_loop-Unticked wake (suc fuel) target s still early =
    let waiting : ltb s.time_since_boot_ns target ≡ true = ground arith in
    rw waiting (sleep_loop-Unticked wake fuel target (wake s) still (omega (arith, still s)))

-- Where the time does not overflow: with handlers that leave it as it is, like those of the kernel,
-- none of which calls `tick`, `sleepNs` returns at once for 0 ns, and for a longer time on no fuel.
-- Were each wake a `tick` of at least 1 ns, it would return, no earlier than it was asked to and
-- less than one tick later, and `ns + 1` ticks would be enough.
pub sleep_ns_lem :
    (ns : ℕ) (s : Pit)
    → s.time_since_boot_ns + ns + period s < 2 ^ 64
    → ((wake : Pit → Pit)
        → Unticked wake
        → ((ns ≡ 0) × ((fuel : ℕ) → sleep_ns wake (suc fuel) ns s ≡ some s))
          ⊎ ((0 < ns) × ((fuel : ℕ) → sleep_ns wake fuel ns s ≡ none)))
      × (0 < period s → Slept (s.time_since_boot_ns + ns) s (sleep_ns tick (ns + 1) ns s))
unfolding sleep_ns sleep_loop
sleep_ns_lem zero s room = (
  λ wake still. inl (
    refl,
    λ fuel.
        let over : ltb s.time_since_boot_ns (u64 (s.time_since_boot_ns + 0)) ≡ false =
          ground arith in
        rw over refl,
  ),
  λ pos. sleep_ns-Slept zero s pos room,
)
sleep_ns_lem (suc ns) s room = (
  λ wake still. inr (omega arith, λ fuel. sleep_loop-Unticked wake fuel _ s still (omega arith)),
  λ pos. sleep_ns-Slept (suc ns) s pos room,
)

-- A timer that is started and then stopped, at no earlier time below 2^64 ns, tells the time between,
-- in each of its units.
pub elapsed_lem :
    (before after : Pit) (t : Timer)
    → before.time_since_boot_ns ≤ after.time_since_boot_ns
    → after.time_since_boot_ns < 2 ^ 64
    → let measured = stop after (start before t) in
      let ns = after.time_since_boot_ns - before.time_since_boot_ns in
      (elapsed_ns measured ≡ ns)
      × (elapsed_micros measured ≡ ns / 1000)
      × (elapsed_millis measured ≡ ns / 1000000)
      × (elapsed_seconds measured ≡ ns / 1000000000)
unfolding elapsed_seconds start stop
elapsed_lem before after t h k = (omega arith, omega arith, omega arith, omega arith)
