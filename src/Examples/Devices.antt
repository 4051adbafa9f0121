-- ===== src/Examples/Devices.antt =====
-- Concrete runs for kernel/idt/ints.cpp, kernel/sched, kernel/graphics/framebuffer.cpp and
-- kernel/terminal/terminal.cpp.
use oke_os.Prelude.{
  ◌-◌, ◌/◌, suc, some, none, ◌⊎◌, ◌<◌, ℕ, ◌+◌, ◌*◌, ◌/◌, ◌≡◌, refl, ◌&&◌, ◌||◌, List, [], ◌∷◌,
  arith, ltb, leb, if◌then◌else◌,
}
use oke_os.Interrupts.{Idt, init_ints, page_fault_string}
use oke_os.Interrupts.Table.{IsKernelGate, init_ints-IsKernelGate}
use oke_os.Interrupts.Fault.{fault_parts, overlay, page_fault_string_lem}
use oke_os.Sched.{
  Pit, get_frequency, tick, sleep_ns, new_timer, start, stop, elapsed_ns, elapsed_micros,
  elapsed_millis, elapsed_seconds,
}
use oke_os.Sched.Sleep.{period, Slept, Unticked, sleep_ns_lem, elapsed_lem}
use oke_os.Framebuffer.{Framebuffer, Font, draw_line}
use oke_os.Framebuffer.Pixels.{at, draw_line_horizontal}
use oke_os.Terminal.{Terminal, write, writeln}
use oke_os.Terminal.Cursor.{IsValid, Limits, writeln-IsValid}

abbrev blank : Idt
blank = λ v. record {
  address_low = 0;
  selector = 0;
  ist = 0;
  flags = 0;
  address_mid = 0;
  address_high = 0;
  reserved = 0;
}

init_ints-IsKernelGate_example :
    IsKernelGate (0xffffffff80001000 + 14 * 16) (init_ints 0xffffffff80001000 blank 14)
init_ints-IsKernelGate_example =
    init_ints-IsKernelGate 0xffffffff80001000 blank 14 (omega arith) (omega arith)

page_fault_string_lem_example :
    page_fault_string 6 (λ a. 0) 20 ≡ overlay (fault_parts 6) 0 (λ a. 0) 20
page_fault_string_lem_example = page_fault_string_lem 6 (λ a. 0) 20

abbrev pit : Pit
pit = record { time_since_boot_ns = 5000000; divisor = 1000 }

pit-period : period pit ≡ 838222
unfolding period get_frequency
pit-period = refl

sleep_ns_lem_example :
    ((wake : Pit → Pit)
      → Unticked wake
      → ((◌≡◌ {A = ℕ} 2000 0) × ((fuel : ℕ) → sleep_ns wake (suc fuel) 2000 pit ≡ some pit))
        ⊎ ((0 < 2000) × ((fuel : ℕ) → sleep_ns wake fuel 2000 pit ≡ none)))
    × (0 < period pit → Slept (5000000 + 2000) pit (sleep_ns tick (2000 + 1) 2000 pit))
sleep_ns_lem_example = sleep_ns_lem 2000 pit (omega (arith, pit-period))

-- Two milliseconds later.
abbrev later : Pit
later = record pit { time_since_boot_ns = 7000000 }

elapsed_lem_example :
    let measured = stop later (start pit (new_timer pit)) in
    (elapsed_ns measured ≡ 7000000 - 5000000)
    × (elapsed_micros measured ≡ (7000000 - 5000000) / 1000)
    × (elapsed_millis measured ≡ (7000000 - 5000000) / 1000000)
    × (elapsed_seconds measured ≡ (7000000 - 5000000) / 1000000000)
elapsed_lem_example = elapsed_lem pit later (new_timer pit) (omega arith) (omega arith)

abbrev pub frame : Framebuffer
frame = record { width = 640; height = 480; pitch = 2560; bpp = 32 }

abbrev pub font : Font
font = record { bytes = λ k. 255; size = 4096 }

draw_line_horizontal_example : draw_line frame 9 3 5 3 77 (λ o. 0) 1926 ≡ (
    if (leb (at frame 9 3) 1926 && ltb 1926 (at frame 5 3))
      || (leb (at frame 5 3) 1926 && ltb 1926 (at frame 9 3))
    then 77
    else 0)
draw_line_horizontal_example =
    draw_line_horizontal frame 9 5 3 77 (λ o. 0) 1926 (omega arith) (omega arith)

abbrev pub terminal : Terminal
terminal = record {
  char_x = 3;
  char_y = 2;
  chars_per_line = 79;
  max_lines = 29;
  fg_color = 0xffffff;
  screen = λ o. 0;
}

pub terminal-IsValid : IsValid terminal
terminal-IsValid = record {
  columns = omega arith;
  rows = omega arith;
  in_line = omega arith;
  in_page = omega arith;
}

abbrev pub hi : List ℕ
hi = 72 ∷ 105 ∷ []

writeln-IsValid_example :
    IsValid (write frame font hi terminal)
    × IsValid (writeln frame font hi terminal)
    × ((writeln frame font hi terminal).char_x ≡ 0)
    × Limits frame font terminal (write frame font hi terminal)
    × Limits frame font terminal (writeln frame font hi terminal)
writeln-IsValid_example = writeln-IsValid frame font hi terminal-IsValid
