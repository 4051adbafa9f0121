-- ===== src/Panic.antt =====
-- kernel/panic.cpp: the report of a panic, up to its endless loop. `stk` is the address of the frame
-- that the trace starts at; a frame holds the address of the one before it, and the address that its
-- function returns to. `fuel` and `buf` are those of `_kprintf`.
pub mod Report
pub mod Return
use oke_os.Prelude.{
  ℕ, zero, suc, ◌+◌, ◌*◌, ◌^◌, true, false, Option, none, some, List, [], ◌∷◌, ◌==◌, if◌then◌else◌,
  codes, u64,
}
use oke_os.MemLib.{Memory}
use oke_os.Framebuffer.{Framebuffer, Font}
use oke_os.Debug.Format.{Printing, then_do, kprintf}
use oke_os.Acpi.{read32}

abbrev pub read64 : Memory → ℕ → ℕ
read64 m a = u64 (read32 m a + read32 m (a + 4) * 2 ^ 32)

abbrev pub with_args : List ℕ → Printing → Printing
with_args args p = record p { args = args }

-- The loop of a trace, over the frames that are left to print.
unfoldable pub trace_loop :
    (List ℕ → Printing → Option Printing) → ℕ → ℕ → Printing → Option Printing
trace_loop print zero stk p = some p
trace_loop print (suc frames) stk p =
    let frame = with_args (read64 p.memory (stk + 8) ∷ []) p in
    let rest =
      then_do (print (codes "  0x%x     \n") frame)
        λ p'. trace_loop print frames (read64 p'.memory stk) p' in
    if stk == 0 then some p else rest

unfoldable pub trace : (List ℕ → Printing → Option Printing) → ℕ → ℕ → Printing → Option Printing
unfolding trace_loop
trace print max_frames stk p =
    then_do (print (codes "Stack trace:\n") p) (trace_loop print max_frames stk)

module _ (fb : Framebuffer) (font : Font) (fuel buf : ℕ) where
  abbrev pub kprintf_serial : List ℕ → Printing → Option Printing
  kprintf_serial = kprintf fb font true false fuel buf

  abbrev pub kprintf_terminal : List ℕ → Printing → Option Printing
  kprintf_terminal = kprintf fb font false true fuel buf

  unfoldable pub trace_stack_trace : ℕ → ℕ → Printing → Option Printing
  unfolding trace kprintf
  trace_stack_trace max_frames stk p = trace kprintf_terminal max_frames stk p

  unfoldable pub trace_stack_trace_only_serial : ℕ → ℕ → Printing → Option Printing
  unfolding trace kprintf
  trace_stack_trace_only_serial max_frames stk p = trace kprintf_serial max_frames stk p

  -- What is printed on the terminal.
  unfoldable pub show_panic : ℕ → ℕ → Printing → Option Printing
  unfolding kprintf trace_stack_trace
  show_panic msg stk p = then_do (kprintf_terminal (codes "\n\n") p) λ p₁.
      then_do (kprintf_terminal (codes "** okeOS Panic **                             :(\n") p₁)
        λ p₂.
          then_do (kprintf_terminal (codes "A fatal exception occurred and okeOS was halted.\n") p₂)
            λ p₃.
              then_do (kprintf_terminal (codes "Message: %s\n\n\n") (with_args (msg ∷ []) p₃))
                (trace_stack_trace 16 stk)

  -- What follows the message on the serial port.
  unfoldable pub trace_and_show : ℕ → ℕ → Printing → Option Printing
  unfolding trace_stack_trace_only_serial show_panic
  trace_and_show msg stk p = then_do (trace_stack_trace_only_serial 16 stk p) (show_panic msg stk)

  unfoldable pub panic : ℕ → ℕ → Printing → Option Printing
  panic msg stk p =
      let red = record p.console { terminal = record p.console.terminal { fg_color = 0xFF0000 } } in
      then_do (kprintf_serial (codes "Panic GODDAMN!\n") (record p { console = red })) λ p₁.
        then_do (kprintf_serial (codes "Message: %s\n\n\n") (with_args (msg ∷ []) p₁))
          (trace_and_show msg stk)
