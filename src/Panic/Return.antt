-- ===== src/Panic/Return.antt =====
-- The report of a panic comes to its end.
use oke_os.Prelude.{
  ◌⊎◌, inl, inr, ℕ, zero, suc, ◌+◌, ◌*◌, ◌^◌, ◌≤◌, ◌<◌, ◌≡◌, ◌∙◌, refl, Bool, true, false,
  Bool-cases, Option, some, List, [], ◌∷◌, length, arith, ◌==◌, u64, codes,
}
use oke_os.Framebuffer.{Framebuffer, Font}
use oke_os.Debug.{c_string}
use oke_os.Acpi.{read32}
use oke_os.Debug.Text.{c_string-agrees}
use oke_os.Debug.Format.{Printing, then_do, kprintf}
use oke_os.Debug.Write.{Plain, write_chars, write_chars_reading}
use oke_os.Debug.Printf.{kprintf-Literal, kprintf_string}
use oke_os.Debug.Number.{sixteen, bytes_at, Printed-sixteen, kprintf_unsigned}
use oke_os.Panic.{
  read64, with_args, trace_loop, trace, trace_stack_trace, trace_stack_trace_only_serial,
  show_panic, trace_and_show, panic,
}
use oke_os.Panic.Report.{is_simple, simple}

u64_small : (n : ℕ) → u64 n < 2 ^ 64
u64_small n = omega arith

module _ (fb : Framebuffer) (font : Font) (fuel buf : ℕ) (msg : ℕ) (text : List ℕ) where
  -- No code is being read, and the message is in its place.
  pub record IsCalm (p : Printing) : Type 0 where
    pub idle : p.console.reading_anything ≡ false
    pub message : c_string fuel msg p.memory ≡ some text

  -- The printing comes back, and the next one can follow.
  abbrev pub Comes : Option Printing → Type 0
  Comes r = (p : Printing) × (r ≡ some p) × IsCalm p

  then_do-Comes :
      (r : Option Printing) (f : Printing → Option Printing)
      → Comes r
      → ((p : Printing) → IsCalm p → Comes (f p))
      → Comes (then_do r f)
  then_do-Comes r f (p, e, calm) g = let (p', e', calm') = g p calm in (p', rw e e', calm')

  IsCalm-args : (args : List ℕ) (p : Printing) → IsCalm p → IsCalm (with_args args p)
  IsCalm-args args p c = record { idle = c.idle; message = c.message }

  module _ (plain : Plain text) (short : length text < fuel) (enough : 64 < fuel)
      (clear : (msg + length text < buf) ⊎ (buf + 64 < msg)) (serial terminal : Bool) where
    abbrev print : List ℕ → Printing → Option Printing
    print = kprintf fb font serial terminal fuel buf

    simple-Comes :
        (str : List ℕ) (p : Printing) → is_simple str ≡ true → IsCalm p → Comes (print str p)
    simple-Comes str p e c =
        let (literal, plain') = simple str e in
        (
          record p { console = write_chars fb font serial terminal str p.console },
          (kprintf-Literal fb font serial terminal fuel buf str [] p literal).0,
          record {
            idle = write_chars_reading fb font serial terminal str p.console plain' c.idle;
            message = c.message;
          },
        )

    message-Comes :
        (p : Printing)
        → IsCalm p
        → Comes (print (codes "Message: %s\n\n\n") (with_args (msg ∷ []) p))
    message-Comes p c =
        let pre = simple (codes "Message: ") refl in
        let s₁ = write_chars fb font serial terminal (codes "Message: ") p.console in
        let ready =
          write_chars_reading fb font serial terminal (codes "Message: ") p.console pre.1 c.idle in
        let s₂ = write_chars fb font serial terminal text s₁ in
        let ready' = write_chars_reading fb font serial terminal text s₁ plain ready in
        let rest =
          simple-Comes (codes "\n\n\n") (record { args = []; memory = p.memory; console = s₂ }) refl
            (record { idle = ready'; message = c.message }) in
        (
          rest.0,
          kprintf_string fb font serial terminal fuel buf (codes "Message: ") text (codes "\n\n\n")
                msg [] p.memory p.console pre.0 pre.1 c.idle c.message plain short
              ∙ rest.1,
          rest.2,
        )

    frame-Comes :
        (value : ℕ) (p : Printing)
        → value < 2 ^ 64
        → IsCalm p
        → Comes (print (codes "  0x%x     \n") (with_args (value ∷ []) p))
    frame-Comes value p small c =
        let pre = simple (codes "  0x") refl in
        let (n, m', digits, others, few, e) =
          (kprintf_unsigned fb font serial terminal fuel buf (codes "  0x") (codes "     \n") value
            [] p.memory p.console pre.0 pre.1 c.idle enough small).1 in
        let ready =
          write_chars_reading fb font serial terminal (codes "  0x") p.console pre.1 c.idle in
        let s₁ = write_chars fb font serial terminal (codes "  0x") p.console in
        let shown = sixteen (bytes_at n buf m') in
        let s₂ = write_chars fb font serial terminal shown s₁ in
        let rest =
          simple-Comes (codes "     \n") (record { args = []; memory = m'; console = s₂ }) refl
            (record {
              idle =
                  write_chars_reading fb font serial terminal shown s₁
                    (Printed-sixteen 16 value buf n digits) ready;
              message =
                  c_string-agrees fuel msg p.memory m' c.message
                    λ j l. others (msg + j) (far clear (omega (arith, few)) l);
            }) in
        (rest.0, e ∙ rest.1, rest.2)
      where
        far :
            {n j : ℕ}
            → (msg + length text < buf) ⊎ (buf + 64 < msg)
            → n ≤ 64
            → j ≤ length text
            → (msg + j < buf) ⊎ (buf + n < msg + j)
        far (inl l) k i = inl (omega arith)
        far (inr l) k i = inr (omega arith)

    trace_loop-Comes :
        (frames stk : ℕ) (p : Printing) → IsCalm p → Comes (trace_loop print frames stk p)
    unfolding trace_loop
    trace_loop-Comes zero stk p c = (p, refl, c)
    trace_loop-Comes (suc frames) stk p c = elim (Bool-cases (stk == 0)) [
      | inl ends ↦ rw ends (p, refl, c)
      | inr goes ↦ rw goes (
          then_do-Comes _ _
            (frame-Comes _ p
              (u64_small (read32 p.memory (stk + 8) + read32 p.memory (stk + 8 + 4) * 2 ^ 32)) c)
            λ p' c'. trace_loop-Comes frames (read64 p'.memory stk) p' c')
    ]

    trace-Comes : (frames stk : ℕ) (p : Printing) → IsCalm p → Comes (trace print frames stk p)
    unfolding trace
    trace-Comes frames stk p c =
        then_do-Comes _ _ (simple-Comes (codes "Stack trace:\n") p refl c)
          (trace_loop-Comes frames stk)

  -- With no code being read, more than 64 steps of fuel, and more than the message has characters: a
  -- panic whose message has no code, and stands apart from the 65 bytes at the buffer, comes back
  -- from its printing, to the endless loop, whatever frames are in memory, with the message still
  -- in its place.
  pub panic-ends :
      (stk : ℕ) (p : Printing)
      → Plain text
      → length text < fuel
      → 64 < fuel
      → (msg + length text < buf) ⊎ (buf + 64 < msg)
      → IsCalm p
      → Comes (panic fb font fuel buf msg stk p)
  unfolding panic trace_and_show trace_stack_trace_only_serial show_panic trace_stack_trace
  panic-ends stk p plain short enough clear c =
      let say = simple-Comes plain short enough clear in
      let report = message-Comes plain short enough clear in
      let frames = trace-Comes plain short enough clear in
      let red = record p.console { terminal = record p.console.terminal { fg_color = 0xFF0000 } } in
      then_do-Comes _ _
        (say true false (codes "Panic GODDAMN!\n") (record p { console = red }) refl
          (record { idle = c.idle; message = c.message }))
        λ p₁ c₁. then_do-Comes _ _ (report true false p₁ c₁) λ p₂ c₂.
          then_do-Comes _ _ (frames true false 16 stk p₂ c₂) λ p₃ c₃.
            then_do-Comes _ _ (say false true (codes "\n\n") p₃ refl c₃) λ p₄ c₄.
              then_do-Comes _ _
                (say false true (codes "** okeOS Panic **                             :(\n") p₄ refl
                  c₄)
                λ p₅ c₅.
                  then_do-Comes _ _
                    (say false true (codes "A fatal exception occurred and okeOS was halted.\n") p₅
                      refl c₅)
                    λ p₆ c₆. then_do-Comes _ _ (report false true p₆ c₆) (frames false true 16 stk)
