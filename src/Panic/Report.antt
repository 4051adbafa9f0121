-- ===== src/Panic/Report.antt =====
-- What of a panic is reported, and when it is not.
use oke_os.Prelude.{
  ◌≢◌, ℕ, ◌<◌, ◌≡◌, ◌∙◌, refl, ap, Bool, true, false, ◌&&◌, not, none, some, List, [], ◌∷◌, ◌++◌,
  length, arith, ◌==◌, codes,
}
use oke_os.MemLib.{Memory}
use oke_os.Framebuffer.{Framebuffer, Font}
use oke_os.Debug.{Console, c_string, write_string}
use oke_os.Debug.Format.{Printing, then_do, print_loop, print_specifier, print_text, kprintf}
use oke_os.Debug.Write.{Plain, write_chars, write_chars_reading, write_string_ends}
use oke_os.Debug.Printf.{Literal, Literal-print_loop, kprintf-Literal, kprintf_string}
use oke_os.Panic.{kprintf_serial, with_args, trace_and_show, panic}

-- Neither a conversion nor a code.
abbrev pub is_simple : List ℕ → Bool
is_simple [] = true
is_simple (c ∷ str) = not (c == b'%') && not (c == b'$') && is_simple str

pub simple : (str : List ℕ) → is_simple str ≡ true → Literal str × Plain str
simple [] e = (tt, tt)
simple (c ∷ str) e =
    let (literal, plain) = simple str (ground arith) in
    ((ground arith, literal), (ground arith, plain))

module _ (fb : Framebuffer) (font : Font) (fuel buf : ℕ) where
  abbrev sent_chars : List ℕ → Console → Console
  sent_chars = write_chars fb font true false

  -- A string with a code in it, given to `%s`.
  kprintf_coded :
      (pre str rest : List ℕ) (a : ℕ) (args : List ℕ) (m : Memory) (s : Console)
      → Literal pre
      → c_string fuel a m ≡ some str
      → write_string fb font true false fuel str (sent_chars pre s) ≡ none
      → kprintf_serial fb font fuel buf
          (pre ++ b'%' ∷ b's' ∷ rest)
          (record { args = a ∷ args; memory = m; console = s })
        ≡ none
  unfolding kprintf print_loop print_specifier print_text
  kprintf_coded pre str rest a args m s l read stuck =
      Literal-print_loop fb font true false fuel buf pre (b'%' ∷ b's' ∷ rest)
        (record { args = a ∷ args; memory = m; console = s }) l
      ∙ rw (read, stuck) refl

  -- The console of a panic in front of its message.
  abbrev pub announced : Console → Console
  announced s =
      sent_chars (codes "Panic GODDAMN!\n")
        (record s { terminal = record s.terminal { fg_color = 0xFF0000 } })

  announced_idle :
      (s : Console) → s.reading_anything ≡ false → (announced s).reading_anything ≡ false
  announced_idle s idle =
      write_chars_reading fb font true false (codes "Panic GODDAMN!\n") _
        (simple (codes "Panic GODDAMN!\n") refl).1 idle

  panic-announced :
      (msg stk : ℕ) (p : Printing)
      → panic fb font fuel buf msg stk p
        ≡ then_do
            (kprintf_serial fb font fuel buf
              (codes "Message: " ++ b'%' ∷ b's' ∷ codes "\n\n\n")
              (record { args = msg ∷ []; memory = p.memory; console = announced p.console }))
            (trace_and_show fb font fuel buf msg stk)
  unfolding panic
  panic-announced msg stk p =
      ap
        (λ r. then_do r λ p₁.
          then_do
            (kprintf_serial fb font fuel buf (codes "Message: %s\n\n\n") (with_args (msg ∷ []) p₁))
            (trace_and_show fb font fuel buf msg stk))
        (kprintf-Literal fb font true false fuel buf (codes "Panic GODDAMN!\n") []
          (record p {
            console = record p.console {
              terminal = record p.console.terminal { fg_color = 0xFF0000 };
            };
          })
          (simple (codes "Panic GODDAMN!\n") refl).0).0

  -- The console behind the message.
  abbrev pub reported : List ℕ → Console → Console
  reported text s =
      sent_chars (codes "\n\n\n") (sent_chars text (sent_chars (codes "Message: ") (announced s)))

  -- With no code being read and fuel for its message: a panic whose message has no code sends its
  -- first line and the message on the serial port, and goes on to the trace; and it goes on only
  -- where the message has none.
  pub panic-Plain :
      (msg stk : ℕ) (text : List ℕ) (p : Printing)
      → p.console.reading_anything ≡ false
      → c_string fuel msg p.memory ≡ some text
      → length text < fuel
      → (Plain text
          → panic fb font fuel buf msg stk p
            ≡ trace_and_show fb font fuel buf msg stk
                (record { args = []; memory = p.memory; console = reported text p.console }))
        × (panic fb font fuel buf msg stk p ≢ none → Plain text)
  panic-Plain msg stk text p idle read small =
      let s = announced p.console in
      let pre = simple (codes "Message: ") refl in
      let ready = announced_idle p.console idle in
      let rest = trace_and_show fb font fuel buf msg stk in
      (
        λ plain.
            panic-announced msg stk p
            ∙ ap (λ r. then_do r rest)
                (kprintf_string fb font true false fuel buf (codes "Message: ") text
                    (codes "\n\n\n") msg [] p.memory s pre.0 pre.1 ready read plain small
                  ∙ (kprintf-Literal fb font true false fuel buf (codes "\n\n\n") [] _
                      (simple (codes "\n\n\n") refl).0).0),
        λ goes_on.
            (write_string_ends fb font true false text (sent_chars (codes "Message: ") s)
                (write_chars_reading fb font true false (codes "Message: ") s pre.1 ready)).1
              fuel
              λ stuck. goes_on (
                panic-announced msg stk p
                ∙ ap (λ r. then_do r rest)
                    (kprintf_coded (codes "Message: ") text (codes "\n\n\n") msg [] p.memory s pre.0
                      read stuck)),
      )
