-- ===== src/Debug/Printf.antt =====
-- `_kprintf` on the terminal.
use oke_os.Prelude.{
  ℕ, ◌%◌, ◌<◌, ◌≡◌, ◌∙◌, ◌||◌, refl, ap, sym, Bool, true, false, Option, none, some, List, [], ◌∷◌,
  ◌++◌, length, All, ◌==◌,
}
use mathlib.Core.List.{append-nil}
use oke_os.MemLib.{Memory}
use oke_os.Strings.{uitoa, itoa}
use oke_os.Framebuffer.{Framebuffer, Font}
use oke_os.Terminal.Cursor.{IsValid}
use oke_os.Debug.{Console, c_string, padded, write_char}
use oke_os.Debug.Format.{
  Printing, then_do, take_arg, text_e, text_f, print_text, print_digits, print_specifier,
  print_loop, kprintf,
}
use oke_os.Debug.Write.{
  write_chars_reading, Plain, Leaves, pick, write_chars, write_string-write_chars,
  write_char-IsValid, write_string-IsValid,
}

-- No conversion starts in the text.
abbrev pub Literal : List ℕ → Type 0
Literal str = All (λ c. (c == b'%') ≡ false) str

then_do-Leaves :
    {A B : Type 0} (P : A → Type 0) (Q : B → Type 0) (r : Option A) (f : A → Option B)
    → Leaves P r
    → ((a : A) → P a → Leaves Q (f a))
    → Leaves Q (then_do r f)
then_do-Leaves P Q none f l g = tt
then_do-Leaves P Q (some a) f l g = g a l

Leaves-any : {A : Type 0} (r : Option A) → Leaves (λ a. Unit {0}) r
Leaves-any none = tt
Leaves-any (some a) = tt

abbrev OnPage : Printing → Type 0
OnPage p = IsValid p.console.terminal

module _ (fb : Framebuffer) (font : Font) (serial terminal : Bool) (fuel buf : ℕ) where
  -- Text without `%` is written as it is.
  pub Literal-print_loop :
      (str rest : List ℕ) (p : Printing)
      → Literal str
      → print_loop fb font serial terminal fuel buf (str ++ rest) false p
        ≡ print_loop fb font serial terminal fuel buf rest false
            (record p { console = write_chars fb font serial terminal str p.console })
  unfolding print_loop
  Literal-print_loop [] rest p l = refl
  Literal-print_loop (c ∷ str) rest p l = rw l.0 (
      Literal-print_loop str rest
        (record p { console = write_char fb font serial terminal c p.console }) l.1)

  -- `_kprintf` writes the text in front of a `%` with `__writeChar`, drops a second `%` behind the
  -- first one, and prints nothing for the two.
  pub kprintf-Literal :
      (str rest : List ℕ) (p : Printing)
      → Literal str
      → (kprintf fb font serial terminal fuel buf str p
          ≡ some (record p { console = write_chars fb font serial terminal str p.console }))
        × (kprintf fb font serial terminal fuel buf (str ++ b'%' ∷ b'%' ∷ rest) p
            ≡ kprintf fb font serial terminal fuel buf (str ++ b'%' ∷ rest) p)
        × (kprintf fb font serial terminal fuel buf (str ++ b'%' ∷ b'%' ∷ []) p
            ≡ kprintf fb font serial terminal fuel buf str p)
  unfolding kprintf
  kprintf-Literal str rest p l = (
    sym (ap (λ zs. print_loop fb font serial terminal fuel buf zs false p) (append-nil str))
        ∙ Literal-print_loop str [] p l,
    Literal-print_loop str (b'%' ∷ b'%' ∷ rest) p l
        ∙ sym (Literal-print_loop str (b'%' ∷ rest) p l),
    Literal-print_loop str (b'%' ∷ b'%' ∷ []) p l
        ∙ sym (Literal-print_loop str [] p l)
        ∙ ap (λ zs. print_loop fb font serial terminal fuel buf zs false p) (append-nil str),
  )

  -- `%s` prints the string at its argument, where it has no code, no code is being read, and there is
  -- fuel for its characters; the text behind it is printed with the other arguments.
  pub kprintf_string :
      (pre str rest : List ℕ) (a : ℕ) (args : List ℕ) (m : Memory) (s : Console)
      → Literal pre
      → Plain pre
      → s.reading_anything ≡ false
      → c_string fuel a m ≡ some str
      → Plain str
      → length str < fuel
      → kprintf fb font serial terminal fuel buf
          (pre ++ b'%' ∷ b's' ∷ rest)
          (record { args = a ∷ args; memory = m; console = s })
        ≡ kprintf fb font serial terminal fuel buf rest (record {
          args = args;
          memory = m;
          console =
              write_chars fb font serial terminal str (write_chars fb font serial terminal pre s);
        })
  unfolding kprintf print_loop print_specifier print_text
  kprintf_string pre str rest a args m s l plain idle read plain' small =
      let s₁ = write_chars fb font serial terminal pre s in
      let written =
        write_string-write_chars fb font serial terminal fuel str s₁ small plain'
          (write_chars_reading fb font serial terminal pre s plain idle) in
      Literal-print_loop pre (b'%' ∷ b's' ∷ rest)
        (record { args = a ∷ args; memory = m; console = s }) l
      ∙ rw (read, written) refl

  print_text-OnPage :
      (text : List ℕ) (p : Printing)
      → OnPage p
      → Leaves OnPage (print_text fb font serial terminal fuel buf text p)
  unfolding print_text
  print_text-OnPage text p v =
      then_do-Leaves (λ (s : Console). IsValid s.terminal) OnPage _ _
        (write_string-IsValid fb font serial terminal fuel text p.console v) λ s w. w

  print_digits-OnPage :
      (converted : Option Memory) (layout : List ℕ → List ℕ) (p : Printing)
      → OnPage p
      → Leaves OnPage (print_digits fb font serial terminal fuel buf converted layout p)
  unfolding print_digits
  print_digits-OnPage converted layout p v =
      then_do-Leaves (λ (m : Memory). Unit {0}) OnPage converted _ (Leaves-any converted)
        λ m u.
          then_do-Leaves (λ (ds : List ℕ). Unit {0}) OnPage (c_string fuel buf m) _
            (Leaves-any (c_string fuel buf m))
            λ digits u. print_text-OnPage (layout digits) (record p { memory = m }) v

  take_arg-OnPage :
      (p : Printing) (f : ℕ → Printing → Option Printing)
      → OnPage p
      → ((a : ℕ) (p' : Printing) → OnPage p' → Leaves OnPage (f a p'))
      → Leaves OnPage (take_arg p f)
  take_arg-OnPage p f v g = go p.args
    where
      go :
          (args : List ℕ)
          → Leaves OnPage (elim args [ [] ↦ none | a ∷ rest ↦ f a (record p { args = rest }) ])
      go [] = tt
      go (a ∷ rest) = g a (record p { args = rest }) v

  number-OnPage :
      (converted : ℕ → Memory → Option Memory) (layout : List ℕ → List ℕ) (p : Printing)
      → OnPage p
      → Leaves OnPage (
          take_arg p
            λ a p'. print_digits fb font serial terminal fuel buf (converted a p'.memory) layout p')
  number-OnPage converted layout p v =
      take_arg-OnPage p
        (λ a p'. print_digits fb font serial terminal fuel buf (converted a p'.memory) layout p') v
        λ a p' w. print_digits-OnPage (converted a p'.memory) layout p' w

  char-OnPage :
      (c : ℕ) (p : Printing)
      → OnPage p
      → Leaves OnPage (some (record p { console = write_char fb font serial terminal c p.console }))
  char-OnPage c p v = write_char-IsValid fb font serial terminal c p.console v

  print_specifier-OnPage :
      (c : ℕ) (p : Printing)
      → OnPage p
      → Leaves OnPage (print_specifier fb font serial terminal fuel buf c p)
  unfolding print_specifier
  print_specifier-OnPage c p v =
      let branch = pick (Leaves OnPage) in
      let plain : List ℕ → List ℕ = λ digits. digits in
      let signed = λ (base : ℕ). number-OnPage (λ a m. itoa fuel a buf base m) plain p v in
      let unsigned = λ (base : ℕ) (layout : List ℕ → List ℕ).
        number-OnPage (λ a m. uitoa fuel a buf base m) layout p v in
      branch (c == b'c') _ _
        (take_arg-OnPage p
          (λ a p'.
            some (record p' { console = write_char fb font serial terminal (a % 256) p'.console }))
          v λ a p' w. char-OnPage (a % 256) p' w)
        (branch (c == b'e' || c == b'E') _ _ (print_text-OnPage text_e p v) (
          branch (c == b'f') _ _ (print_text-OnPage text_f p v) (
            branch (c == b'o') _ _ (signed 8) (
              branch (c == b'd' || c == b'i') _ _ (signed 10) (
                branch (c == b's') _ _
                  (take_arg-OnPage p
                    (λ a p'.
                      then_do (c_string fuel a p'.memory)
                        λ str. print_text fb font serial terminal fuel buf str p')
                    v
                    λ a p' w.
                      then_do-Leaves (λ (str : List ℕ). Unit {0}) OnPage (c_string fuel a p'.memory)
                        (λ str. print_text fb font serial terminal fuel buf str p')
                        (Leaves-any (c_string fuel a p'.memory))
                        λ str u. print_text-OnPage str p' w)
                  (branch (c == b'u') _ _ (unsigned 10 plain) (
                    branch (c == b'x' || c == b'X') _ _ (unsigned 16 padded) (
                      branch (c == b'%')
                        (some (record p {
                          console = write_char fb font serial terminal b'%' p.console;
                        }))
                        (some p) (char-OnPage b'%' p v) v))))))))

  print_loop-OnPage :
      (str : List ℕ) (parsing : Bool) (p : Printing)
      → OnPage p
      → Leaves OnPage (print_loop fb font serial terminal fuel buf str parsing p)
  unfolding print_loop
  print_loop-OnPage [] parsing p v = v
  print_loop-OnPage (c ∷ str) parsing p v =
      pick (Leaves OnPage) (c == b'%') _ _ (print_loop-OnPage str true p v) (
        pick (Leaves OnPage) parsing _ _
          (then_do-Leaves OnPage OnPage (print_specifier fb font serial terminal fuel buf c p)
            (print_loop fb font serial terminal fuel buf str false) (print_specifier-OnPage c p v)
            (print_loop-OnPage str false))
          (print_loop-OnPage str false
            (record p { console = write_char fb font serial terminal c p.console })
            (write_char-IsValid fb font serial terminal c p.console v)))

  -- Whatever the format and its arguments are, with the cursor on the page before, it is on the page
  -- when `_kprintf` returns.
  pub kprintf-OnPage :
      (str : List ℕ) (p : Printing)
      → IsValid p.console.terminal
      → Leaves (λ p'. IsValid p'.console.terminal) (kprintf fb font serial terminal fuel buf str p)
  unfolding kprintf
  kprintf-OnPage str p v = print_loop-OnPage str false p v
