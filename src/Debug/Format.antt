-- ===== src/Debug/Format.antt =====
-- `_kprintf` and its conversions. The test for a zero inside the loop, which ends at a zero, never
-- holds and is left out.
use oke_os.Prelude.{
  ℕ, ◌%◌, Bool, true, false, ◌||◌, Option, none, some, List, [], ◌∷◌, ◌==◌, if◌then◌else◌,
}
use oke_os.Framebuffer.{Framebuffer, Font}
use oke_os.MemLib.{Memory}
use oke_os.Strings.{uitoa, itoa}
use oke_os.Debug.{Console, c_string, padded, write_char, write_string}

-- What is left of the arguments, the memory with `buf`, and the console.
pub record Printing : Type 0 where
  pub args : List ℕ
  pub memory : Memory
  pub console : Console

abbrev pub then_do : {A B : Type 0} → Option A → (A → Option B) → Option B
then_do none f = none
then_do (some a) f = f a

-- The next argument. Without one the behaviour is undefined, and there is no result.
abbrev pub take_arg : Printing → (ℕ → Printing → Option Printing) → Option Printing
take_arg p f = elim p.args [ [] ↦ none | a ∷ args ↦ f a (record p { args = args }) ]

abbrev text_not_implemented : List ℕ
text_not_implemented =
    b' ' ∷ b'n' ∷ b'o' ∷ b't' ∷ b' ' ∷ b'i' ∷ b'm' ∷ b'p' ∷ b'l' ∷ b'e' ∷ b'm' ∷ b'e' ∷ b'n' ∷ b't'
    ∷ b'e' ∷ b'd' ∷ b'>' ∷ []

abbrev pub text_e : List ℕ
text_e =
    b'<' ∷ b'f' ∷ b'o' ∷ b'r' ∷ b'm' ∷ b'a' ∷ b't' ∷ b't' ∷ b'e' ∷ b'r' ∷ b' ' ∷ b'e' ∷ b'/' ∷ b'E'
    ∷ text_not_implemented

abbrev pub text_f : List ℕ
text_f =
    b'<' ∷ b'f' ∷ b'o' ∷ b'r' ∷ b'm' ∷ b'a' ∷ b't' ∷ b't' ∷ b'e' ∷ b'r' ∷ b' ' ∷ b'f'
    ∷ text_not_implemented

-- `fuel` is for `__write`, the digits and the ends of strings; `buf` is the address of the buffer.
module _ (fb : Framebuffer) (font : Font) (serial terminal : Bool) (fuel buf : ℕ) where
  unfoldable pub print_text : List ℕ → Printing → Option Printing
  unfolding write_string
  print_text text p =
      then_do (write_string fb font serial terminal fuel text p.console)
        λ s. some (record p { console = s })

  -- The digits that a conversion has left in the buffer.
  unfoldable pub print_digits : Option Memory → (List ℕ → List ℕ) → Printing → Option Printing
  unfolding print_text c_string
  print_digits converted layout p = then_do converted λ m.
      then_do (c_string fuel buf m) λ digits. print_text (layout digits) (record p { memory = m })

  -- The character behind a `%`.
  unfoldable pub print_specifier : ℕ → Printing → Option Printing
  unfolding print_text print_digits write_char padded c_string
  print_specifier c p =
      if c == b'c'
      then take_arg p (λ a p'.
        some (record p' { console = write_char fb font serial terminal (a % 256) p'.console }))
      else if c == b'e' || c == b'E'
      then print_text text_e p
      else if c == b'f'
      then print_text text_f p
      else if c == b'o'
      then take_arg p (λ a p'. print_digits (itoa fuel a buf 8 p'.memory) (λ digits. digits) p')
      else if c == b'd' || c == b'i'
      then take_arg p (λ a p'. print_digits (itoa fuel a buf 10 p'.memory) (λ digits. digits) p')
      else if c == b's'
      then take_arg p (λ a p'. then_do (c_string fuel a p'.memory) λ str. print_text str p')
      else if c == b'u'
      then take_arg p (λ a p'. print_digits (uitoa fuel a buf 10 p'.memory) (λ digits. digits) p')
      else if c == b'x' || c == b'X'
      then take_arg p (λ a p'. print_digits (uitoa fuel a buf 16 p'.memory) padded p')
      else if c == b'%'
      then some (record p { console = write_char fb font serial terminal b'%' p.console })
      else some p

  -- The loop of `_kprintf`, and whether a conversion is being read.
  unfoldable pub print_loop : List ℕ → Bool → Printing → Option Printing
  unfolding print_specifier write_char
  print_loop [] parsing p = some p
  print_loop (c ∷ str) parsing p =
      if c == b'%'
      then print_loop str true p
      else if parsing
      then then_do (print_specifier c p) (print_loop str false)
      else print_loop str false
          (record p { console = write_char fb font serial terminal c p.console })

  unfoldable pub kprintf : List ℕ → Printing → Option Printing
  unfolding print_loop
  kprintf str p = print_loop str false p
