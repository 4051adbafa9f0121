-- ===== src/Debug.antt =====
-- kernel/debug.cpp: text with `$c` colour codes and `%` conversions, on the terminal and the serial
-- port. A string is the list of its characters in front of the terminating zero, and where the
-- code reads it from memory, `c_string` reads it. The wait for the serial port is left out.
pub mod Format
pub mod Write
pub mod Printf
pub mod Channels
pub mod Number
pub mod Signed
pub mod Text
use oke_os.Prelude.{
  ℕ, zero, suc, ◌+◌, ◌-◌, ◌*◌, ◌/◌, ◌%◌, ◌^◌, Bool, true, false, not, ◌&&◌, ◌||◌, Option, none,
  some, List, [], ◌∷◌, ◌++◌, length, ltb, ◌==◌, if◌then◌else◌, u32,
}
use oke_os.Framebuffer.{Framebuffer, Font}
use oke_os.MemLib.{Memory}
use oke_os.Strings.{uitoa, itoa}
use oke_os.Terminal.{Terminal, writechar}

pub record Console : Type 0 where
  pub reading_anything : Bool
  pub reading_color : Bool
  pub terminal : Terminal
  pub sent : List ℕ

-- The colour of a code, or the colour as it was.
unfoldable pub color_of : ℕ → ℕ → ℕ
color_of c old =
    if c == b'Y'
    then 0xFFFF20
    else if c == b'G'
    then 0x00FF00
    else if c == b'R'
    then 0xFF0000
    else if c == b'B'
    then 0x0000FF
    else if c == b'F'
    then 0xFFFFFF
    else if c == b'7'
    then 0xAAAAAA
    else if c == b'8'
    then 0x555555
    else old

-- A character while a code is read.
unfoldable pub select : ℕ → Console → Console
unfolding color_of
select c s =
    if not s.reading_color
    then (if c == b'c' then record s { reading_color = true } else s)
    else record s {
      reading_anything = false;
      reading_color = false;
      terminal = record s.terminal { fg_color = color_of c s.terminal.fg_color };
    }

abbrev pub serial_write : ℕ → Console → Console
serial_write c s = record s { sent = s.sent ++ c ∷ [] }

-- What `Terminal::writechar` sends itself, when it clears the screen.
abbrev pub clear_text : List ℕ
clear_text = b'c' ∷ b'l' ∷ b'e' ∷ b'a' ∷ b'r' ∷ []

abbrev pub clears : ℕ → Terminal → Bool
clears c t =
    (ltb t.chars_per_line (u32 (t.char_x + 1)) || c == b'\n')
    && ltb t.max_lines (u32 (t.char_y + 1))

-- The string at an address, on fuel.
unfoldable pub c_string : ℕ → ℕ → Memory → Option (List ℕ)
c_string zero p m = none
c_string (suc fuel) p m =
    let rest = c_string fuel (p + 1) m in
    if m p == 0 then some [] else elim rest [ none ↦ none | some str ↦ some (m p ∷ str) ]

abbrev pub zeros : ℕ → List ℕ
zeros zero = []
zeros (suc n) = b'0' ∷ zeros n

-- `newBuf` with the digits at its end.
unfoldable pub padded : List ℕ → List ℕ
padded text = zeros (16 - length text) ++ text

module _ (fb : Framebuffer) (font : Font) (serial terminal : Bool) where
  unfoldable pub terminal_write : ℕ → Console → Console
  unfolding writechar
  terminal_write c s = record s {
    terminal = writechar fb font c s.terminal;
    sent = if clears c s.terminal then s.sent ++ clear_text else s.sent;
  }

  unfoldable pub emit : ℕ → Console → Console
  unfolding terminal_write
  emit c s =
      let s' = if serial then serial_write c s else s in
      if terminal then terminal_write c s' else s'

  unfoldable pub write_char : ℕ → Console → Console
  unfolding select emit
  write_char c s =
      if c == b'$'
      then record s { reading_anything = true }
      else if s.reading_anything
      then select c s
      else emit c s

  -- A round of the loop of `__write`, at the character `c` in front of `str`.
  unfoldable pub write_next : ℕ → List ℕ → Console → List ℕ × Console
  unfolding select emit
  write_next c str s =
      if c == b'$'
      then (c ∷ str, record s { reading_anything = true })
      else if s.reading_anything
      then (c ∷ str, select c s)
      else (str, emit c s)

  -- The loop of `__write` on fuel.
  unfoldable pub write_string : ℕ → List ℕ → Console → Option Console
  unfolding write_next
  write_string zero str s = none
  write_string (suc fuel) [] s = some s
  write_string (suc fuel) (c ∷ str) s =
      let (str', s') = write_next c str s in write_string fuel str' s'
