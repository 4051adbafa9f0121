-- ===== src/Terminal.antt =====
-- kernel/terminal/terminal.cpp: the cursor and what it draws. `framebuffer` and `font` are what the
-- drawing functions use, `screen` is the memory that they draw in. The text on the serial port is
-- left out.
pub mod Cursor
use oke_os.Prelude.{
  ℕ, ◌+◌, ◌-◌, ◌*◌, ◌/◌, ◌%◌, ◌^◌, Bool, true, false, ◌&&◌, ◌||◌, List, [], ◌∷◌, ltb, ◌==◌,
  if◌then◌else◌, u32, u64, sub64,
}
use oke_os.Framebuffer.{Framebuffer, Font, Screen, draw_char}

pub record Terminal : Type 0 where
  pub char_x : ℕ
  pub char_y : ℕ
  pub chars_per_line : ℕ
  pub max_lines : ℕ
  pub fg_color : ℕ
  pub screen : Screen

unfoldable pub init : Framebuffer → Terminal → Terminal
init fb t =
    let chars_per_line = u32 (sub64 (fb.pitch / 4 / 8) 1) in
    let max_lines = u32 (sub64 (fb.height / 16) 1) in
    record t {
      chars_per_line = if ltb 256 chars_per_line then 256 else chars_per_line;
      max_lines = if ltb 128 max_lines then 128 else max_lines;
    }

-- The `memset` of the frame, by pixels of four bytes.
unfoldable pub clear_screen : Framebuffer → Screen → Screen
clear_screen fb screen o =
    if ltb o (u64 (u64 (fb.width * fb.height) * fb.bpp) / 8 / 4) then 0 else screen o

-- `char` is signed, so that a byte from 128 on is below 31.
unfoldable pub is_drawn : ℕ → Bool
is_drawn c = ltb 31 c && ltb c 128

module _ (fb : Framebuffer) (font : Font) where
  unfoldable pub writechar : ℕ → Terminal → Terminal
  unfolding clear_screen is_drawn
  writechar c t =
      let screen' =
        if is_drawn c
        then draw_char fb font c (u32 (t.char_x * 8)) (u32 (t.char_y * 16)) t.fg_color t.screen
        else t.screen in
      let x = u32 (t.char_x + 1) in
      let y = u32 (t.char_y + 1) in
      if ltb t.chars_per_line x || c == b'\n'
      then if ltb t.max_lines y
        then record t { char_x = 0; char_y = 0; screen = clear_screen fb screen' }
        else record t { char_x = 0; char_y = y; screen = screen' }
      else record t { char_x = x; screen = screen' }

  unfoldable pub write : List ℕ → Terminal → Terminal
  write [] t = t
  write (c ∷ str) t = write str (writechar c t)

  unfoldable pub writeln : List ℕ → Terminal → Terminal
  unfolding write
  writeln str t = writechar b'\n' (write str t)
