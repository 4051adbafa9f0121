-- ===== src/Framebuffer.antt =====
-- kernel/graphics/framebuffer.cpp. The memory behind `gFramebuffer->address` is a function from the
-- offset of a 32-bit pixel; the record of the bootloader that describes it is `Framebuffer`. The
-- font is an external binary: its bytes and its size are parameters.
pub mod Pixels
use oke_os.Prelude.{
  ℕ, zero, suc, ◌+◌, ◌-◌, ◌*◌, ◌/◌, ◌%◌, ◌^◌, bit_and, Bool, true, false, not, List, [], ◌∷◌, ltb,
  leb, ◌==◌, if◌then◌else◌, u8, u32, u64, ◌<<<◌,
}

pub record Framebuffer : Type 0 where
  pub width : ℕ
  pub height : ℕ
  pub pitch : ℕ
  pub bpp : ℕ

pub record Font : Type 0 where
  pub bytes : ℕ → ℕ
  pub size : ℕ

abbrev pub Screen : Type 0
Screen = ℕ → ℕ

unfoldable pub translate_to_offset : Framebuffer → ℕ → ℕ → ℕ
translate_to_offset fb x y = u32 (u64 (y * (fb.pitch / 4)) + x)

unfoldable pub draw_point : Framebuffer → ℕ → ℕ → ℕ → Screen → Screen
draw_point fb x y color screen o = if translate_to_offset fb x y == o then color else screen o

-- The loop of `drawHorizontalLine` at the rounds left.
unfoldable pub horizontal_loop : Framebuffer → ℕ → ℕ → ℕ → ℕ → Screen → Screen
horizontal_loop fb zero x y color screen = screen
horizontal_loop fb (suc rounds) x y color screen =
    horizontal_loop fb rounds (x + 1) y color (draw_point fb x y color screen)

unfoldable pub draw_horizontal_line : Framebuffer → ℕ → ℕ → ℕ → ℕ → Screen → Screen
unfolding horizontal_loop
draw_horizontal_line fb x0 y0 x1 color screen = horizontal_loop fb (x1 - x0) x0 y0 color screen

unfoldable pub draw_line : Framebuffer → ℕ → ℕ → ℕ → ℕ → ℕ → Screen → Screen
unfolding draw_horizontal_line
draw_line fb x0 y0 x1 y1 color screen =
    if x0 == x1
    then screen
    else if not (y0 == y1)
    then screen
    else if ltb x1 x0
    then draw_horizontal_line fb x1 y0 x0 color screen
    else draw_horizontal_line fb x0 y0 x1 color screen

-- One row of a glyph: the bit `cx` decides the colour of the column `(x + 16) - cx`.
unfoldable pub row_loop : Framebuffer → ℕ → ℕ → ℕ → ℕ → ℕ → ℕ → ℕ → Screen → Screen
row_loop fb zero cx v x y fg bg screen = screen
row_loop fb (suc rounds) cx v x y fg bg screen =
    let color = if bit_and v (u8 (1 <<< cx)) == 0 then bg else fg in
    row_loop fb rounds (cx + 1) v x y fg bg
      (draw_point fb (u32 (u32 (x + 16) + 2 ^ 32 - cx)) y color screen)

-- The rows. The test against the end of the font does not depend on the column; where it holds,
-- the source returns from both loops.
unfoldable pub glyph_loop : Framebuffer → Font → ℕ → ℕ → ℕ → ℕ → ℕ → ℕ → ℕ → Screen → Screen
glyph_loop fb font zero cy glyph x y fg bg screen = screen
glyph_loop fb font (suc rounds) cy glyph x y fg bg screen =
    let rest =
      glyph_loop fb font rounds (cy + 1) glyph x y fg bg
        (row_loop fb 8 0 (font.bytes (glyph + cy)) x (u32 (y + cy)) fg bg screen) in
    if leb font.size (glyph + cy) then screen else rest

unfoldable pub draw_char_bg : Framebuffer → Font → ℕ → ℕ → ℕ → ℕ → ℕ → Screen → Screen
unfolding glyph_loop row_loop
draw_char_bg fb font c x y fg bg screen = glyph_loop fb font 16 0 (c * 16) x y fg bg screen

unfoldable pub draw_char : Framebuffer → Font → ℕ → ℕ → ℕ → ℕ → Screen → Screen
unfolding draw_char_bg
draw_char fb font c x y fg screen = draw_char_bg fb font c x y fg 0x000000 screen

-- The loop of `drawStringBg` at the characters left.
unfoldable pub string_loop : Framebuffer → Font → List ℕ → ℕ → ℕ → ℕ → ℕ → ℕ → Screen → Screen
string_loop fb font [] off_x x y fg bg screen = screen
string_loop fb font (c ∷ str) off_x x y fg bg screen =
    string_loop fb font str (u32 (off_x + 8)) x y fg bg
      (draw_char_bg fb font c (u32 (x + off_x)) y fg bg screen)

unfoldable pub draw_string_bg : Framebuffer → Font → List ℕ → ℕ → ℕ → ℕ → ℕ → Screen → Screen
unfolding string_loop
draw_string_bg fb font str x y fg bg screen = string_loop fb font str 0 x y fg bg screen

unfoldable pub draw_string : Framebuffer → Font → List ℕ → ℕ → ℕ → ℕ → Screen → Screen
unfolding draw_string_bg
draw_string fb font str x y fg screen = draw_string_bg fb font str x y fg 0x000000 screen
