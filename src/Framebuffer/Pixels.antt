-- ===== src/Framebuffer/Pixels.antt =====
-- Which pixels the drawing functions change.
use oke_os.Prelude.{
  ℕ, zero, suc, ◌+◌, ◌-◌, ◌*◌, ◌/◌, ◌^◌, ◌<◌, ◌≡◌, false, ◌&&◌, ◌||◌, arith, ltb, leb, ◌==◌,
  if◌then◌else◌,
}
use oke_os.Framebuffer.{
  Framebuffer, Screen, translate_to_offset, draw_point, horizontal_loop, draw_line,
}

-- The offset of a pixel, where the frame is small enough for a `u32`.
abbrev pub at : Framebuffer → ℕ → ℕ → ℕ
at fb x y = y * (fb.pitch / 4) + x

offset-at :
    (fb : Framebuffer) (x y : ℕ) → at fb x y < 2 ^ 32 → translate_to_offset fb x y ≡ at fb x y
unfolding translate_to_offset
offset-at fb x y h = omega arith

horizontal_loop_lem :
    (fb : Framebuffer) (rounds x y color : ℕ) (screen : Screen) (o : ℕ)
    → at fb (x + rounds) y < 2 ^ 32
    → horizontal_loop fb rounds x y color screen o
      ≡ (if leb (at fb x y) o && ltb o (at fb (x + rounds) y) then color else screen o)
unfolding horizontal_loop draw_point
horizontal_loop_lem fb zero x y color screen o h = ground arith
horizontal_loop_lem fb (suc rounds) x y color screen o h = ground (
  arith,
  offset-at fb x y,
  horizontal_loop_lem fb rounds (x + 1) y color (draw_point fb x y color screen) o,
)

-- A horizontal line, in whichever order its ends are given, colours the pixels from the left end
-- up to but without the right end, and no other.
pub draw_line_horizontal :
    (fb : Framebuffer) (x0 x1 y color : ℕ) (screen : Screen) (o : ℕ)
    → at fb x0 y < 2 ^ 32
    → at fb x1 y < 2 ^ 32
    → draw_line fb x0 y x1 y color screen o ≡ (
        if (leb (at fb x0 y) o && ltb o (at fb x1 y)) || (leb (at fb x1 y) o && ltb o (at fb x0 y))
        then color
        else screen o)
unfolding draw_line
draw_line_horizontal fb x0 x1 y color screen o h k = ground (
  arith,
  horizontal_loop_lem fb (x1 - x0) x0 y color screen o,
  horizontal_loop_lem fb (x0 - x1) x1 y color screen o,
)

-- Any other line draws nothing, a vertical one too.
pub draw_line_other :
    (fb : Framebuffer) (x0 y0 x1 y1 color : ℕ) (screen : Screen)
    → (y0 == y1) ≡ false
    → draw_line fb x0 y0 x1 y1 color screen ≡ screen
unfolding draw_line
draw_line_other fb x0 y0 x1 y1 color screen h = ground arith
