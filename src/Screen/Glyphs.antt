-- ===== src/Screen/Glyphs.antt =====
-- Drawing a character and clearing the screen, in src/vga_buffer.rs.
use open_kernel.Base.{
  ℕ, ◌+◌, ◌*◌, ◌/◌, ◌%◌, ◌<◌, ◌≡◌, refl, ap, ◌&&◌, some, ltb, leb, lt→ltb, nat_eq, if◌then◌else◌,
  ◌>>=◌, for_range, arith, Returns, Returns-weaken,
}
use open_kernel.BootInfo.{FrameBufferInfo}
use open_kernel.Screen.{
  Writer, Rgb, write_pixel, draw_row, draw_glyph, is_set, to_rgb, Color, glyph_width, glyph_height,
}
use open_kernel.Screen.Font.{vga_font, glyphs, find_row}
use open_kernel.Screen.Image.{Image, Draws}
use open_kernel.Screen.Loops.{Draws-image, row_image, row-Draws, area_image, area-Draws}

-- The colors of a character in two colors, by line and column.
unfoldable pub glyph_color : ℕ → Color → Color → ℕ → ℕ → Rgb
glyph_color byte foreground background line column =
    if is_set (find_row glyphs byte line) column then to_rgb foreground else to_rgb background

vga_font_lem :
    (byte line : ℕ)
    → byte < 256
    → line < 16
    → vga_font (byte * glyph_height + line) ≡ some (find_row glyphs byte line)
unfolding vga_font
vga_font_lem byte line h k =
    let small : byte * 16 + line < 4096 = omega arith in
    let code : (byte * 16 + line) / 16 ≡ byte = omega arith in
    let row : (byte * 16 + line) % 16 ≡ line = omega arith in
    rw (lt→ltb (byte * 16 + line) 4096 small, code, row)

draw_row-Draws :
    (f : FrameBufferInfo) (before w : Writer) (img : Image) (bits x y : ℕ)
    → Draws f before img w
    → Returns (draw_row bits x y w) (
        Draws f before (
          row_image img x y glyph_width
            (λ i. if is_set bits i then to_rgb before.foreground else to_rgb before.background)))
unfolding draw_row
draw_row-Draws f before w img bits x y d =
    let fg : w.foreground ≡ before.foreground = ap (λ (v : Writer). v.foreground) d.same in
    let bg : w.background ≡ before.background = ap (λ (v : Writer). v.background) d.same in
    Returns-weaken (draw_row bits x y w) _ _
      (row-Draws f before w img (λ i. x + i) x y glyph_width
        (λ i. if is_set bits i then to_rgb w.foreground else to_rgb w.background) (λ k. refl) d)
      (λ t p. Draws-image f before t _ _ p (λ u v hu hv. rw (fg, bg)))

-- A character at `x`, `y` gives the 8 by 16 pixels there its colors, and no other pixel.
pub draw_glyph-Draws :
    (f : FrameBufferInfo) (before w : Writer) (img : Image) (byte x y : ℕ)
    → byte < 256
    → Draws f before img w
    → Returns (draw_glyph byte x y w) (
        Draws f before (
          area_image img x y 0 glyph_height glyph_width
            (glyph_color byte before.foreground before.background)))
unfolding draw_glyph glyph_color
draw_glyph-Draws f before w img byte x y h d =
    area-Draws f before w img
      (λ glyph_y w.
        vga_font (byte * glyph_height + glyph_y) >>= λ bits. draw_row bits x (y + glyph_y) w)
      x y 0 glyph_height glyph_width (glyph_color byte before.foreground before.background)
      (λ k t i b p.
        rw (vga_font_lem byte k h (omega arith))
          (draw_row-Draws f before t i (find_row glyphs byte k) x (y + k) p))
      d

-- The loops of `clear_screen` and of the end of `scroll`: lines of one color from `top` on.
pub fill-Draws :
    (f : FrameBufferInfo) (before w : Writer) (img : Image) (top n : ℕ) (color : Rgb)
    → Draws f before img w
    → Returns
        (for_range top n (λ y. for_range 0 f.width (λ x. write_pixel x y color)) w)
        (Draws f before (λ u v. if leb top v && ltb v (top + n) then color else img u v))
fill-Draws f before w img top n color d =
    Returns-weaken (for_range top n (λ y. for_range 0 f.width (λ x. write_pixel x y color)) w) _ _
      (area-Draws f before w img (λ y. for_range 0 f.width (λ x. write_pixel x y color)) 0 0 top n
        f.width (λ l c. color)
        (λ k t i b p.
          let e : 0 + k ≡ k = omega arith in
          rw e (row-Draws f before t i (λ j. j) 0 k f.width (λ j. color) (λ j. omega arith) p))
        d)
      (λ t p. Draws-image f before t _ _ p (λ u v hu hv. ground arith))
