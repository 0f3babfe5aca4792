-- ===== src/Screen.antt =====
-- src/vga_buffer.rs: the writer of text into the frame buffer. The bytes of the frame buffer are a
-- list, of which `framebuffer.address` is the first. `none` is a panic, or an access to memory
-- outside the frame buffer.
pub mod Font
pub mod Paint
pub mod Image
pub mod Loops
pub mod Glyphs
pub mod Scrolling
pub mod Terminal
pub mod Refine
pub mod Start
pub mod Pixels
mod Tests
use Prim.Native.Nat.{bit_and}
use open_kernel.Base.{
  ℕ, zero, suc, ◌+◌, ◌-◌, ◌*◌, ◌/◌, ◌%◌, ◌^◌, Bool, true, false, not, ◌&&◌, ◌||◌, Option, none,
  some, List, [], ◌∷◌, Str, ltb, leb, ◌==◌, nat_eq, if◌then◌else◌, length, get_elem?, set, usize,
  ◌>>=◌, for_range,
}
use open_kernel.BootInfo.{PixelFormat, rgb, bgr, FrameBufferInfo}
use open_kernel.Base.Utf8.{as_bytes}
use open_kernel.Screen.Font.{vga_font}

abbrev pub glyph_width : ℕ
glyph_width = 8

abbrev pub glyph_height : ℕ
glyph_height = 16

pub data Color : Type 0 where
  black green light_green white amber cyan magenta red : Color

abbrev pub Rgb : Type 0
Rgb = ℕ × ℕ × ℕ

abbrev pub to_rgb : Color → Rgb
to_rgb black = (0, 0, 0)
to_rgb green = (0, 170, 0)
to_rgb light_green = (85, 255, 85)
to_rgb white = (255, 255, 255)
to_rgb amber = (255, 170, 0)
to_rgb cyan = (0, 255, 255)
to_rgb magenta = (255, 0, 255)
to_rgb red = (255, 85, 85)

-- The writer, with the bytes of its frame buffer.
pub record Writer : Type 0 where
  pub framebuffer : Option FrameBufferInfo
  pub column : ℕ
  pub row : ℕ
  pub foreground : Color
  pub background : Color
  pub bytes : List ℕ

abbrev pub new : List ℕ → Writer
new bytes = record {
  framebuffer = none;
  column = 0;
  row = 0;
  foreground = white;
  background = black;
  bytes = bytes;
}

unfoldable pub write_volatile : ℕ → ℕ → Writer → Option Writer
write_volatile offset value w =
    if ltb offset (length w.bytes)
    then some (record w { bytes = set w.bytes offset value })
    else none

abbrev pub arrange : PixelFormat → Rgb → Rgb
arrange rgb (r, g, b) = (r, g, b)
arrange bgr (r, g, b) = (b, g, r)

-- The four bytes of a pixel.
unfoldable pub store_pixel : ℕ → Rgb → Writer → Option Writer
store_pixel offset (first, second, third) w = do
  w ← write_volatile offset first w
  w ← write_volatile (offset + 1) second w
  w ← write_volatile (offset + 2) third w
  write_volatile (offset + 3) 0 w

unfoldable pub write_pixel : ℕ → ℕ → Rgb → Writer → Option Writer
write_pixel x y color w = do
  framebuffer ← w.framebuffer
  if leb framebuffer.width x || leb framebuffer.height y
      then some w
      else store_pixel (usize (usize (usize (y * framebuffer.stride) + x) * 4))
          (arrange framebuffer.pixel_format color) w

-- The columns and rows of text.
unfoldable pub dimensions : Writer → Option (ℕ × ℕ)
dimensions w = do
  framebuffer ← w.framebuffer
  some (framebuffer.width / glyph_width, framebuffer.height / glyph_height)

unfoldable pub clear_in : FrameBufferInfo → Writer → Option Writer
clear_in framebuffer w = do
  let color = to_rgb w.background
  w ←
      for_range 0 framebuffer.height
        (λ y. for_range 0 framebuffer.width (λ x. write_pixel x y color)) w
  some (record w { column = 0; row = 0 })

unfoldable pub clear_screen : Writer → Option Writer
clear_screen w = w.framebuffer >>= λ framebuffer. clear_in framebuffer w

-- `bits & (0x80 >> glyph_x) != 0`
abbrev pub is_set : ℕ → ℕ → Bool
is_set bits glyph_x = not (bit_and bits (0x80 / 2 ^ glyph_x) == 0)

unfoldable pub draw_row : ℕ → ℕ → ℕ → Writer → Option Writer
draw_row bits x y w =
    for_range 0 glyph_width
      (λ glyph_x.
        write_pixel (x + glyph_x) y
          (if is_set bits glyph_x then to_rgb w.foreground else to_rgb w.background))
      w

unfoldable pub draw_glyph : ℕ → ℕ → ℕ → Writer → Option Writer
draw_glyph byte x y w =
    for_range 0 glyph_height
      (λ glyph_y w.
        vga_font (byte * glyph_height + glyph_y) >>= λ bits. draw_row bits x (y + glyph_y) w)
      w

-- One round of the loop that moves the bytes up.
unfoldable pub move_byte : ℕ → ℕ → Writer → Option Writer
move_byte scroll_bytes index w =
    get_elem? w.bytes (index + scroll_bytes) >>= λ value. write_volatile index value w

-- `scroll`, with the frame buffer at hand. `-` is the saturating subtraction of the source; the last
-- one wraps.
unfoldable pub scroll_in : FrameBufferInfo → Writer → Option Writer
scroll_in framebuffer w = do
  let row_bytes = usize (framebuffer.stride * 4)
  let scroll_bytes = usize (glyph_height * row_bytes)
  let retained_bytes = framebuffer.byte_len - scroll_bytes
  w ← for_range 0 retained_bytes (move_byte scroll_bytes) w
  let color = to_rgb w.background
  let top = framebuffer.height - glyph_height
  w ←
      for_range top (framebuffer.height - top)
        (λ y. for_range 0 framebuffer.width (λ x. write_pixel x y color)) w
  some (record w { row = usize (framebuffer.height / glyph_height + 2 ^ 64 - 1) })

unfoldable pub scroll : Writer → Option Writer
scroll w = w.framebuffer >>= λ framebuffer. scroll_in framebuffer w

unfoldable pub new_line : Writer → Option Writer
new_line w = do
  (columns, rows) ← dimensions w
  let w = record w { column = 0; row = w.row + 1 }
  if leb rows w.row then scroll w else some w

unfoldable pub backspace : Writer → Option Writer
backspace w =
    if w.column == 0
    then some w
    else draw_glyph b' ' ((w.column - 1) * glyph_width) (w.row * glyph_height)
        (record w { column = w.column - 1 })

-- The last case of `write_byte`: the cursor is brought onto the screen, and the glyph drawn.
unfoldable pub place_cursor : Writer → Option Writer
place_cursor w = do
  (columns, rows) ← dimensions w
  w ← (if leb columns w.column then new_line w else some w)
  if leb rows w.row then scroll w else some w

unfoldable pub put_glyph : ℕ → Writer → Option Writer
put_glyph byte w = do
  w ← place_cursor w
  w ← draw_glyph byte (w.column * glyph_width) (w.row * glyph_height) w
  some (record w { column = w.column + 1 })

unfoldable pub write_byte : ℕ → Writer → Option Writer
write_byte byte w =
    if byte == 10 then new_line w else if byte == 0x08 then backspace w else put_glyph byte w

-- The byte that `write_string` writes for a byte of the text.
unfoldable pub shown : ℕ → ℕ
shown byte = if (leb 0x20 byte && leb byte 0x7e) || byte == 10 || byte == 0x08 then byte else 0xfe

unfoldable pub write_bytes : List ℕ → Writer → Option Writer
write_bytes [] w = some w
write_bytes (byte ∷ rest) w = write_byte (shown byte) w >>= write_bytes rest

unfoldable pub write_string : Str → Writer → Option Writer
write_string text w = write_bytes (as_bytes text) w

unfoldable pub init : FrameBufferInfo → Writer → Option Writer
init framebuffer w =
    if framebuffer.address == 0
      || ltb framebuffer.byte_len (usize (usize (framebuffer.stride * framebuffer.height) * 4))
    then none
    else clear_screen (record w { framebuffer = some framebuffer })

abbrev pub set_colors : Color → Color → Writer → Writer
set_colors foreground background w = record w { foreground = foreground; background = background }
