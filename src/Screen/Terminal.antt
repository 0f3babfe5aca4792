-- ===== src/Screen/Terminal.antt =====
-- What the writer of src/vga_buffer.rs promises: a terminal, which is a grid of characters with a
-- cursor, and the image that a terminal has on the screen.
use open_kernel.Base.{
  ℕ, ◌+◌, ◌-◌, ◌/◌, ◌%◌, ◌≤◌, ◌<◌, ◌≡◌, ◌&&◌, List, [], ◌∷◌, ltb, leb, ◌==◌, nat_eq, if◌then◌else◌,
}
use open_kernel.BootInfo.{FrameBufferInfo}
use open_kernel.Screen.{Color, Rgb, to_rgb, Writer}
use open_kernel.Screen.Image.{Image, Draws}
use open_kernel.Screen.Glyphs.{glyph_color}

-- A character and its color.
pub record Cell : Type 0 where
  pub byte : ℕ
  pub color : Color

pub record Terminal : Type 0 where
  pub columns : ℕ
  pub rows : ℕ
  pub column : ℕ
  pub row : ℕ
  pub foreground : Color
  pub background : Color
  pub cells : ℕ → ℕ → Cell

abbrev pub blank : Terminal → Cell
blank t = record { byte = b' '; color = t.foreground }

-- One cell is given anew.
abbrev pub put_cell : (ℕ → ℕ → Cell) → ℕ → ℕ → Cell → ℕ → ℕ → Cell
put_cell cells row column cell r c = if r == row && c == column then cell else cells r c

-- The rows move up by one, and the last is blank.
abbrev pub shift_up : Terminal → ℕ → ℕ → Cell
shift_up t r c = if ltb (r + 1) t.rows then t.cells (r + 1) c else blank t

unfoldable pub line_feed : Terminal → Terminal
line_feed t =
    if ltb (t.row + 1) t.rows
    then record t { column = 0; row = t.row + 1 }
    else record t { column = 0; row = t.rows - 1; cells = shift_up t }

unfoldable pub erase : Terminal → Terminal
erase t =
    if t.column == 0
    then t
    else record t { column = t.column - 1; cells = put_cell t.cells t.row (t.column - 1) (blank t) }

abbrev pub show_here : ℕ → Terminal → Terminal
show_here byte t = record t {
  column = t.column + 1;
  cells = put_cell t.cells t.row t.column (record { byte = byte; color = t.foreground });
}

-- A line that is full wraps before the next character.
unfoldable pub show : ℕ → Terminal → Terminal
show byte t = show_here byte (if leb t.columns t.column then line_feed t else t)

unfoldable pub type_byte : ℕ → Terminal → Terminal
type_byte byte t = if byte == 10 then line_feed t else if byte == 0x08 then erase t else show byte t

unfoldable pub type_bytes : List ℕ → Terminal → Terminal
type_bytes [] t = t
type_bytes (byte ∷ bytes) t = type_bytes bytes (type_byte byte t)

-- The color of a pixel inside a cell.
abbrev pub cell_color : Terminal → Cell → ℕ → ℕ → Rgb
cell_color t cell line column = glyph_color cell.byte cell.color t.background line column

-- The cells in their places from the upper left corner on, the background elsewhere.
unfoldable pub image_of : Terminal → Image
image_of t u v =
    if ltb (v / 16) t.rows && ltb (u / 8) t.columns
    then cell_color t (t.cells (v / 16) (u / 8)) (v % 16) (u % 8)
    else to_rgb t.background

-- The writer has the cursor and the colors of the terminal.
pub record At (f : FrameBufferInfo) (t : Terminal) (w : Writer) : Type 0 where
  pub columns : t.columns ≡ f.width / 8
  pub rows : t.rows ≡ f.height / 16
  pub column : w.column ≡ t.column
  pub row : w.row ≡ t.row
  pub foreground : w.foreground ≡ t.foreground
  pub background : w.background ≡ t.background
  pub column_within : t.column ≤ t.columns
  pub row_within : t.row < t.rows
  pub wide : 0 < t.columns

-- The writer shows the terminal on its screen.
pub record Shows (f : FrameBufferInfo) (t : Terminal) (w : Writer) : Type 0 where
  pub at : At f t w
  pub draws : Draws f w (image_of t) w
