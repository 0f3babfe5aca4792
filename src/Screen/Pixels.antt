-- ===== src/Screen/Pixels.antt =====
-- The bytes of the frame buffer of src/vga_buffer.rs under a character, by the order of the channels
-- and the bits of the font.
use open_kernel.Base.{
  ℕ, zero, suc, ◌+◌, ◌-◌, ◌*◌, ◌/◌, ◌%◌, ◌^◌, ◌<◌, ◌≡◌, ◌∙◌, refl, ap, Bool, true, ◌&&◌, List, [],
  ◌∷◌, ltb, lt→ltb, nat_beq, nat_beq_iff, ◌==◌, nat_eq, if◌then◌else◌, get_elem?, Bool-cases, some,
  none, inl, inr, arith, all_below, all_below_sound, Str, map, Returns, Returns-weaken,
}
use open_kernel.Base.Utf8.{as_bytes}
use open_kernel.BootInfo.{FrameBufferInfo, PixelFormat, rgb, bgr}
use open_kernel.Screen.{Rgb, arrange, Writer, to_rgb, is_set, shown, write_string}
use open_kernel.Screen.Font.{glyphs, find_row}
use open_kernel.Screen.Paint.{byte_at, offset, pixel}
use open_kernel.Screen.Glyphs.{glyph_color}
use open_kernel.Screen.Terminal.{Terminal, Cell, cell_color, Shows, image_of, type_bytes}
use open_kernel.Screen.Refine.{write_string-Shows}

are_bytes : List ℕ → Bool
are_bytes [] = true
are_bytes (b ∷ bs) = ltb b 256 && are_bytes bs

rows_are_bytes : List (ℕ × List ℕ) → Bool
rows_are_bytes [] = true
rows_are_bytes ((code, rows) ∷ rest) = are_bytes rows && rows_are_bytes rest

row-lt :
    (rows : List ℕ) (row : ℕ)
    → are_bytes rows ≡ true
    → (elim (get_elem? rows row) as (λ x. ℕ) [ none ↦ 0 | some bits ↦ bits ]) < 256
unfolding are_bytes
row-lt [] row h = omega arith
row-lt (b ∷ bs) zero h = ground arith
row-lt (b ∷ bs) (suc row) h = row-lt bs row (ground arith)

find_row-lt :
    (gs : List (ℕ × List ℕ)) (c row : ℕ) → rows_are_bytes gs ≡ true → find_row gs c row < 256
unfolding rows_are_bytes find_row
find_row-lt [] c row h = omega arith
find_row-lt ((code, rows) ∷ rest) c row h = elim (Bool-cases (code == c)) [
  | inl e ↦ rw e (row-lt rows row (ground arith))
  | inr e ↦ rw e (find_row-lt rest c row (ground arith))
]

font_is_bytes : rows_are_bytes glyphs ≡ true
unfolding rows_are_bytes are_bytes
font_is_bytes = refl

-- The bits of a row count from the left, as the binary digits of the byte do.
abbrev digit : ℕ → ℕ → ℕ
digit bits column = bits / 2 ^ (7 - column) % 2

abbrev digit_agrees : ℕ → Bool
digit_agrees bits =
    all_below 8 (λ column. nat_beq (if is_set bits column then 1 else 0) (digit bits column))

all_digits_agree : all_below 256 digit_agrees ≡ true
unfolding all_below
all_digits_agree = refl

is_set-digit :
    (bits column : ℕ)
    → bits < 256
    → column < 8
    → (if is_set bits column then 1 else 0) ≡ digit bits column
is_set-digit bits column h k =
    (nat_beq_iff (if is_set bits column then 1 else 0) (digit bits column)).0 (
      all_below_sound 8
        (λ column. nat_beq (if is_set bits column then 1 else 0) (digit bits column)) column
        (all_below_sound 256 digit_agrees bits all_digits_agree h) k)

-- The first three bytes of a pixel hold the color: red first, or blue first.
abbrev pub Stored : PixelFormat → Rgb → ℕ → ℕ → ℕ → Type 0
Stored rgb (red, green, blue) a b c = (a ≡ red) × (b ≡ green) × (c ≡ blue)
Stored bgr (red, green, blue) a b c = (a ≡ blue) × (b ≡ green) × (c ≡ red)

pixel-Stored :
    (f : FrameBufferInfo) (bytes : List ℕ) (x y : ℕ) (color : Rgb)
    → pixel f bytes x y ≡ color
    → Stored f.pixel_format color
        (byte_at bytes (offset f x y))
        (byte_at bytes (offset f x y + 1))
        (byte_at bytes (offset f x y + 2))
pixel-Stored f bytes x y (red, green, blue) h = go f.pixel_format h
  where
    go :
        (p : PixelFormat)
        → arrange p (
          byte_at bytes (offset f x y),
          byte_at bytes (offset f x y + 1),
          byte_at bytes (offset f x y + 2),
        )
          ≡ (red, green, blue)
        → Stored p
            (red, green, blue)
            (byte_at bytes (offset f x y))
            (byte_at bytes (offset f x y + 1))
            (byte_at bytes (offset f x y + 2))
    go rgb e = (ap (λ (q : Rgb). q.0) e, ap (λ (q : Rgb). q.1) e, ap (λ (q : Rgb). q.2) e)
    go bgr e = (ap (λ (q : Rgb). q.2) e, ap (λ (q : Rgb). q.1) e, ap (λ (q : Rgb). q.0) e)

-- The color of a place in a cell, by the digit of the font.
abbrev pub cell_pixel : Terminal → Cell → ℕ → ℕ → Rgb
cell_pixel t cell line column =
    if nat_beq (find_row glyphs cell.byte line / 2 ^ (7 - column) % 2) 1
    then to_rgb cell.color
    else to_rgb t.background

-- The pixels of every cell of the terminal are in the bytes.
abbrev pub HoldsCells : FrameBufferInfo → Terminal → Writer → Type 0
HoldsCells f t w =
    (row column line place : ℕ)
    → row < t.rows
    → column < t.columns
    → line < 16
    → place < 8
    → let i = ((row * 16 + line) * f.stride + (column * 8 + place)) * 4 in
      Stored f.pixel_format (cell_pixel t (t.cells row column) line place) (byte_at w.bytes i)
        (byte_at w.bytes (i + 1)) (byte_at w.bytes (i + 2))

glyph_color-digit :
    (t : Terminal) (cell : Cell) (line column : ℕ)
    → column < 8
    → cell_color t cell line column ≡ cell_pixel t cell line column
unfolding glyph_color
glyph_color-digit t cell line column h =
    let bits = find_row glyphs cell.byte line in
    let same = is_set-digit bits column (find_row-lt glyphs cell.byte line font_is_bytes) h in
    elim (Bool-cases (is_set bits column)) [
      | inl e ↦ rw (e, ← same, e) refl
      | inr e ↦ rw (e, ← same, e) refl
    ]

Shows-HoldsCells :
    (f : FrameBufferInfo) (t : Terminal) (w : Writer) → Shows f t w → HoldsCells f t w
unfolding image_of
Shows-HoldsCells f t w s row column line place hr hc hl hp =
    let columns = s.at.columns in
    let rows = s.at.rows in
    let x = column * 8 + place in
    let y = row * 16 + line in
    let up : y / 16 ≡ row = omega arith in
    let down : y % 16 ≡ line = omega arith in
    let left : x / 8 ≡ column = omega arith in
    let right : x % 8 ≡ place = omega arith in
    pixel-Stored f w.bytes x y (cell_pixel t (t.cells row column) line place) (
      s.draws.image x y (omega arith) (omega arith)
      ∙ rw (up, left, down, right, lt→ltb row t.rows hr, lt→ltb column t.columns hc)
          (glyph_color-digit t (t.cells row column) line place hp))

-- On a writer that shows a terminal, `write_string` returns with the pixels of every cell in the
-- frame buffer: at line and place of a cell, in the lines of the stride and four bytes to a pixel,
-- stand the three channels in the order of the mode. They are those of the color of the character
-- where the font's row has the binary digit 1, the leftmost place being the highest digit, and of
-- the background elsewhere.
pub write_string-HoldsCells :
    (f : FrameBufferInfo) (t : Terminal) (w : Writer) (text : Str)
    → Shows f t w
    → Returns (write_string text w) (HoldsCells f (type_bytes (map shown (as_bytes text)) t))
write_string-HoldsCells f t w text s =
    let after = type_bytes (map shown (as_bytes text)) t in
    Returns-weaken (write_string text w) (Shows f after) (HoldsCells f after)
      (write_string-Shows f t w text s) (λ v p. Shows-HoldsCells f after v p)
