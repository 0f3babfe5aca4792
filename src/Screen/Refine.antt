-- ===== src/Screen/Refine.antt =====
-- The writer of src/vga_buffer.rs against the terminal.
use open_kernel.Base.{
  ℕ, ◌+◌, ◌-◌, ◌*◌, ◌/◌, ◌%◌, ◌≤◌, ◌<◌, ◌≡◌, ◌∙◌, inl, inr, refl, sym, ap, ap₂, subst, true, false,
  not, ◌&&◌, Option, some, List, [], ◌∷◌, map, Str, ltb, leb, lt→ltb, ◌==◌, nat_eq, if◌then◌else◌,
  ◌>>=◌, arith, Bool-cases, Returns, Returns->>=, Returns-weaken, all_below, all_below_sound,
}
use open_kernel.Base.Utf8.{as_bytes}
use open_kernel.BootInfo.{FrameBufferInfo}
use open_kernel.Screen.{
  Writer, Color, to_rgb, is_set, dimensions, draw_glyph, new_line, scroll, backspace, place_cursor,
  put_glyph, write_byte, shown, write_bytes, write_string, glyph_width, glyph_height,
}
use open_kernel.Screen.Font.{glyphs, find_row}
use open_kernel.Screen.Image.{Image, Draws}
use open_kernel.Screen.Loops.{Draws-image, area_image}
use open_kernel.Screen.Glyphs.{glyph_color, draw_glyph-Draws}
use open_kernel.Screen.Scrolling.{scroll-Draws}
use open_kernel.Screen.Terminal.{
  Cell, Terminal, blank, put_cell, shift_up, line_feed, erase, show_here, show, type_byte,
  type_bytes, image_of, At, Shows,
}

blank_table : all_below 16 (λ l. all_below 8 (λ c. not (is_set (find_row glyphs b' ' l) c))) ≡ true
unfolding all_below find_row
blank_table = refl

pub blank_color :
    (foreground background : Color) (l c : ℕ)
    → l < 16
    → c < 8
    → glyph_color b' ' foreground background l c ≡ to_rgb background
unfolding glyph_color
blank_color foreground background l c hl hc =
    let inner =
      all_below_sound 16 (λ l. all_below 8 (λ c. not (is_set (find_row glyphs b' ' l) c))) l
        blank_table hl in
    let here = all_below_sound 8 (λ c. not (is_set (find_row glyphs b' ' l) c)) c inner hc in
    ground arith

put_image :
    (t : Terminal) (r c byte : ℕ) (u v : ℕ)
    → r < t.rows
    → c < t.columns
    → area_image
        (image_of t)
        (c * 8)
        (r * 16)
        0
        16
        8
        (glyph_color byte t.foreground t.background)
        u
        v
      ≡ image_of
          (record t { cells = put_cell t.cells r c (record { byte = byte; color = t.foreground }) })
          u
          v
unfolding image_of
put_image t r c byte u v hr hc = elim (Bool-cases (v / 16 == r)) [
  | inr e ↦ ground arith
  | inl e ↦ elim (Bool-cases (u / 8 == c)) [
    | inr d ↦ ground arith
    | inl d ↦
        let line : v - r * 16 ≡ v % 16 = ground arith in
        let column : u - c * 8 ≡ u % 8 = ground arith in
        let inside : (leb (r * 16 + 0) v
              && ltb v (r * 16 + 0 + 16)
              && leb (c * 8) u
              && ltb u (c * 8 + 8))
            ≡ true =
          ground arith in
        rw (inside, line, column) (ground arith)
  ]
]

scroll_image :
    (t : Terminal) (h : ℕ) (u v : ℕ)
    → t.rows ≡ h / 16
    → 16 ≤ h
    → v < h
    → (if ltb v (h - 16) then image_of t u (v + 16) else to_rgb t.background)
      ≡ image_of (record t { cells = shift_up t }) u v
unfolding image_of
scroll_image t h u v e tall hv =
    let line : (v + 16) % 16 ≡ v % 16 = omega arith in
    let row : (v + 16) / 16 ≡ v / 16 + 1 = omega arith in
    let empty =
      blank_color t.foreground t.background (v % 16) (u % 8) (omega arith) (omega arith) in
    elim (Bool-cases (ltb (v / 16 + 1) t.rows)) [
      | inl a ↦
          let above : v < h - 16 = ground arith in
          rw (lt→ltb v (h - 16) above, line, row, a) (ground arith)
      | inr a ↦ rw (line, row, a) (ground (arith, empty))
    ]

dimensions_lem :
    (f : FrameBufferInfo) (w : Writer)
    → w.framebuffer ≡ some f
    → dimensions w ≡ some (f.width / glyph_width, f.height / glyph_height)
unfolding dimensions
dimensions_lem f w e =
    ap
      (λ (o : Option FrameBufferInfo). o >>= λ framebuffer.
        some (framebuffer.width / glyph_width, framebuffer.height / glyph_height))
      e

-- A drawing with the cursor of a terminal shows it, if it has its image.
pub Shows-of :
    (f : FrameBufferInfo) (t : Terminal) (before w : Writer) (img : Image)
    → At f t before
    → Draws f before img w
    → ((u v : ℕ) → v < f.height → img u v ≡ image_of t u v)
    → Shows f t w
Shows-of f t before w img a d e = record {
  at = record {
    columns = a.columns;
    rows = a.rows;
    column = ap (λ (v : Writer). v.column) d.same ∙ a.column;
    row = ap (λ (v : Writer). v.row) d.same ∙ a.row;
    foreground = ap (λ (v : Writer). v.foreground) d.same ∙ a.foreground;
    background = ap (λ (v : Writer). v.background) d.same ∙ a.background;
    column_within = a.column_within;
    row_within = a.row_within;
    wide = a.wide;
  };
  draws = record {
    same = refl;
    framebuffer = d.framebuffer;
    fits = d.fits;
    image = λ u v hu hv. d.image u v hu hv ∙ e u v hv;
  };
}

-- The same screen with another cursor.
moved_cursor :
    (f : FrameBufferInfo) (w : Writer) (img : Image) (column row : ℕ)
    → Draws f w img w
    → Draws f
        (record w { column = column; row = row })
        img
        (record w { column = column; row = row })
moved_cursor f w img column row d = record {
  same = refl;
  framebuffer = d.framebuffer;
  fits = d.fits;
  image = d.image;
}

moved-At :
    (f : FrameBufferInfo) (t : Terminal) (w : Writer) (cells : ℕ → ℕ → Cell) (column row c r : ℕ)
    → At f t w
    → c ≡ column
    → r ≡ row
    → column ≤ t.columns
    → row < t.rows
    → At f
        (record t { column = column; row = row; cells = cells })
        (record w { column = c; row = r })
moved-At f t w cells column row c r a hc hr lc lr = record {
  columns = a.columns;
  rows = a.rows;
  column = hc;
  row = hr;
  foreground = a.foreground;
  background = a.background;
  column_within = lc;
  row_within = lr;
  wide = a.wide;
}

new_line-Shows :
    (f : FrameBufferInfo) (t : Terminal) (w : Writer)
    → Shows f t w
    → Returns (new_line w) (Shows f (line_feed t))
unfolding new_line line_feed image_of
new_line-Shows f t w s =
    let a = s.at in
    let next : Writer = record w { column = 0; row = w.row + 1 } in
    let d = moved_cursor f w (image_of t) 0 (w.row + 1) s.draws in
    rw (dimensions_lem f w s.draws.framebuffer) (elim (Bool-cases (ltb (t.row + 1) t.rows)) [
      | inl e ↦
          let more : leb (f.height / glyph_height) (w.row + 1) ≡ false =
            ground (arith, a.row, a.rows) in
          rw (e, more)
            (
              next,
              refl,
              Shows-of f (record t { column = 0; row = t.row + 1 }) next next (image_of t)
                  (moved-At f t w t.cells 0 (t.row + 1) 0 (w.row + 1) a refl
                    (ap (λ (n : ℕ). n + 1) a.row) (omega arith) (ground arith))
                  d (λ u v hv. refl),
            )
      | inr e ↦
          let full : leb (f.height / glyph_height) (w.row + 1) ≡ true =
            ground (arith, a.row, a.rows, a.row_within) in
          let tall : 16 ≤ f.height = omega (arith, a.row_within, a.rows) in
          rw (e, full)
            (Returns-weaken (scroll next) _ _ (scroll-Draws f next next (image_of t) d tall) (λ r q.
              Shows-of f (record t { column = 0; row = t.rows - 1; cells = shift_up t })
                (record next { row = f.height / 16 - 1 }) r _
                (moved-At f t w (shift_up t) 0 (t.rows - 1) 0 (f.height / 16 - 1) a refl
                  (omega (arith, a.rows)) (omega arith) (omega (arith, a.row_within)))
                q
                (λ u v hv.
                  ap
                    (λ (c : Color).
                      if ltb v (f.height - 16) then image_of t u (v + 16) else to_rgb c)
                    a.background
                  ∙ scroll_image t f.height u v a.rows tall hv)))
    ])

-- A character drawn in a cell of the screen.
draw_cell :
    (f : FrameBufferInfo) (t : Terminal) (w : Writer) (byte c r : ℕ)
    → byte < 256
    → c < t.columns
    → r < t.rows
    → w.foreground ≡ t.foreground
    → w.background ≡ t.background
    → Draws f w (image_of t) w
    → Returns (draw_glyph byte (c * glyph_width) (r * glyph_height) w) (
        Draws f w (
          image_of (record t {
            cells = put_cell t.cells r c (record { byte = byte; color = t.foreground });
          })))
draw_cell f t w byte c r small hc hr fg bg d =
    Returns-weaken (draw_glyph byte (c * glyph_width) (r * glyph_height) w) _ _
      (draw_glyph-Draws f w w (image_of t) byte (c * 8) (r * 16) small d)
      (λ x q. Draws-image f w x _ _ q (λ u v hu hv.
        ap₂
          (λ (a b : Color).
            area_image (image_of t) (c * 8) (r * 16) 0 16 8 (glyph_color byte a b) u v)
          fg bg
        ∙ put_image t r c byte u v hr hc))

backspace-Shows :
    (f : FrameBufferInfo) (t : Terminal) (w : Writer)
    → Shows f t w
    → Returns (backspace w) (Shows f (erase t))
unfolding backspace erase image_of
backspace-Shows f t w s =
    let a = s.at in
    elim (Bool-cases (t.column == 0)) [
      | inl e ↦
          let zero_too : (w.column == 0) ≡ true = ground (arith, a.column) in
          rw (e, zero_too) (w, refl, s)
      | inr e ↦
          let too : (w.column == 0) ≡ false = ground (arith, a.column) in
          let here : w.column - 1 ≡ t.column - 1 = omega (arith, a.column) in
          let before : Writer = record w { column = t.column - 1; row = t.row } in
          rw (e, too, here, a.row)
            (Returns-weaken
              (draw_glyph b' ' ((t.column - 1) * glyph_width) (t.row * glyph_height) before) _ _
              (draw_cell f t before b' ' (t.column - 1) t.row (omega arith)
                (ground (arith, a.column_within)) a.row_within a.foreground a.background
                (moved_cursor f w (image_of t) (t.column - 1) t.row s.draws))
              (λ x q.
                Shows-of f _ before x _
                  (moved-At f t w (put_cell t.cells t.row (t.column - 1) (blank t)) (t.column - 1)
                    t.row (t.column - 1) t.row a refl refl (omega (arith, a.column_within))
                    a.row_within)
                  q (λ u v hv. refl)))
    ]

-- The cursor stands in a cell of the screen.
record Ready (f : FrameBufferInfo) (t : Terminal) (w : Writer) : Type 0 where
  shows : Shows f t w
  within : t.column < t.columns

row_on_screen :
    (f : FrameBufferInfo) (t : Terminal) (w : Writer)
    → Shows f t w
    → leb (f.height / glyph_height) w.row ≡ false
row_on_screen f t w s = ground (arith, s.at.row, s.at.rows, s.at.row_within)

line_feed_column : (t : Terminal) → (line_feed t).column ≡ 0
unfolding line_feed
line_feed_column t = ground arith

line_feed_columns : (t : Terminal) → (line_feed t).columns ≡ t.columns
unfolding line_feed
line_feed_columns t = ground arith

place_cursor-Ready :
    (f : FrameBufferInfo) (t : Terminal) (w : Writer)
    → Shows f t w
    → Returns (place_cursor w) (Ready f (if leb t.columns t.column then line_feed t else t))
unfolding place_cursor
place_cursor-Ready f t w s =
    let a = s.at in
    rw (dimensions_lem f w s.draws.framebuffer) (elim (Bool-cases (leb t.columns t.column)) [
      | inl e ↦
          let full : leb (f.width / glyph_width) w.column ≡ true =
            ground (arith, a.column, a.columns) in
          rw (e, full)
            (Returns->>= (new_line w) _ _ _ (new_line-Shows f t w s) (λ r p.
              rw (row_on_screen f (line_feed t) r p) (
                r,
                refl,
                record {
                  shows = p;
                  within = omega (arith, line_feed_column t, line_feed_columns t, a.wide);
                },
              )))
      | inr e ↦
          let room : leb (f.width / glyph_width) w.column ≡ false =
            ground (arith, a.column, a.columns) in
          rw (e, room, row_on_screen f t w s) (w, refl, record { shows = s; within = ground arith })
    ])

show_here-Shows :
    (f : FrameBufferInfo) (t : Terminal) (w : Writer) (byte : ℕ)
    → byte < 256
    → Ready f t w
    → Returns
        (draw_glyph byte (w.column * glyph_width) (w.row * glyph_height) w >>= λ w.
          some (record w { column = w.column + 1 }))
        (Shows f (show_here byte t))
unfolding image_of
show_here-Shows f t w byte small r =
    let s = r.shows in
    let a = s.at in
    let cells = put_cell t.cells t.row t.column (record { byte = byte; color = t.foreground }) in
    let drawn : Terminal = record t { cells = cells } in
    let before : Writer = record w { column = w.column + 1 } in
    Returns->>= _ _ (Draws f w (image_of drawn)) (Shows f (show_here byte t))
      (subst
        (λ c.
          Returns (draw_glyph byte (c * glyph_width) (w.row * glyph_height) w)
            (Draws f w (image_of drawn)))
        (sym a.column)
        (subst
          (λ l.
            Returns (draw_glyph byte (t.column * glyph_width) (l * glyph_height) w)
              (Draws f w (image_of drawn)))
          (sym a.row)
          (draw_cell f t w byte t.column t.row small r.within a.row_within a.foreground a.background
            s.draws)))
      (λ x q. (
        record x { column = x.column + 1 },
        refl,
        Shows-of f (show_here byte t) before (record x { column = x.column + 1 }) (image_of drawn)
            (moved-At f t w cells (t.column + 1) t.row (w.column + 1) w.row a
              (ap (λ (n : ℕ). n + 1) a.column) a.row (omega (arith, r.within)) a.row_within)
            (record {
              same = ap (λ (v : Writer). record v { column = v.column + 1 }) q.same;
              framebuffer = q.framebuffer;
              fits = q.fits;
              image = q.image;
            })
            (λ u v hv. refl),
      ))

type_byte-Shows :
    (f : FrameBufferInfo) (t : Terminal) (w : Writer) (byte : ℕ)
    → byte < 256
    → Shows f t w
    → Returns (write_byte byte w) (Shows f (type_byte byte t))
unfolding write_byte type_byte put_glyph show
type_byte-Shows f t w byte small s = elim (Bool-cases (byte == 10)) [
  | inl e ↦ rw e (new_line-Shows f t w s)
  | inr e ↦ elim (Bool-cases (byte == 0x08)) [
    | inl d ↦ rw (e, d) (backspace-Shows f t w s)
    | inr d ↦
        rw (e, d)
          (Returns->>= (place_cursor w) _ _ _ (place_cursor-Ready f t w s) (λ x r.
            show_here-Shows f (if leb t.columns t.column then line_feed t else t) x byte small r))
  ]
]

write_bytes-Shows :
    (f : FrameBufferInfo) (t : Terminal) (w : Writer) (bytes : List ℕ)
    → Shows f t w
    → Returns (write_bytes bytes w) (Shows f (type_bytes (map shown bytes) t))
unfolding write_bytes type_bytes
write_bytes-Shows f t w [] s = (w, refl, s)
write_bytes-Shows f t w (byte ∷ rest) s =
    Returns->>= (write_byte (shown byte) w) _ _ _
      (type_byte-Shows f t w (shown byte) (shown-lt byte) s)
      (λ x p. write_bytes-Shows f (type_byte (shown byte) t) x rest p)
  where
    shown-lt : (b : ℕ) → shown b < 256
    shown-lt b = unfold shown in ground arith

-- On a writer that shows a terminal, `write_string` returns whatever the text is, without a panic
-- and without an access outside the frame buffer. The writer then shows what the terminal makes of
-- the bytes of the text, those that cannot be printed replaced by the code 0xfe.
pub write_string-Shows :
    (f : FrameBufferInfo) (t : Terminal) (w : Writer) (text : Str)
    → Shows f t w
    → Returns (write_string text w) (Shows f (type_bytes (map shown (as_bytes text)) t))
unfolding write_string
write_string-Shows f t w text s = write_bytes-Shows f t w (as_bytes text) s
