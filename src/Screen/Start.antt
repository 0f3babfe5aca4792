-- ===== src/Screen/Start.antt =====
-- The start of the writer of src/vga_buffer.rs, and the change of its colors.
use open_kernel.Base.{
  ℕ, ◌+◌, ◌*◌, ◌/◌, ◌%◌, ◌≤◌, ◌≡◌, ◌≢◌, refl, sym, ap, subst, false, ◌&&◌, Option, some, ltb, leb,
  ◌==◌, nat_eq, if◌then◌else◌, ◌>>=◌, arith, usize, Returns, Returns->>=,
}
use open_kernel.BootInfo.{FrameBufferInfo}
use open_kernel.Screen.{Writer, Color, to_rgb, clear_screen, clear_in, init, set_colors}
use open_kernel.Screen.Paint.{Fits, pixel}
use open_kernel.Screen.Glyphs.{fill-Draws}
use open_kernel.Screen.Terminal.{Terminal, image_of, Shows}
use open_kernel.Screen.Refine.{blank_color, Shows-of}

-- The empty terminal of a frame buffer.
abbrev pub empty_terminal : FrameBufferInfo → Color → Color → Terminal
empty_terminal f foreground background = record {
  columns = f.width / 8;
  rows = f.height / 16;
  column = 0;
  row = 0;
  foreground = foreground;
  background = background;
  cells = λ r c. record { byte = b' '; color = foreground };
}

empty_image :
    (f : FrameBufferInfo) (a b : Color) (u v : ℕ) → to_rgb b ≡ image_of (empty_terminal f a b) u v
unfolding image_of
empty_image f a b u v = ground (arith, blank_color a b (v % 16) (u % 8) (omega arith) (omega arith))

clear_in-Shows :
    (f : FrameBufferInfo) (w : Writer)
    → w.framebuffer ≡ some f
    → Fits f w.bytes
    → 8 ≤ f.width
    → 16 ≤ f.height
    → Returns (clear_in f w) (Shows f (empty_terminal f w.foreground w.background))
unfolding clear_in
clear_in-Shows f w e t wide tall =
    Returns->>= _ _ _ (Shows f (empty_terminal f w.foreground w.background))
      (fill-Draws f w w (pixel f w.bytes) 0 f.height (to_rgb w.background)
        (record { same = refl; framebuffer = e; fits = t; image = λ u v hu hv. refl }))
      (λ x q. (
        record x { column = 0; row = 0 },
        refl,
        Shows-of f (empty_terminal f w.foreground w.background) (record w { column = 0; row = 0 })
            (record x { column = 0; row = 0 })
            (λ u v.
              if leb 0 v && ltb v (0 + f.height) then to_rgb w.background else pixel f w.bytes u v)
            (record {
              columns = refl;
              rows = refl;
              column = refl;
              row = refl;
              foreground = refl;
              background = refl;
              column_within = omega arith;
              row_within = omega arith;
              wide = omega arith;
            })
            (record {
              same = ap (λ (v : Writer). record v { column = 0; row = 0 }) q.same;
              framebuffer = q.framebuffer;
              fits = q.fits;
              image = q.image;
            })
            (λ u v hv. ground (arith, empty_image f w.foreground w.background u v)),
      ))

-- `clear_screen` leaves the empty terminal, on a writer with a frame buffer of at least one cell.
pub clear_screen-Shows :
    (f : FrameBufferInfo) (w : Writer)
    → w.framebuffer ≡ some f
    → Fits f w.bytes
    → 8 ≤ f.width
    → 16 ≤ f.height
    → Returns (clear_screen w) (Shows f (empty_terminal f w.foreground w.background))
unfolding clear_screen
clear_screen-Shows f w e t wide tall =
    subst
      (λ (o : Option FrameBufferInfo).
        Returns (o >>= λ framebuffer. clear_in framebuffer w)
          (Shows f (empty_terminal f w.foreground w.background)))
      (sym e) (clear_in-Shows f w e t wide tall)

-- With a frame buffer of at least one cell that holds the pixels of its mode, `init` passes its two
-- assertions and leaves the empty terminal on the screen.
pub init-Shows :
    (f : FrameBufferInfo) (w : Writer)
    → f.address ≢ 0
    → Fits f w.bytes
    → 8 ≤ f.width
    → 16 ≤ f.height
    → Returns (init f w) (Shows f (empty_terminal f w.foreground w.background))
unfolding init
init-Shows f w ne t wide tall =
    let known : (f.address == 0) ≡ false = ground arith in
    let area = t.area in
    let small = t.small in
    let enough : ltb f.byte_len (usize (usize (f.stride * f.height) * 4)) ≡ false =
      ground (arith) in
    rw (known, enough) (clear_screen-Shows f (record w { framebuffer = some f }) refl t wide tall)

-- New colors change no pixel: what is on the screen stays, and the next characters have the new
-- foreground.
pub set_colors-Shows :
    (f : FrameBufferInfo) (t : Terminal) (w : Writer) (foreground : Color)
    → Shows f t w
    → Shows f (record t { foreground = foreground }) (set_colors foreground t.background w)
unfolding image_of
set_colors-Shows f t w foreground s =
    let a = s.at in
    let d = s.draws in
    record {
      at = record {
        columns = a.columns;
        rows = a.rows;
        column = a.column;
        row = a.row;
        foreground = refl;
        background = refl;
        column_within = a.column_within;
        row_within = a.row_within;
        wide = a.wide;
      };
      draws = record { same = refl; framebuffer = d.framebuffer; fits = d.fits; image = d.image };
    }
