-- ===== src/Shell/Display.antt =====
-- The drawing calls of the shell, carried out by the writer of src/vga_buffer.rs.
use open_kernel.Base.{
  ℕ, ◌≡◌, ◌∙◌, refl, sym, subst, Option, some, List, [], ◌∷◌, map, arith, nat_eq, ◌>>=◌, Returns,
  Returns->>=,
}
use open_kernel.Base.Text.Laws.{All}
use open_kernel.Base.Utf8.{as_bytes}
use open_kernel.BootInfo.{FrameBufferInfo}
use open_kernel.Screen
use open_kernel.Screen.{Writer, Color, black, shown, write_string}
use open_kernel.Screen.Terminal.{Terminal, Shows, type_bytes, type_byte, line_feed, erase, show}
use open_kernel.Screen.Refine.{write_string-Shows}
use open_kernel.Screen.Start.{empty_terminal, clear_screen-Shows, set_colors-Shows}
use open_kernel.Shell.{Drawing, text, set_colors, clear_screen}
use open_kernel.Shell.Sound.{OnBlack}

unfoldable pub perform : Drawing → Writer → Option Writer
perform (text s) w = write_string s w
perform (set_colors foreground background) w = some (Screen.set_colors foreground background w)
perform clear_screen w = Screen.clear_screen w

unfoldable pub perform_all : List Drawing → Writer → Option Writer
perform_all [] w = some w
perform_all (d ∷ ds) w = perform d w >>= perform_all ds

-- What the user sees of a call.
unfoldable pub appear : FrameBufferInfo → Drawing → Terminal → Terminal
appear f (text s) t = type_bytes (map shown (as_bytes s)) t
appear f (set_colors foreground background) t = record t {
  foreground = foreground;
  background = background;
}
appear f clear_screen t = empty_terminal f t.foreground t.background

unfoldable pub appear_all : FrameBufferInfo → List Drawing → Terminal → Terminal
appear_all f [] t = t
appear_all f (d ∷ ds) t = appear_all f ds (appear f d t)

type_byte-background : (byte : ℕ) (t : Terminal) → (type_byte byte t).background ≡ t.background
unfolding type_byte line_feed erase show
type_byte-background byte t = ground arith

type_bytes-background :
    (bytes : List ℕ) (t : Terminal) → (type_bytes bytes t).background ≡ t.background
unfolding type_bytes
type_bytes-background [] t = refl
type_bytes-background (byte ∷ bytes) t =
    type_bytes-background bytes (type_byte byte t) ∙ type_byte-background byte t

appear-black :
    (f : FrameBufferInfo) (d : Drawing) (t : Terminal)
    → OnBlack d
    → t.background ≡ black
    → (appear f d t).background ≡ black
unfolding appear
appear-black f (text s) t o b = type_bytes-background (map shown (as_bytes s)) t ∙ b
appear-black f (set_colors foreground background) t o b = o
appear-black f clear_screen t o b = b

perform-Shows :
    (f : FrameBufferInfo) (d : Drawing) (t : Terminal) (w : Writer)
    → OnBlack d
    → t.background ≡ black
    → Shows f t w
    → Returns (perform d w) (Shows f (appear f d t))
unfolding perform appear
perform-Shows f (text s) t w o b h = write_string-Shows f t w s h
perform-Shows f (set_colors foreground background) t w o b h =
    subst
      (λ c.
        Returns (some (Screen.set_colors foreground c w))
          (Shows f (record t { foreground = foreground; background = c })))
      (b ∙ sym o)
      (Screen.set_colors foreground t.background w, refl, set_colors-Shows f t w foreground h)
perform-Shows f clear_screen t w o b h =
    let a = h.at in
    let d = h.draws in
    subst (λ c. Returns (Screen.clear_screen w) (Shows f (empty_terminal f c t.background)))
      a.foreground
      (subst (λ c. Returns (Screen.clear_screen w) (Shows f (empty_terminal f w.foreground c)))
        a.background
        (clear_screen-Shows f w d.framebuffer d.fits (omega (arith, a.columns, a.wide))
          (omega (arith, a.rows, a.row_within))))

pub perform_all-Shows :
    (f : FrameBufferInfo) (ds : List Drawing) (t : Terminal) (w : Writer)
    → All OnBlack ds
    → t.background ≡ black
    → Shows f t w
    → Returns (perform_all ds w) (Shows f (appear_all f ds t))
unfolding perform_all appear_all
perform_all-Shows f [] t w o b h = (w, refl, h)
perform_all-Shows f (d ∷ ds) t w (o, os) b h =
    Returns->>= (perform d w) (perform_all ds) (Shows f (appear f d t))
      (Shows f (appear_all f ds (appear f d t))) (perform-Shows f d t w o b h)
      (λ x p. perform_all-Shows f ds (appear f d t) x os (appear-black f d t o b) p)
