-- ===== src/Screen/Scrolling.antt =====
-- The scrolling of src/vga_buffer.rs: the bytes move up, and the last lines are cleared.
use open_kernel.Base.{
  ℕ, suc, ◌+◌, ◌-◌, ◌*◌, ◌/◌, ◌^◌, ◌≤◌, ◌<◌, ◌≡◌, ◌∙◌, ◌⊎◌, inl, inr, refl, sym, ap, subst, ◌&&◌,
  Option, ltb, leb, lt→ltb, nat_eq, if◌then◌else◌, length, set, usize, ◌>>=◌, for_range, arith,
  Bool-cases, Returns, Returns->>=, Returns-weaken, for_range_inv, length-set, get_elem?-some,
}
use open_kernel.BootInfo.{FrameBufferInfo}
use open_kernel.Screen.{
  Writer, Rgb, arrange, move_byte, scroll, scroll_in, to_rgb, glyph_height, write_pixel,
}
use open_kernel.Screen.Paint.{Fits, byte_at, offset, pixel, offset_lt, write_volatile_lem}
use open_kernel.Screen.Image.{Image, Draws, byte_at-set, rgb_eq}
use open_kernel.Screen.Loops.{Draws-image}
use open_kernel.Screen.Glyphs.{fill-Draws}

-- The first `n` bytes have moved up by `by`.
record Moved (by n : ℕ) (before w : Writer) : Type 0 where
  same : w ≡ record before { bytes = w.bytes }
  len : length w.bytes ≡ length before.bytes
  byte :
      (i : ℕ)
      → byte_at w.bytes i
        ≡ (if ltb i n then byte_at before.bytes (i + by) else byte_at before.bytes i)

move_byte-Moved :
    (by n : ℕ) (before w : Writer)
    → n + by < length before.bytes
    → Moved by n before w
    → Returns (move_byte by n w) (Moved by (suc n) before)
unfolding move_byte
move_byte-Moved by n before w h m =
    let (value, e) = get_elem?-some w.bytes (n + by) (omega (arith, m.len)) in
    let read : byte_at w.bytes (n + by) ≡ value = rw (e, byte_at) in
    (
      record w { bytes = set w.bytes n value },
      rw (e, move_byte) (write_volatile_lem n value w (omega (arith, m.len))),
      record {
        same = ap (λ (v : Writer). record v { bytes = set w.bytes n value }) m.same;
        len = length-set w.bytes n value ∙ m.len;
        byte = λ i. ground (
          arith,
          byte_at-set w.bytes n i value (omega (arith, m.len)),
          m.byte i,
          m.byte (n + by),
          read,
        );
      },
    )

move_bytes-Moved :
    (by n : ℕ) (w : Writer)
    → (n ≡ 0) ⊎ (n + by ≤ length w.bytes)
    → Returns (for_range 0 n (move_byte by) w) (Moved by n w)
move_bytes-Moved by n w h =
    Returns-weaken (for_range 0 n (move_byte by) w) (Moved by (0 + n) w) (Moved by n w)
      (for_range_inv (λ k t. Moved by k w t) 0 n (move_byte by) w
        (λ k t l b p. move_byte-Moved by k w t (omega arith) p)
        (record { same = refl; len = refl; byte = λ i. ground arith }))
      (λ t p. subst (λ k. Moved by k w t) (omega arith) p)

offset_down : (s u v : ℕ) → (v * s + u) * 4 + 64 * s ≡ ((v + 16) * s + u) * 4
offset_down s u v = grind arith

tall_le : (s h : ℕ) → 16 ≤ h → s * 64 ≤ s * h * 4
tall_le s h k = grind arith

-- The image after the bytes have moved: what stood a line of text lower, above the last line.
module _ (f : FrameBufferInfo) (before w : Writer) (img : Image) where
  Moved-byte :
      (moved : Writer) (i j : ℕ)
      → Moved (64 * f.stride) (f.byte_len - 64 * f.stride) w moved
      → i + 64 * f.stride ≡ j
      → j < f.byte_len
      → byte_at moved.bytes i ≡ byte_at w.bytes j
  Moved-byte moved i j m e h =
      m.byte i ∙ rw (e, lt→ltb i (f.byte_len - 64 * f.stride) (omega arith))

  Moved-pixel :
      (moved : Writer) (u v : ℕ)
      → Fits f w.bytes
      → Moved (64 * f.stride) (f.byte_len - 64 * f.stride) w moved
      → u < f.width
      → v < f.height - 16
      → pixel f moved.bytes u v ≡ pixel f w.bytes u (v + 16)
  Moved-pixel moved u v t m hu hv =
      let down = offset_down f.stride u v in
      let low = offset_lt f.stride f.height u (v + 16) (omega (arith, t.lines)) (omega arith) in
      let area = t.area in
      ap (arrange f.pixel_format) (
        rgb_eq (Moved-byte moved (offset f u v) (offset f u (v + 16)) m down (omega arith))
          (Moved-byte moved (offset f u v + 1) (offset f u (v + 16) + 1) m (omega arith)
            (omega arith))
          (Moved-byte moved (offset f u v + 2) (offset f u (v + 16) + 2) m (omega arith)
            (omega arith)))

  move-Draws :
      Draws f before img w
      → 16 ≤ f.height
      → Returns (for_range 0 (f.byte_len - 64 * f.stride) (move_byte (64 * f.stride)) w) (λ moved.
        Draws f before
          (λ u v. if ltb v (f.height - 16) then img u (v + 16) else pixel f moved.bytes u v)
          moved)
  move-Draws d h =
      let wide = tall_le f.stride f.height h in
      Returns-weaken (for_range 0 (f.byte_len - 64 * f.stride) (move_byte (64 * f.stride)) w) _ _
        (move_bytes-Moved (64 * f.stride) (f.byte_len - 64 * f.stride) w
          (omega (arith, d.fits.area, d.fits.len)))
        (λ t m. record {
          same = m.same ∙ ap (λ (v : Writer). record v { bytes = t.bytes }) d.same;
          framebuffer = ap (λ (v : Writer). v.framebuffer) m.same ∙ d.framebuffer;
          fits = record {
            len = m.len ∙ d.fits.len;
            small = d.fits.small;
            lines = d.fits.lines;
            tall = d.fits.tall;
            area = d.fits.area;
          };
          image = λ u v hu hv. elim (Bool-cases (ltb v (f.height - 16))) [
            | inl e ↦ rw e (
                Moved-pixel t u v d.fits m hu (ground arith) ∙ d.image u (v + 16) hu (ground arith))
            | inr e ↦ rw e
          ];
        })

  filled :
      (background : Rgb) (moved : Image) (u v : ℕ)
      → v < f.height
      → (if leb (f.height - 16) v && ltb v (f.height - 16 + (f.height - (f.height - 16)))
          then background
          else if ltb v (f.height - 16)
          then img u (v + 16)
          else moved u v)
        ≡ (if ltb v (f.height - 16) then img u (v + 16) else background)
  filled background moved u v h = ground arith

  abbrev pub scrolled : Image
  scrolled u v = if ltb v (f.height - 16) then img u (v + 16) else to_rgb before.background

  fill_end :
      (t : Writer) (moved : Image)
      → Draws f before (λ u v. if ltb v (f.height - 16) then img u (v + 16) else moved u v) t
      → Returns
          (for_range
            (f.height - 16)
            (f.height - (f.height - 16))
            (λ y. for_range 0 f.width (λ x. write_pixel x y (to_rgb t.background)))
            t)
          (Draws f before scrolled)
  fill_end t moved p =
      let bg = ap (λ (v : Writer). to_rgb v.background) p.same in
      Returns-weaken _ _ _
        (fill-Draws f before t _ (f.height - 16) (f.height - (f.height - 16)) (to_rgb t.background)
          p)
        (λ r q. Draws-image f before r _ _ q (λ u v hu hv.
          filled (to_rgb t.background) moved u v hv
          ∙ ap (λ (c : Rgb). if ltb v (f.height - 16) then img u (v + 16) else c) bg))

  scroll_in-Draws :
      Draws f before img w
      → 16 ≤ f.height
      → Returns (scroll_in f w) (Draws f (record before { row = f.height / 16 - 1 }) scrolled)
  unfolding scroll_in
  scroll_in-Draws d h =
      let wide = tall_le f.stride f.height h in
      let area = d.fits.area in
      let small = d.fits.small in
      let by : usize (glyph_height * usize (f.stride * 4)) ≡ 64 * f.stride = omega arith in
      let row : usize (f.height / glyph_height + 2 ^ 64 - 1) ≡ f.height / 16 - 1 =
        omega (arith, d.fits.tall) in
      rw (by, row)
        (Returns->>= (for_range 0 (f.byte_len - 64 * f.stride) (move_byte (64 * f.stride)) w) _ _
          (Draws f (record before { row = f.height / 16 - 1 }) scrolled) (move-Draws d h)
          (λ t p.
            Returns->>= _ _ (Draws f before scrolled)
              (Draws f (record before { row = f.height / 16 - 1 }) scrolled)
              (fill_end t (pixel f t.bytes) p)
              (λ r q. (
                record r { row = f.height / 16 - 1 },
                refl,
                record {
                  same = ap (λ (v : Writer). record v { row = f.height / 16 - 1 }) q.same;
                  framebuffer = q.framebuffer;
                  fits = q.fits;
                  image = q.image;
                },
              ))))

  -- The screen scrolls up by a line of text. The last line gets the background, and the cursor.
  pub scroll-Draws :
      Draws f before img w
      → 16 ≤ f.height
      → Returns (scroll w) (Draws f (record before { row = f.height / 16 - 1 }) scrolled)
  unfolding scroll
  scroll-Draws d h =
      subst
        (λ (o : Option FrameBufferInfo).
          Returns (o >>= λ framebuffer. scroll_in framebuffer w)
            (Draws f (record before { row = f.height / 16 - 1 }) scrolled))
        (sym d.framebuffer) (scroll_in-Draws d h)
