-- ===== src/Screen/Image.antt =====
-- The image on the screen, and what the loops over pixels of src/vga_buffer.rs make of it.
use open_kernel.Base.{
  ℕ, ◌+◌, ◌*◌, ◌<◌, ◌≡◌, ◌≢◌, ◌∙◌, ◌⊎◌, inl, inr, refl, ap, subst, false, ◌&&◌, ◌||◌, some, List,
  leb, ◌==◌, nat_eq, nat_beq_iff, if◌then◌else◌, length, set, arith, Bool-cases, Returns,
  length-set, get_elem?-set_self, get_elem?-set_ne,
}
use open_kernel.BootInfo.{PixelFormat, rgb, bgr, FrameBufferInfo}
use open_kernel.Screen.{Writer, Rgb, arrange, write_pixel}
use open_kernel.Screen.Paint.{
  Fits, byte_at, offset, pixel, put_pixel, length-put_pixel, offset_lt, offset_ne, lt_or_eq,
  write_pixel_inside, write_pixel_outside,
}

abbrev pub Image : Type 0
Image = ℕ → ℕ → Rgb

-- The writer `w` differs from `before` in the bytes of the frame buffer only, and shows the image.
pub record Draws (f : FrameBufferInfo) (before : Writer) (img : Image) (w : Writer) : Type 0 where
  pub same : w ≡ record before { bytes = w.bytes }
  pub framebuffer : w.framebuffer ≡ some f
  pub fits : Fits f w.bytes
  pub image : (x y : ℕ) → x < f.width → y < f.height → pixel f w.bytes x y ≡ img x y

pub byte_at-set :
    (bytes : List ℕ) (i j v : ℕ)
    → i < length bytes
    → byte_at (set bytes i v) j ≡ (if i == j then v else byte_at bytes j)
byte_at-set bytes i j v h = elim (Bool-cases (i == j)) [
  | inl e ↦
      let same = (nat_beq_iff i j).0 e in rw (e, ← same, get_elem?-set_self bytes i v h, byte_at)
  | inr e ↦
      rw (
        e,
        get_elem?-set_ne bytes {i = i} {j = j} v (λ p. ground (arith, nat_beq_iff i j)),
        byte_at,
      )
]

arrange-arrange : (p : PixelFormat) (c : Rgb) → arrange p (arrange p c) ≡ c
arrange-arrange rgb (a, b, c) = refl
arrange-arrange bgr (a, b, c) = refl

byte_at-put_pixel :
    (bytes : List ℕ) (i m : ℕ) (c : Rgb)
    → i + 3 < length bytes
    → byte_at (put_pixel bytes i c) m ≡ (
        if i + 3 == m
        then 0
        else if i + 2 == m
        then c.2
        else if i + 1 == m
        then c.1
        else if i == m
        then c.0
        else byte_at bytes m)
byte_at-put_pixel bytes i m (a, b, c) h =
    let bytes1 = set bytes i a in
    let len1 = length-set bytes i a in
    let bytes2 = set bytes1 (i + 1) b in
    let len2 = length-set bytes1 (i + 1) b in
    let bytes3 = set bytes2 (i + 2) c in
    let len3 = length-set bytes2 (i + 2) c in
    rw (
      byte_at-set bytes3 (i + 3) m 0 (omega arith),
      byte_at-set bytes2 (i + 2) m c (omega arith),
      byte_at-set bytes1 (i + 1) m b (omega arith),
      byte_at-set bytes i m a (omega arith),
    )

pub rgb_eq : {a b c x y z : ℕ} → a ≡ x → b ≡ y → c ≡ z → ◌≡◌ {A = Rgb} (a, b, c) (x, y, z)
rgb_eq p q r i = (p i, q i, r i)

-- The bytes of the pixel `q` after the pixel `p` is put, counted in pixels.
abbrev bytes_of : List ℕ → ℕ → Rgb
bytes_of bytes q = (byte_at bytes (q * 4), byte_at bytes (q * 4 + 1), byte_at bytes (q * 4 + 2))

bytes_of-put_self :
    (bytes : List ℕ) (p : ℕ) (c : Rgb)
    → p * 4 + 3 < length bytes
    → bytes_of (put_pixel bytes (p * 4) c) p ≡ c
bytes_of-put_self bytes p c h =
    rgb_eq (ground (arith, byte_at-put_pixel bytes (p * 4) (p * 4) c h))
      (ground (arith, byte_at-put_pixel bytes (p * 4) (p * 4 + 1) c h))
      (ground (arith, byte_at-put_pixel bytes (p * 4) (p * 4 + 2) c h))

bytes_of-put_ne :
    (bytes : List ℕ) (p q : ℕ) (c : Rgb)
    → p * 4 + 3 < length bytes
    → p ≢ q
    → bytes_of (put_pixel bytes (p * 4) c) q ≡ bytes_of bytes q
bytes_of-put_ne bytes p q c h ne =
    let far = apart p q ne in
    rgb_eq (ground (arith, byte_at-put_pixel bytes (p * 4) (q * 4) c h))
      (ground (arith, byte_at-put_pixel bytes (p * 4) (q * 4 + 1) c h))
      (ground (arith, byte_at-put_pixel bytes (p * 4) (q * 4 + 2) c h))
  where
    apart : (p q : ℕ) → p ≢ q → (p * 4 + 3 < q * 4) ⊎ (q * 4 + 3 < p * 4)
    apart p q ne = elim (lt_or_eq p q) [
      | inl lt ↦ inl (omega arith)
      | inr (inl gt) ↦ inr (omega arith)
      | inr (inr e) ↦ absurd (ne e)
    ]

pixel-put_pixel :
    (f : FrameBufferInfo) (bytes : List ℕ) (x y : ℕ) (c : Rgb) (u v : ℕ)
    → Fits f bytes
    → x < f.width
    → y < f.height
    → u < f.width
    → pixel f (put_pixel bytes (offset f x y) (arrange f.pixel_format c)) u v
      ≡ (if u == x && v == y then c else pixel f bytes u v)
pixel-put_pixel f bytes x y c u v t hx hy hu =
    let low = offset_lt f.stride f.height x y (omega (arith, t.lines)) hy in
    let inside : (y * f.stride + x) * 4 + 3 < length bytes = omega (arith, low, t.area, t.len) in
    elim (Bool-cases (u == x && v == y)) [
      | inl e ↦
          let u_x : x ≡ u = ground arith in
          let v_y : y ≡ v = ground arith in
          rw e (
            subst
              (λ q.
                arrange f.pixel_format
                  (bytes_of (put_pixel bytes (offset f x y) (arrange f.pixel_format c)) q)
                ≡ c)
              (λ i. v_y i * f.stride + u_x i)
              (ap (arrange f.pixel_format)
                  (bytes_of-put_self bytes (y * f.stride + x) (arrange f.pixel_format c) inside)
                ∙ arrange-arrange f.pixel_format c))
      | inr e ↦
          let differ : (x ≢ u) ⊎ (y ≢ v) = differs x y u v e in
          rw e (
            ap (arrange f.pixel_format) (
              bytes_of-put_ne bytes (y * f.stride + x) (v * f.stride + u) (arrange f.pixel_format c)
                inside
                (offset_ne f.stride x y u v (omega (arith, t.lines)) (omega (arith, t.lines))
                  differ)))
    ]
  where
    differs : (x y u v : ℕ) → (u == x && v == y) ≡ false → (x ≢ u) ⊎ (y ≢ v)
    differs x y u v e = elim (Bool-cases (u == x)) [
      | inl p ↦ inr (λ q. ground arith)
      | inr p ↦ inl (λ q. ground arith)
    ]

pub write_pixel-Draws :
    (f : FrameBufferInfo) (before w : Writer) (img : Image) (x y : ℕ) (c : Rgb)
    → Draws f before img w
    → Returns
        (write_pixel x y c w)
        (Draws f before (λ u v. if u == x && v == y then c else img u v))
write_pixel-Draws f before w img x y c d = elim (Bool-cases (leb f.width x || leb f.height y)) [
  | inl e ↦ (
    w,
    write_pixel_outside x y c w f d.framebuffer (ground arith),
    record {
      same = d.same;
      framebuffer = d.framebuffer;
      fits = d.fits;
      image = λ u v hu hv. ground (arith, d.image u v hu hv);
    },
  )
  | inr e ↦
      let hx : x < f.width = ground arith in
      let hy : y < f.height = ground arith in
      let bytes = put_pixel w.bytes (offset f x y) (arrange f.pixel_format c) in
      (
        record w { bytes = bytes },
        write_pixel_inside x y c w f d.framebuffer d.fits hx hy,
        record {
          same = ap (λ (v : Writer). record v { bytes = bytes }) d.same;
          framebuffer = d.framebuffer;
          fits = record {
            len = length-put_pixel w.bytes (offset f x y) (arrange f.pixel_format c) ∙ d.fits.len;
            small = d.fits.small;
            lines = d.fits.lines;
            tall = d.fits.tall;
            area = d.fits.area;
          };
          image = λ u v hu hv.
              pixel-put_pixel f w.bytes x y c u v d.fits hx hy hu
              ∙ ap (λ (r : Rgb). if u == x && v == y then c else r) (d.image u v hu hv);
        },
      )
]
