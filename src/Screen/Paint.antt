-- ===== src/Screen/Paint.antt =====
-- What the loops over pixels of src/vga_buffer.rs leave on the screen.
use open_kernel.Base.{
  ℕ, ◌+◌, ◌*◌, ◌^◌, ◌≤◌, ◌<◌, ◌≡◌, ◌≢◌, ◌∙◌, ◌⊎◌, inl, inr, ap, none, some, List, lt→ltb, nat_eq,
  length, get_elem?, set, usize, arith, length-set,
}
use open_kernel.BootInfo.{FrameBufferInfo}
use open_kernel.Screen.{Writer, Rgb, arrange, write_volatile, store_pixel, write_pixel}

-- The frame buffer holds the pixels that its mode says, in lines of at least its width.
pub record Fits (f : FrameBufferInfo) (bytes : List ℕ) : Type 0 where
  pub len : length bytes ≡ f.byte_len
  pub small : f.byte_len < 2 ^ 64
  pub lines : f.width ≤ f.stride
  pub tall : f.height < 2 ^ 64
  pub area : f.stride * f.height * 4 ≤ f.byte_len

-- The byte at an offset, 0 outside the frame buffer.
abbrev pub byte_at : List ℕ → ℕ → ℕ
byte_at bytes i = elim (get_elem? bytes i) [ none ↦ 0 | some b ↦ b ]

abbrev pub offset : FrameBufferInfo → ℕ → ℕ → ℕ
offset f x y = (y * f.stride + x) * 4

-- The color that a pixel shows.
abbrev pub pixel : FrameBufferInfo → List ℕ → ℕ → ℕ → Rgb
pixel f bytes x y = arrange f.pixel_format (
  byte_at bytes (offset f x y),
  byte_at bytes (offset f x y + 1),
  byte_at bytes (offset f x y + 2),
)

pub lt_or_eq : (a b : ℕ) → (a < b) ⊎ (b < a) ⊎ (a ≡ b)
lt_or_eq a b = omega arith

pub offset_lt : (s h x y : ℕ) → x < s → y < h → (y * s + x) * 4 + 3 < s * h * 4
offset_lt s h x y a b = grind arith

line_le : (s y v : ℕ) → y < v → y * s + s ≤ v * s
line_le s y v h = grind arith

pub offset_ne : (s x y u v : ℕ) → x < s → u < s → (x ≢ u) ⊎ (y ≢ v) → y * s + x ≢ v * s + u
offset_ne s x y u v a b (inl ne) e = elim (lt_or_eq y v) [
  | inl lt ↦ omega (arith, line_le s y v lt)
  | inr (inl gt) ↦ omega (arith, line_le s v y gt)
  | inr (inr same) ↦ ne (omega (arith, ap (λ (t : ℕ). t * s) same))
]
offset_ne s x y u v a b (inr ne) e = elim (lt_or_eq y v) [
  | inl lt ↦ omega (arith, line_le s y v lt)
  | inr (inl gt) ↦ omega (arith, line_le s v y gt)
  | inr (inr same) ↦ ne same
]

pub write_volatile_lem :
    (i v : ℕ) (w : Writer)
    → i < length w.bytes
    → write_volatile i v w ≡ some (record w { bytes = set w.bytes i v })
unfolding write_volatile
write_volatile_lem i v w h = rw (lt→ltb i (length w.bytes) h)

-- The four bytes of a pixel.
abbrev pub put_pixel : List ℕ → ℕ → Rgb → List ℕ
put_pixel bytes i (a, b, c) = set (set (set (set bytes i a) (i + 1) b) (i + 2) c) (i + 3) 0

pub length-put_pixel :
    (bytes : List ℕ) (i : ℕ) (c : Rgb) → length (put_pixel bytes i c) ≡ length bytes
length-put_pixel bytes i (a, b, c) =
    length-set (set (set (set bytes i a) (i + 1) b) (i + 2) c) (i + 3) 0
    ∙ length-set (set (set bytes i a) (i + 1) b) (i + 2) c
    ∙ length-set (set bytes i a) (i + 1) b
    ∙ length-set bytes i a

store_pixel_lem :
    (i : ℕ) (c : Rgb) (w : Writer)
    → i + 3 < length w.bytes
    → store_pixel i c w ≡ some (record w { bytes = put_pixel w.bytes i c })
unfolding store_pixel
store_pixel_lem i (a, b, c) w h =
    let bytes1 = set w.bytes i a in
    let len1 = length-set w.bytes i a in
    let bytes2 = set bytes1 (i + 1) b in
    let len2 = length-set bytes1 (i + 1) b in
    let len3 = length-set bytes2 (i + 2) c in
    rw
      (
        write_volatile_lem i a w (omega arith),
        write_volatile_lem (i + 1) b (record w { bytes = bytes1 }) (omega arith),
        write_volatile_lem (i + 2) c (record w { bytes = bytes2 }) (omega arith),
      )
      (write_volatile_lem (i + 3) 0 (record w { bytes = set bytes2 (i + 2) c }) (omega arith))

no_wrap : (a x : ℕ) → (a + x) * 4 < 2 ^ 64 → usize (usize (usize a + x) * 4) ≡ (a + x) * 4
no_wrap a x h = omega arith

pub write_pixel_inside :
    (x y : ℕ) (c : Rgb) (w : Writer) (f : FrameBufferInfo)
    → w.framebuffer ≡ some f
    → Fits f w.bytes
    → x < f.width
    → y < f.height
    → write_pixel x y c w
      ≡ some (record w { bytes = put_pixel w.bytes (offset f x y) (arrange f.pixel_format c) })
unfolding write_pixel
write_pixel_inside x y c w f e v a b =
    let below = offset_lt f.stride f.height x y (omega (arith, v.lines)) b in
    rw (e, write_pixel)
      (ground (
        arith,
        no_wrap (y * f.stride) x (omega (arith, below, v.area, v.small)),
        store_pixel_lem (offset f x y) (arrange f.pixel_format c) w
            (omega (arith, below, v.area, v.len)),
      ))

pub write_pixel_outside :
    (x y : ℕ) (c : Rgb) (w : Writer) (f : FrameBufferInfo)
    → w.framebuffer ≡ some f
    → (f.width ≤ x) ⊎ (f.height ≤ y)
    → write_pixel x y c w ≡ some w
unfolding write_pixel
write_pixel_outside x y c w f e h = rw (e, write_pixel) (ground arith)
