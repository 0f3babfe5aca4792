-- ===== src/Screen/Loops.antt =====
-- The loops of src/vga_buffer.rs over rows and rectangles of pixels.
use open_kernel.Base.{
  ℕ, suc, ◌+◌, ◌-◌, ◌<◌, ◌≡◌, ◌∙◌, inl, inr, ap, subst, ◌&&◌, Option, ltb, leb, ◌==◌, nat_eq,
  if◌then◌else◌, for_range, arith, Bool-cases, Returns, Returns-weaken, for_range_inv,
}
use open_kernel.BootInfo.{FrameBufferInfo}
use open_kernel.Screen.{Writer, Rgb, write_pixel}
use open_kernel.Screen.Image.{Image, Draws, write_pixel-Draws}

pub Draws-image :
    (f : FrameBufferInfo) (before w : Writer) (img other : Image)
    → Draws f before img w
    → ((u v : ℕ) → u < f.width → v < f.height → img u v ≡ other u v)
    → Draws f before other w
Draws-image f before w img other d e = record {
  same = d.same;
  framebuffer = d.framebuffer;
  fits = d.fits;
  image = λ u v hu hv. d.image u v hu hv ∙ e u v hu hv;
}

-- `n` pixels of the line `y` from `x` on.
abbrev pub row_image : Image → ℕ → ℕ → ℕ → (ℕ → Rgb) → Image
row_image img x y n c u v = if v == y && leb x u && ltb u (x + n) then c (u - x) else img u v

row_start : (img : Image) (x y : ℕ) (c : ℕ → Rgb) (u v : ℕ) → img u v ≡ row_image img x y 0 c u v
row_start img x y c u v = ground arith

row_step :
    (img : Image) (x y k : ℕ) (c : ℕ → Rgb) (u v : ℕ)
    → (if u == x + k && v == y then c k else row_image img x y k c u v)
      ≡ row_image img x y (suc k) c u v
row_step img x y k c u v = elim (Bool-cases (u == x + k)) [
  | inl e ↦ let here : u - x ≡ k = ground arith in ground (arith, ap c here)
  | inr e ↦ ground arith
]

pub row-Draws :
    (f : FrameBufferInfo) (before w : Writer) (img : Image) (at : ℕ → ℕ) (x y n : ℕ) (c : ℕ → Rgb)
    → ((k : ℕ) → at k ≡ x + k)
    → Draws f before img w
    → Returns
        (for_range 0 n (λ k. write_pixel (at k) y (c k)) w)
        (Draws f before (row_image img x y n c))
row-Draws f before w img at x y n c h d =
    Returns-weaken (for_range 0 n (λ k. write_pixel (at k) y (c k)) w)
      (Draws f before (row_image img x y (0 + n) c)) (Draws f before (row_image img x y n c))
      (for_range_inv (λ k w. Draws f before (row_image img x y k c) w) 0 n
        (λ k. write_pixel (at k) y (c k)) w
        (λ k t l b p.
          Returns-weaken (write_pixel (at k) y (c k) t)
            (Draws f before (λ u v. if u == at k && v == y then c k else row_image img x y k c u v))
            (Draws f before (row_image img x y (suc k) c))
            (write_pixel-Draws f before t (row_image img x y k c) (at k) y (c k) p)
            (λ r q.
              Draws-image f before r _ _ q (λ u v hu hv. rw (h k) (row_step img x y k c u v))))
        (Draws-image f before w img (row_image img x y 0 c) d
          (λ u v hu hv. row_start img x y c u v)))
      (λ t p. Draws-image f before t _ _ p (λ u v hu hv. ground arith))

-- The lines from `y + top` on, `n` of them, each with `m` pixels from `x` on.
abbrev pub area_image : Image → ℕ → ℕ → ℕ → ℕ → ℕ → (ℕ → ℕ → Rgb) → Image
area_image img x y top n m c u v =
    if leb (y + top) v && ltb v (y + top + n) && leb x u && ltb u (x + m)
    then c (v - y) (u - x)
    else img u v

area_step :
    (img : Image) (x y top k m : ℕ) (c : ℕ → ℕ → Rgb) (u v : ℕ)
    → row_image (area_image img x y top k m c) x (y + (top + k)) m (c (top + k)) u v
      ≡ area_image img x y top (suc k) m c u v
area_step img x y top k m c u v = elim (Bool-cases (v == y + (top + k))) [
  | inl e ↦
      let here : v - y ≡ top + k = ground arith in ground (arith, ap (λ (l : ℕ). c l (u - x)) here)
  | inr e ↦ ground arith
]

pub area-Draws :
    (f : FrameBufferInfo) (before w : Writer) (img : Image) (rows : ℕ → Writer → Option Writer)
    (x y top n m : ℕ) (c : ℕ → ℕ → Rgb)
    → ((k : ℕ) (t : Writer) (i : Image)
        → k < top + n
        → Draws f before i t
        → Returns (rows k t) (Draws f before (row_image i x (y + k) m (c k))))
    → Draws f before img w
    → Returns (for_range top n rows w) (Draws f before (area_image img x y top n m c))
area-Draws f before w img rows x y top n m c line d =
    Returns-weaken (for_range top n rows w) (P (top + n))
      (Draws f before (area_image img x y top n m c))
      (for_range_inv P top n rows w
        (λ k t l b p.
          Returns-weaken (rows k t) _ (P (suc k))
            (line k t (area_image img x y top (k - top) m c) b p)
            (λ r q. Draws-image f before r _ _ q (λ u v hu hv.
              let here : top + (k - top) ≡ k = omega arith in
              let next : suc k - top ≡ suc (k - top) = omega arith in
              rw next (
                subst
                  (λ j.
                    row_image (area_image img x y top (k - top) m c) x (y + j) m (c j) u v
                    ≡ area_image img x y top (suc (k - top)) m c u v)
                  here (area_step img x y top (k - top) m c u v)))))
        (Draws-image f before w img (area_image img x y top (top - top) m c) d
          (λ u v hu hv. ground arith)))
      (λ t p.
        Draws-image f before t _ _ p (λ u v hu hv. let e : top + n - top ≡ n = omega arith in rw e))
  where
    P : ℕ → Writer → Type 0
    P k t = Draws f before (area_image img x y top (k - top) m c) t
