-- ===== src/Conversion/Pixels/Geometry.antt =====
-- How the pixels of a frame lie in its memory, for the layouts that vf_framebuffer_alloc sets up.
use vision_flow.Base.{
  ℕ, ◌+◌, ◌*◌, ◌/◌, ◌%◌, ◌^◌, ◌≤◌, ◌<◌, ◌≡◌, ap, List, arith, length, ◌⊎◌, inl, inr,
}
use vision_flow.Framebuffer.{Framebuffer, mul32}
use vision_flow.Conversion.Pixels.{stride, plane_size, rgb_at}

abbrev pub rows : Framebuffer → ℕ
rows fb = fb.params.height

abbrev pub columns : Framebuffer → ℕ
columns fb = fb.params.width

-- One plane, n bytes to a pixel.
pub record IsPacked (n : ℕ) (fb : Framebuffer) (bs : List ℕ) : Type 0 where
  pub line : columns fb * n ≤ stride fb 0
  pub whole : stride fb 0 * rows fb ≤ length bs
  pub small : length bs < 2 ^ 32

-- A plane of luma and two of chroma, which has half the rows and half the columns.
pub record IsPlanar (fb : Framebuffer) (bs : List ℕ) : Type 0 where
  pub line : columns fb ≤ stride fb 0
  pub u_line : columns fb / 2 ≤ stride fb 1
  pub v_line : columns fb / 2 ≤ stride fb 2
  pub luma : plane_size fb 0 ≡ stride fb 0 * rows fb
  pub u_size : plane_size fb 1 ≡ stride fb 1 * (rows fb / 2)
  pub v_size : plane_size fb 2 ≡ stride fb 2 * (rows fb / 2)
  pub whole : length bs ≡ plane_size fb 0 + plane_size fb 1 + plane_size fb 2
  pub small : length bs < 2 ^ 32

-- A plane of luma and one where the two chromas alternate.
pub record IsSemiPlanar (fb : Framebuffer) (bs : List ℕ) : Type 0 where
  pub line : columns fb ≤ stride fb 0
  pub uv_line : columns fb ≤ stride fb 1
  pub luma : plane_size fb 0 ≡ stride fb 0 * rows fb
  pub whole : length bs ≡ plane_size fb 0 + stride fb 1 * (rows fb / 2)
  pub small : length bs < 2 ^ 32

pub row_end : (y h s : ℕ) → y < h → y * s + s ≤ s * h
row_end y h s lt = grind arith

next_row : (y z s : ℕ) → y < z → y * s + s ≤ z * s
next_row y z s lt = grind arith

-- A place in a row tells the row and the offset.
pub same_place : (y z s o p : ℕ) → o < s → p < s → y * s + o ≡ z * s + p → (y ≡ z) × (o ≡ p)
same_place y z s o p ho hp e = elim (order y z) [
  | inl lt ↦ absurd (omega (arith, next_row y z s lt))
  | inr (inl lt) ↦ absurd (omega (arith, next_row z y s lt))
  | inr (inr same) ↦ (same, omega (arith, ap (λ (t : ℕ). t * s) same))
]
  where
    order : (y z : ℕ) → (y < z) ⊎ ((z < y) ⊎ (y ≡ z))
    order y z = omega arith

-- Without a wrap, row y starts at y times the stride.
pub mul32_row : (y h s len : ℕ) → y < h → s * h ≤ len → len < 2 ^ 32 → mul32 y s ≡ y * s
mul32_row y h s len lt le small = omega (arith, row_end y h s lt)

-- Where byte k of pixel x in row y of a packed frame lies.
abbrev pub place : Framebuffer → ℕ → ℕ → ℕ → ℕ
place fb y x k = y * stride fb 0 + (3 * x + k)

pub rgb_at-place :
    (fb : Framebuffer) (bs : List ℕ) (y x k : ℕ)
    → IsPacked 3 fb bs
    → y < rows fb
    → x < columns fb
    → k < 3
    → (rgb_at fb y x k ≡ place fb y x k) × (place fb y x k < length bs)
rgb_at-place fb bs y x k g hy hx hk = (
  omega (arith, g.line, g.whole, g.small, row_end y (rows fb) (stride fb 0) hy),
  omega (arith, g.line, g.whole, row_end y (rows fb) (stride fb 0) hy),
)

-- Even numbers of rows and columns.
abbrev pub IsEven : Framebuffer → Type 0
IsEven fb = (rows fb % 2 ≡ 0) × (columns fb % 2 ≡ 0)
