-- ===== src/Conversion/Pixels/ToRgb.antt =====
-- The routines that write RGB: every byte of every pixel.
use vision_flow.Base.{
  ℕ, zero, suc, ◌+◌, ◌*◌, ◌/◌, ◌<◌, ◌≡◌, refl, ap, sym, ◌∙◌, Option, some, List, [], ◌∷◌, arith,
  length, get_or, inl, inr,
}
use vision_flow.Error.{success}
use vision_flow.Framebuffer.{Framebuffer}
use vision_flow.Conversion.{ConvertFn, yuv420p_to_rgb888, nv12_to_rgb888, raw8_to_rgb888}
use vision_flow.Conversion.Color.{yuv_to_r, yuv_to_g, yuv_to_b}
use vision_flow.Conversion.Memory.{◌>>=◌, Write, write, paint}
use vision_flow.Conversion.Memory.Writes.{Inside, Agrees, Writes, paint-Wrote, painted}
use vision_flow.Conversion.Pixels.{
  stride, rgb_at, rgb_writes, u_plane, v_plane, centred, raw8_rgb_pixel, planar_pixel, nv12_pixel,
  loops, convert,
}
use vision_flow.Conversion.Pixels.Geometry.{
  rows, columns, IsPacked, IsPlanar, IsSemiPlanar, place, rgb_at-place, same_place, row_end, IsEven,
}
use vision_flow.Conversion.Pixels.Checks.{IsPair, convert_lem, peek_at, three_reads}

-- The three bytes of a pixel, from a function of the component.
abbrev pub three : Framebuffer → (ℕ → ℕ → ℕ → ℕ) → ℕ → ℕ → List Write
three dst f y x =
    write (rgb_at dst y x 0) (f y x 0)
    ∷ write (rgb_at dst y x 1) (f y x 1)
    ∷ write (rgb_at dst y x 2) (f y x 2)
    ∷ []

-- The memory shows this picture.
abbrev pub Shows : Framebuffer → List ℕ → (ℕ → ℕ → ℕ → ℕ) → Type 0
Shows fb m f =
    (y x k : ℕ) → y < rows fb → x < columns fb → k < 3 → get_or m (place fb y x k) 0 ≡ f y x k

module _ (dst : Framebuffer) (m : List ℕ) (g : IsPacked 3 dst m) (f : ℕ → ℕ → ℕ → ℕ) where
  three-Inside : (y x : ℕ) → y < rows dst → x < columns dst → Inside (length m) (three dst f y x)
  three-Inside y x hy hx = (at 0 (omega arith), (at 1 (omega arith), (at 2 (omega arith), tt)))
    where
      at : (k : ℕ) → k < 3 → rgb_at dst y x k < length m
      at k hk = let p = rgb_at-place dst m y x k g hy hx hk in omega (arith, p.0, p.1)

  same_byte :
      (j i l y x k : ℕ)
      → j < rows dst
      → i < columns dst
      → l < 3
      → y < rows dst
      → x < columns dst
      → k < 3
      → rgb_at dst j i l ≡ place dst y x k
      → f j i l ≡ f y x k
  same_byte j i l y x k hj hi hl hy hx hk e =
      let p = rgb_at-place dst m j i l g hj hi hl in
      let s =
        same_place j y (stride dst 0) (3 * i + l) (3 * x + k) (omega (arith, g.line))
          (omega (arith, g.line)) (sym p.0 ∙ e) in
      let same_x : i ≡ x = omega (arith, s.1) in
      let same_k : l ≡ k = omega (arith, s.1) in
      ap (λ t. f t i l) s.0 ∙ ap (λ t. f y t l) same_x ∙ ap (λ t. f y x t) same_k

  three-Agrees :
      (j i y x k : ℕ)
      → j < rows dst
      → i < columns dst
      → y < rows dst
      → x < columns dst
      → k < 3
      → Agrees (place dst y x k) (f y x k) (three dst f j i)
  three-Agrees j i y x k hj hi hy hx hk = (
    same_byte j i 0 y x k hj hi (omega arith) hy hx hk,
    (
      same_byte j i 1 y x k hj hi (omega arith) hy hx hk,
      (same_byte j i 2 y x k hj hi (omega arith) hy hx hk, tt),
    ),
  )

  three-Writes :
      (y x k : ℕ)
      → y < rows dst
      → x < columns dst
      → k < 3
      → Writes (place dst y x k) (f y x k) (three dst f y x)
  three-Writes y x zero hy hx hk = inl ((rgb_at-place dst m y x 0 g hy hx (omega arith)).0, refl)
  three-Writes y x (suc zero) hy hx hk =
      inr (inl ((rgb_at-place dst m y x 1 g hy hx (omega arith)).0, refl))
  three-Writes y x (suc (suc zero)) hy hx hk =
      inr (inr (inl ((rgb_at-place dst m y x 2 g hy hx (omega arith)).0, refl)))
  three-Writes y x (suc (suc (suc k))) hy hx hk = absurd (omega arith)

  -- Loops whose pixels write these bytes end, and the memory shows the picture.
  pub paint-Shows :
      (pixel : ℕ → ℕ → Option (List Write))
      → ((y x : ℕ) → y < rows dst → x < columns dst → pixel y x ≡ some (three dst f y x))
      → (m' : List ℕ) × (paint pixel (rows dst) (columns dst) m ≡ some m')
        × (length m' ≡ length m)
        × Shows dst m' f
  paint-Shows pixel reads =
      let w = paint-Wrote pixel (three dst f) (rows dst) (columns dst) reads m three-Inside in
      (
        w.0,
        w.1,
        w.2.kept,
        λ y x k hy hx hk.
            painted pixel (three dst f) (rows dst) (columns dst) reads m w.0 y x (place dst y x k)
              (f y x k) w.2 hy hx (three-Writes y x k hy hx hk)
              (rgb_at-place dst m y x k g hy hx hk).1
              (λ j i hj hi. three-Agrees j i y x k hj hi hy hx hk),
      )

-- A component of the colour that luma and chromas stand for: 0 is red, 1 green, 2 blue.
abbrev pub component : ℕ → ℕ → ℕ → ℕ → ℕ
component l u v zero = yuv_to_r (centred l 16) (centred v 128)
component l u v (suc zero) = yuv_to_g (centred l 16) (centred u 128) (centred v 128)
component l u v (suc (suc k)) = yuv_to_b (centred l 16) (centred u 128)

-- The picture that a YUV420P memory holds: each 2x2 block shares its chromas.
abbrev pub planar_picture : Framebuffer → List ℕ → ℕ → ℕ → ℕ → ℕ
planar_picture src bs y x =
    component (get_or bs (y * stride src 0 + x) 0)
      (get_or bs (u_plane src + (y / 2 * stride src 1 + x / 2)) 0)
      (get_or bs (v_plane src + (y / 2 * stride src 2 + x / 2)) 0)

-- The same for NV12, where the chromas of a block lie side by side.
abbrev pub nv12_picture : Framebuffer → List ℕ → ℕ → ℕ → ℕ → ℕ
nv12_picture src bs y x =
    component (get_or bs (y * stride src 0 + x) 0)
      (get_or bs (u_plane src + (y / 2 * stride src 1 + 2 * (x / 2))) 0)
      (get_or bs (u_plane src + (y / 2 * stride src 1 + 2 * (x / 2) + 1)) 0)

planar_pixel_lem :
    (src dst : Framebuffer) (bs : List ℕ) (y x : ℕ)
    → IsPlanar src bs
    → IsEven src
    → y < rows src
    → x < columns src
    → planar_pixel bs src dst y x ≡ some (three dst (planar_picture src bs) y x)
unfolding planar_pixel
planar_pixel_lem src dst bs y x g e hy hx =
    let half : y / 2 < rows src / 2 = omega arith in
    let l = row_end y (rows src) (stride src 0) hy in
    let u = row_end (y / 2) (rows src / 2) (stride src 1) half in
    let v = row_end (y / 2) (rows src / 2) (stride src 2) half in
    three_reads _ _ _ _ _ _
      (λ l u v. rgb_writes dst y x (centred l 16) (centred u 128) (centred v 128))
      (peek_at bs _ _ (omega arith) (omega arith)) (peek_at bs _ _ (omega arith) (omega arith))
      (peek_at bs _ _ (omega arith) (omega arith))

nv12_pixel_lem :
    (src dst : Framebuffer) (bs : List ℕ) (y x : ℕ)
    → IsSemiPlanar src bs
    → IsEven src
    → y < rows src
    → x < columns src
    → nv12_pixel bs src dst y x ≡ some (three dst (nv12_picture src bs) y x)
unfolding nv12_pixel
nv12_pixel_lem src dst bs y x g e hy hx =
    let half : y / 2 < rows src / 2 = omega arith in
    let l = row_end y (rows src) (stride src 0) hy in
    let uv = row_end (y / 2) (rows src / 2) (stride src 1) half in
    three_reads _ _ _ _ _ _
      (λ l u v. rgb_writes dst y x (centred l 16) (centred u 128) (centred v 128))
      (peek_at bs _ _ (omega arith) (omega arith)) (peek_at bs _ _ (omega arith) (omega arith))
      (peek_at bs _ _ (omega arith) (omega arith))

raw8_pixel_lem :
    (src dst : Framebuffer) (bs : List ℕ) (y x : ℕ)
    → IsPacked 1 src bs
    → y < rows src
    → x < columns src
    → raw8_rgb_pixel bs src dst y x
      ≡ some (three dst (λ y x k. get_or bs (y * stride src 0 + x) 0) y x)
unfolding raw8_rgb_pixel
raw8_pixel_lem src dst bs y x g hy hx =
    let l = row_end y (rows src) (stride src 0) hy in
    ap (λ t. t >>= λ v. some (three dst (λ _ _ _. v) y x))
      (peek_at bs _ (y * stride src 0 + x) (omega arith) (omega arith))

-- What a conversion to RGB888 leaves: it succeeds, the memory keeps its length, and it shows the
-- picture.
abbrev pub Shown : ConvertFn → Framebuffer → Framebuffer → List ℕ → (ℕ → ℕ → ℕ → ℕ) → Type 0
Shown fn src dst m f =
    (m' : List ℕ) × (convert fn src dst ≡ some (success, record dst { bytes = some m' }))
    × (length m' ≡ length m)
    × Shows dst m' f

-- What the loops leave is what the conversion leaves.
pub loops-Shown :
    (fn : ConvertFn) (src dst : Framebuffer) (bs m : List ℕ) (f : ℕ → ℕ → ℕ → ℕ)
    → IsPair src dst bs m
    → ((m' : List ℕ) × (loops fn src dst (rows dst) (columns dst) bs m ≡ some m')
        × (length m' ≡ length m)
        × Shows dst m' f)
    → Shown fn src dst m f
loops-Shown fn src dst bs m f p (m', e, l, s) = (
  m',
  convert_lem fn src dst bs m p
      ∙ ap (λ r. r >>= λ b. some (success, record dst { bytes = some b })) e,
  l,
  s,
)

-- Between two frames of the same even dimensions, as the library lays them out, the conversion of
-- YUV420P to RGB888 succeeds without an access outside either memory, and gives every pixel the colour
-- of its luma and of the chromas of its 2x2 block, by the formulas of BT.601.
pub planar-Shown :
    (src dst : Framebuffer) (bs m : List ℕ)
    → IsPair src dst bs m
    → IsEven src
    → IsPlanar src bs
    → IsPacked 3 dst m
    → Shown yuv420p_to_rgb888 src dst m (planar_picture src bs)
unfolding loops
planar-Shown src dst bs m p e s g = loops-Shown yuv420p_to_rgb888 src dst bs m _ p (
    paint-Shows dst m g (planar_picture src bs) _ (λ y x hy hx.
      planar_pixel_lem src dst bs y x s e (omega (arith, p.height)) (omega (arith, p.width))))

-- The same for the conversion of NV12 to RGB888.
pub nv12-Shown :
    (src dst : Framebuffer) (bs m : List ℕ)
    → IsPair src dst bs m
    → IsEven src
    → IsSemiPlanar src bs
    → IsPacked 3 dst m
    → Shown nv12_to_rgb888 src dst m (nv12_picture src bs)
unfolding loops
nv12-Shown src dst bs m p e s g = loops-Shown nv12_to_rgb888 src dst bs m _ p (
    paint-Shows dst m g (nv12_picture src bs) _ (λ y x hy hx.
      nv12_pixel_lem src dst bs y x s e (omega (arith, p.height)) (omega (arith, p.width))))

-- A grey picture: the three components of a pixel are its byte.
abbrev pub grey_picture : Framebuffer → List ℕ → ℕ → ℕ → ℕ → ℕ
grey_picture src bs y x k = get_or bs (y * stride src 0 + x) 0

-- Between two frames of the same dimensions, as the library lays them out, the conversion of RAW8 to
-- RGB888 succeeds without an access outside either memory, and makes every pixel a grey of its level.
pub raw8-Shown :
    (src dst : Framebuffer) (bs m : List ℕ)
    → IsPair src dst bs m
    → IsPacked 1 src bs
    → IsPacked 3 dst m
    → Shown raw8_to_rgb888 src dst m (grey_picture src bs)
unfolding loops
raw8-Shown src dst bs m p s g = loops-Shown raw8_to_rgb888 src dst bs m _ p (
    paint-Shows dst m g (grey_picture src bs) _ (λ y x hy hx.
      raw8_pixel_lem src dst bs y x s (omega (arith, p.height)) (omega (arith, p.width))))
