-- ===== src/Conversion/Pixels/FromRgb.antt =====
-- The routines that read RGB and write planes of luma and chroma.
use vision_flow.Base.{ℕ, zero, suc, ◌<◌, ◌≡◌, ap, ◌∙◌, some, List, arith, length, get_or}
use vision_flow.Error.{success}
use vision_flow.Framebuffer.{Framebuffer}
use vision_flow.Conversion.{ConvertFn, rgb888_to_yuv420p, bgr888_to_yuv420p, rgb888_to_nv12}
use vision_flow.Conversion.Memory.{◌>>=◌, Write, peek}
use vision_flow.Conversion.Pixels.{rgb_at, rgb_pixel, planar_writes, nv12_writes, loops, convert}
use vision_flow.Conversion.Pixels.Geometry.{
  rows, columns, IsPacked, IsPlanar, IsSemiPlanar, place, rgb_at-place, IsEven,
}
use vision_flow.Conversion.Pixels.Checks.{IsPair, convert_lem, peek_at, three_reads}
use vision_flow.Conversion.Pixels.Planar.{ShowsPlanar, paint-ShowsPlanar}
use vision_flow.Conversion.Pixels.SemiPlanar.{ShowsSemiPlanar, paint-ShowsSemiPlanar}

-- The picture that an RGB memory holds, red at one place of the pixel and blue at another.
abbrev pub colour : ℕ → ℕ → Framebuffer → List ℕ → ℕ → ℕ → ℕ → ℕ
colour red blue src bs y x zero = get_or bs (place src y x red) 0
colour red blue src bs y x (suc zero) = get_or bs (place src y x 1) 0
colour red blue src bs y x (suc (suc k)) = get_or bs (place src y x blue) 0

pub rgb_pixel_lem :
    (writes : Framebuffer → ℕ → ℕ → ℕ → ℕ → ℕ → List Write) (red blue : ℕ) (src dst : Framebuffer)
    (bs : List ℕ) (y x : ℕ)
    → red < 3
    → blue < 3
    → IsPacked 3 src bs
    → y < rows src
    → x < columns src
    → rgb_pixel writes red blue bs src dst y x
      ≡ (let c = colour red blue src bs y x in some (writes dst y x (c 0) (c 1) (c 2)))
unfolding rgb_pixel
rgb_pixel_lem writes red blue src dst bs y x hr hb g hy hx =
    three_reads _ _ _ _ _ _ (writes dst y x) (read red hr) (read 1 (omega arith)) (read blue hb)
  where
    read : (k : ℕ) → k < 3 → peek bs (rgb_at src y x k) ≡ some (get_or bs (place src y x k) 0)
    read k hk = let p = rgb_at-place src bs y x k g hy hx hk in peek_at bs _ _ p.0 p.1

-- What a conversion to YUV420P leaves.
abbrev pub ShownPlanar : ConvertFn → Framebuffer → Framebuffer → List ℕ → (ℕ → ℕ → ℕ → ℕ) → Type 0
ShownPlanar fn src dst m f =
    (m' : List ℕ) × (convert fn src dst ≡ some (success, record dst { bytes = some m' }))
    × (length m' ≡ length m)
    × ShowsPlanar dst m' f

loops-ShownPlanar :
    (fn : ConvertFn) (src dst : Framebuffer) (bs m : List ℕ) (f : ℕ → ℕ → ℕ → ℕ)
    → IsPair src dst bs m
    → ((m' : List ℕ) × (loops fn src dst (rows dst) (columns dst) bs m ≡ some m')
        × (length m' ≡ length m)
        × ShowsPlanar dst m' f)
    → ShownPlanar fn src dst m f
loops-ShownPlanar fn src dst bs m f p (m', e, l, s) = (
  m',
  convert_lem fn src dst bs m p
      ∙ ap (λ r. r >>= λ b. some (success, record dst { bytes = some b })) e,
  l,
  s,
)

-- Between two frames of the same even dimensions, as the library lays them out, the conversions of
-- RGB888 and of BGR888 to YUV420P succeed without an access outside either memory. They give every
-- pixel its luma and every 2x2 block the two chromas of its first pixel, by the formulas of BT.601, and
-- differ only in which byte of a pixel is red and which is blue.
pub rgb-ShownPlanar :
    (src dst : Framebuffer) (bs m : List ℕ)
    → IsPair src dst bs m
    → IsEven dst
    → IsPacked 3 src bs
    → IsPlanar dst m
    → ShownPlanar rgb888_to_yuv420p src dst m (colour 0 2 src bs)
      × ShownPlanar bgr888_to_yuv420p src dst m (colour 2 0 src bs)
unfolding loops
rgb-ShownPlanar src dst bs m p e s g = (
  loops-ShownPlanar rgb888_to_yuv420p src dst bs m _ p (
      paint-ShowsPlanar dst m g e (colour 0 2 src bs) _ (λ y x hy hx.
        rgb_pixel_lem planar_writes 0 2 src dst bs y x (omega arith) (omega arith) s
          (omega (arith, p.height)) (omega (arith, p.width)))),
  loops-ShownPlanar bgr888_to_yuv420p src dst bs m _ p (
      paint-ShowsPlanar dst m g e (colour 2 0 src bs) _ (λ y x hy hx.
        rgb_pixel_lem planar_writes 2 0 src dst bs y x (omega arith) (omega arith) s
          (omega (arith, p.height)) (omega (arith, p.width)))),
)

-- Between two frames of the same even dimensions, as the library lays them out, the conversion of RGB888
-- to NV12 succeeds without an access outside either memory. It gives every pixel its luma and every 2x2
-- block the two chromas of its first pixel, by the formulas of BT.601.
pub rgb-ShownSemiPlanar :
    (src dst : Framebuffer) (bs m : List ℕ)
    → IsPair src dst bs m
    → IsEven dst
    → IsPacked 3 src bs
    → IsSemiPlanar dst m
    → (m' : List ℕ) × (convert rgb888_to_nv12 src dst
        ≡ some (success, record dst { bytes = some m' }))
      × (length m' ≡ length m)
      × ShowsSemiPlanar dst m' (colour 0 2 src bs)
unfolding loops
rgb-ShownSemiPlanar src dst bs m p e s g =
    let (m', r, l, shows) =
      paint-ShowsSemiPlanar dst m g e (colour 0 2 src bs) (rgb_pixel nv12_writes 0 2 bs src dst)
        (λ y x hy hx.
          rgb_pixel_lem nv12_writes 0 2 src dst bs y x (omega arith) (omega arith) s
            (omega (arith, p.height)) (omega (arith, p.width))) in
    (
      m',
      convert_lem rgb888_to_nv12 src dst bs m p
          ∙ ap (λ r. r >>= λ b. some (success, record dst { bytes = some b })) r,
      l,
      shows,
    )
