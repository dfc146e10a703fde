-- ===== src/Conversion/Pixels.antt =====
-- The routines of vf-conversion.c that convert a frame. `none` is an access outside the memory of one
-- of the two frames. The memories of the two frames lie apart, as those of two pools do.
pub mod Geometry
pub mod Checks
pub mod Sampling
pub mod Planar
pub mod SemiPlanar
pub mod FromRgb
pub mod ToRgb
pub mod Yuyv
pub mod Overrun
pub mod Process
mod Tests
use vision_flow.Base.{
  ℕ, ◌+◌, ◌-◌, ◌*◌, ◌/◌, ◌%◌, ◌^◌, Bool, true, false, not, ◌&&◌, Option, none, some, List, [], ◌∷◌,
  ◌++◌, ◌==◌, if◌then◌else◌, get_or,
}
use vision_flow.Base.Int.{ℤ, pos, ◌-ℤ◌}
use vision_flow.Error.{VfErr, success, conv_processing_err}
use vision_flow.Framebuffer.{Framebuffer, add32, mul32, no_plane}
use vision_flow.Conversion.{
  ConvertFn, rgb888_to_yuv420p, bgr888_to_yuv420p, yuv420p_to_rgb888, rgb888_to_nv12,
  nv12_to_rgb888, raw8_to_rgb888, raw8_to_yuv420p, yuyv_to_rgb888, Context, process_at,
}
use vision_flow.Conversion.Color.{rgb_to_y, rgb_to_u, rgb_to_v, yuv_to_r, yuv_to_g, yuv_to_b}
use vision_flow.Conversion.Memory.{◌>>=◌, Write, write, write_all, peek, paint}
use vision_flow.Conversion.Memory.Writes.{gather}

abbrev pub stride : Framebuffer → ℕ → ℕ
stride fb k = (get_or fb.planes k no_plane).stride

abbrev pub plane_size : Framebuffer → ℕ → ℕ
plane_size fb k = (get_or fb.planes k no_plane).size

-- IS_UV_SAMPLE_POINT.
abbrev pub is_uv_sample_point : ℕ → ℕ → Bool
is_uv_sample_point x y = y % 2 == 0 && x % 2 == 0

-- Byte k of the three-byte pixel x in row y.
abbrev pub rgb_at : Framebuffer → ℕ → ℕ → ℕ → ℕ
rgb_at fb y x k = mul32 y (stride fb 0) + add32 (mul32 x 3) k

-- The three bytes of an RGB pixel.
abbrev pub rgb_writes : Framebuffer → ℕ → ℕ → ℤ → ℤ → ℤ → List Write
rgb_writes dst y x c d e =
    write (rgb_at dst y x 0) (yuv_to_r c e)
    ∷ write (rgb_at dst y x 1) (yuv_to_g c d e)
    ∷ write (rgb_at dst y x 2) (yuv_to_b c d)
    ∷ []

-- The planes of a YUV420P frame.
abbrev pub u_plane : Framebuffer → ℕ
u_plane fb = plane_size fb 0

abbrev pub v_plane : Framebuffer → ℕ
v_plane fb = plane_size fb 0 + plane_size fb 1

abbrev pub chroma_at : Framebuffer → ℕ → ℕ → ℕ → ℕ
chroma_at fb k y x = add32 (mul32 (y / 2) (stride fb k)) x

-- A pixel of convert_raw8_to_rgb888.
unfoldable pub raw8_rgb_pixel : List ℕ → Framebuffer → Framebuffer → ℕ → ℕ → Option (List Write)
raw8_rgb_pixel bs src dst y x = do
  pixel ← peek bs (mul32 y (stride src 0) + x)
  some (
      write (rgb_at dst y x 0) pixel
      ∷ write (rgb_at dst y x 1) pixel
      ∷ write (rgb_at dst y x 2) pixel
      ∷ [])

-- A pixel of the last loop of convert_raw8_to_yuv420p.
unfoldable pub raw8_luma_pixel : List ℕ → Framebuffer → Framebuffer → ℕ → ℕ → Option (List Write)
raw8_luma_pixel bs src dst y x = do
  pixel ← peek bs (mul32 y (stride src 0) + x)
  some (write (mul32 y (stride dst 0) + x) pixel ∷ [])

-- What a pixel of convert_rgb888_to_yuv420p writes, from its colour.
abbrev pub planar_writes : Framebuffer → ℕ → ℕ → ℕ → ℕ → ℕ → List Write
planar_writes dst y x r g b =
    write (mul32 y (stride dst 0) + x) (rgb_to_y r g b)
    ∷ (if is_uv_sample_point x y
        then write (u_plane dst + chroma_at dst 1 y (x / 2)) (rgb_to_u r g b)
          ∷ write (v_plane dst + chroma_at dst 2 y (x / 2)) (rgb_to_v r g b)
          ∷ []
        else [])

-- The same for convert_rgb888_to_nv12.
abbrev pub nv12_writes : Framebuffer → ℕ → ℕ → ℕ → ℕ → ℕ → List Write
nv12_writes dst y x r g b =
    write (mul32 y (stride dst 0) + x) (rgb_to_y r g b)
    ∷ (if is_uv_sample_point x y
        then write (u_plane dst + add32 (chroma_at dst 1 y x) 0) (rgb_to_u r g b)
          ∷ write (u_plane dst + add32 (chroma_at dst 1 y x) 1) (rgb_to_v r g b)
          ∷ []
        else [])

-- A pixel that is read as three bytes, red, green and blue at the places given.
unfoldable pub rgb_pixel :
    (Framebuffer → ℕ → ℕ → ℕ → ℕ → ℕ → List Write)
    → ℕ
    → ℕ
    → List ℕ
    → Framebuffer
    → Framebuffer
    → ℕ
    → ℕ
    → Option (List Write)
rgb_pixel writes red blue bs src dst y x = do
  r ← peek bs (rgb_at src y x red)
  g ← peek bs (rgb_at src y x 1)
  b ← peek bs (rgb_at src y x blue)
  some (writes dst y x r g b)

-- The pixels of convert_rgb888_to_yuv420p, convert_bgr888_to_yuv420p and convert_rgb888_to_nv12.
abbrev pub rgb_planar_pixel : List ℕ → Framebuffer → Framebuffer → ℕ → ℕ → Option (List Write)
rgb_planar_pixel = rgb_pixel planar_writes 0 2

abbrev pub bgr_planar_pixel : List ℕ → Framebuffer → Framebuffer → ℕ → ℕ → Option (List Write)
bgr_planar_pixel = rgb_pixel planar_writes 2 0

abbrev pub rgb_nv12_pixel : List ℕ → Framebuffer → Framebuffer → ℕ → ℕ → Option (List Write)
rgb_nv12_pixel = rgb_pixel nv12_writes 0 2

-- A component less its offset, as an `int`.
abbrev pub centred : ℕ → ℕ → ℤ
centred a offset = pos a -ℤ pos offset

-- A pixel of convert_yuv420p_to_rgb888.
unfoldable pub planar_pixel : List ℕ → Framebuffer → Framebuffer → ℕ → ℕ → Option (List Write)
planar_pixel bs src dst y x = do
  l ← peek bs (add32 (mul32 y (stride src 0)) x)
  u ← peek bs (u_plane src + chroma_at src 1 y (x / 2))
  v ← peek bs (v_plane src + chroma_at src 2 y (x / 2))
  some (rgb_writes dst y x (centred l 16) (centred u 128) (centred v 128))

-- A pixel of convert_nv12_to_rgb888. `x & ~1U` is x - x % 2.
unfoldable pub nv12_pixel : List ℕ → Framebuffer → Framebuffer → ℕ → ℕ → Option (List Write)
nv12_pixel bs src dst y x = do
  l ← peek bs (add32 (mul32 y (stride src 0)) x)
  u ← peek bs (u_plane src + add32 (chroma_at src 1 y (x - x % 2)) 0)
  v ← peek bs (u_plane src + add32 (chroma_at src 1 y (x - x % 2)) 1)
  some (rgb_writes dst y x (centred l 16) (centred u 128) (centred v 128))

-- Round i of the inner loop of convert_yuyv_to_rgb888, where x is 2 * i: two pixels.
unfoldable pub yuyv_pixels : List ℕ → Framebuffer → Framebuffer → ℕ → ℕ → Option (List Write)
yuyv_pixels bs src dst y i = do
  let x = 2 * i
  let row = mul32 y (stride src 0)
  y0 ← peek bs (row + add32 (mul32 x 2) 0)
  u ← peek bs (row + add32 (mul32 x 2) 1)
  y1 ← peek bs (row + add32 (mul32 x 2) 2)
  v ← peek bs (row + add32 (mul32 x 2) 3)
  some (
      rgb_writes dst y x (centred y0 16) (centred u 128) (centred v 128)
      ++ rgb_writes dst y (add32 x 1) (centred y1 16) (centred u 128) (centred v 128))

-- `memset(data + at, value, n)`.
abbrev pub fill : ℕ → ℕ → ℕ → List Write
fill at value n = gather n 0 (λ i. write (at + i) value ∷ [])

-- The loops of each routine, over the memory of the source and of the destination.
unfoldable pub loops :
    ConvertFn → Framebuffer → Framebuffer → ℕ → ℕ → List ℕ → List ℕ → Option (List ℕ)
loops rgb888_to_yuv420p src dst rows columns bs m =
    paint (rgb_planar_pixel bs src dst) rows columns m
loops bgr888_to_yuv420p src dst rows columns bs m =
    paint (bgr_planar_pixel bs src dst) rows columns m
loops yuv420p_to_rgb888 src dst rows columns bs m = paint (planar_pixel bs src dst) rows columns m
loops rgb888_to_nv12 src dst rows columns bs m = paint (rgb_nv12_pixel bs src dst) rows columns m
loops nv12_to_rgb888 src dst rows columns bs m = paint (nv12_pixel bs src dst) rows columns m
loops raw8_to_rgb888 src dst rows columns bs m = paint (raw8_rgb_pixel bs src dst) rows columns m
loops raw8_to_yuv420p src dst rows columns bs m =
    write_all (fill (u_plane dst) 128 (plane_size dst 1)) m >>= λ m'.
    write_all (fill (v_plane dst) 128 (plane_size dst 2)) m'
    >>= paint (raw8_luma_pixel bs src dst) rows columns
loops yuyv_to_rgb888 src dst rows columns bs m =
    paint (yuyv_pixels bs src dst) rows ((columns + 1) / 2) m

-- `validate_framebuffers` on the dimensions; that `data` is not NULL is matched on below.
abbrev pub same_dimensions : Framebuffer → Framebuffer → Bool
same_dimensions src dst =
    src.params.width == dst.params.width && src.params.height == dst.params.height

-- A routine with the memory that its loops leave, between the validation and the return.
unfoldable pub validated :
    Framebuffer → Framebuffer → Option (List ℕ) → Option (VfErr × Framebuffer)
validated src dst m =
    if same_dimensions src dst
    then (m >>= λ m'. some (success, record dst { bytes = some m' }))
    else some (conv_processing_err, dst)

unfoldable pub convert_bytes :
    ConvertFn
    → Framebuffer
    → Framebuffer
    → Option (List ℕ)
    → Option (List ℕ)
    → Option (VfErr × Framebuffer)
convert_bytes fn src dst none m = some (conv_processing_err, dst)
convert_bytes fn src dst (some bs) none = some (conv_processing_err, dst)
convert_bytes fn src dst (some bs) (some m) =
    validated src dst (loops fn src dst src.params.height src.params.width bs m)

-- The routines of the table, at frames that are not NULL.
unfoldable pub convert : ConvertFn → Framebuffer → Framebuffer → Option (VfErr × Framebuffer)
convert fn src dst = convert_bytes fn src dst src.bytes dst.bytes

-- `vf_conversion_process` at pointers that are not NULL, from the choice of the routine on. A context
-- that is initialized has a routine: a call through NULL is `none`, as an access outside is.
unfoldable pub process_with :
    VfErr × Option ConvertFn → Framebuffer → Framebuffer → Option (VfErr × Framebuffer)
process_with (success, some fn) src dst = convert fn src dst
process_with (success, none) src dst = none
process_with (e, fn) src dst = some (e, dst)

-- The whole of it.
unfoldable pub process : Context → Framebuffer → Framebuffer → Option (VfErr × Framebuffer)
process ctx src dst = process_with (process_at ctx src.params.format dst.params.format) src dst
