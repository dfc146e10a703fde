-- ===== src/Conversion/Pixels/Tests.antt =====
-- Conversions of small frames, and their theorems at concrete inputs.
use vision_flow.Base.{ℕ, ◌*◌, ◌≡◌, refl, none, some, List, [], ◌∷◌, arith, length, replicate}
use vision_flow.Error.{success, PixelFmt, rgb888, yuv420p, nv12, yuyv}
use vision_flow.Framebuffer.{Framebuffer, Plane, zeroed, no_plane}
use vision_flow.Conversion.{
  rgb888_to_yuv420p, bgr888_to_yuv420p, yuv420p_to_rgb888, rgb888_to_nv12, yuyv_to_rgb888,
}
use vision_flow.Conversion.Pixels.{convert}
use vision_flow.Conversion.Pixels.FromRgb.{
  colour, ShownPlanar, rgb-ShownPlanar, rgb-ShownSemiPlanar,
}
use vision_flow.Conversion.Pixels.SemiPlanar.{ShowsSemiPlanar}
use vision_flow.Conversion.Pixels.ToRgb.{Shown, planar_picture, planar-Shown}
use vision_flow.Conversion.Pixels.Yuyv.{yuyv_picture, yuyv-Shown}
use vision_flow.Conversion.Pixels.Overrun.{rgb_overrun}

abbrev plane : ℕ → ℕ → ℕ → Plane
plane width height stride = record {
  width = width;
  height = height;
  line_size = width;
  stride = stride;
  size = stride * height;
}

abbrev frame : PixelFmt → ℕ → List Plane → List ℕ → Framebuffer
frame format height planes bs = record zeroed {
  bytes = some bs;
  total_size = length bs;
  params = record { width = 2; height = height; format = format };
  planes = planes;
}

-- Frames of two columns, in one plane, in three, and in two.
abbrev packed : PixelFmt → ℕ → List ℕ → Framebuffer
packed format height bs =
    frame format height (plane 2 height 16 ∷ no_plane ∷ no_plane ∷ no_plane ∷ []) bs

abbrev in_three : ℕ → ℕ → List ℕ → Framebuffer
in_three height half bs =
    frame yuv420p height (plane 2 height 16 ∷ plane 1 half 16 ∷ plane 1 half 16 ∷ no_plane ∷ []) bs

abbrev in_two : List ℕ → Framebuffer
in_two bs = frame nv12 2 (plane 2 2 16 ∷ plane 2 1 16 ∷ no_plane ∷ no_plane ∷ []) bs

-- The bytes of two rows, 16 to a row, and of more.
abbrev two_lines : List ℕ
two_lines =
    200 ∷ 16 ∷ 30 ∷ 90 ∷ 80 ∷ 70 ∷ 0 ∷ 0 ∷ 0 ∷ 0 ∷ 0 ∷ 0 ∷ 0 ∷ 0 ∷ 0 ∷ 0 ∷ 10 ∷ 20 ∷ 30 ∷ 40 ∷ 50
    ∷ 255 ∷ 0 ∷ 0 ∷ 0 ∷ 0 ∷ 0 ∷ 0 ∷ 0 ∷ 0 ∷ 0 ∷ 0 ∷ []

abbrev four_lines : List ℕ
four_lines = replicate 64 77

abbrev three_lines : List ℕ
three_lines = replicate 48 99

abbrev one_line : List ℕ
one_line = replicate 16 5

rgb-ShownPlanar_example :
    ShownPlanar rgb888_to_yuv420p
      (packed rgb888 2 two_lines)
      (in_three 2 1 four_lines)
      four_lines
      (colour 0 2 (packed rgb888 2 two_lines) two_lines)
    × ShownPlanar bgr888_to_yuv420p
        (packed rgb888 2 two_lines)
        (in_three 2 1 four_lines)
        four_lines
        (colour 2 0 (packed rgb888 2 two_lines) two_lines)
rgb-ShownPlanar_example =
    rgb-ShownPlanar (packed rgb888 2 two_lines) (in_three 2 1 four_lines) two_lines four_lines
      (record { from = refl; to = refl; height = refl; width = refl }) (refl, refl) (omega arith)
      (omega arith)

rgb-ShownSemiPlanar_example :
    (m' : List ℕ) × (convert rgb888_to_nv12 (packed rgb888 2 two_lines) (in_two three_lines)
      ≡ some (success, record (in_two three_lines) { bytes = some m' }))
    × (length m' ≡ length three_lines)
    × ShowsSemiPlanar (in_two three_lines) m' (colour 0 2 (packed rgb888 2 two_lines) two_lines)
rgb-ShownSemiPlanar_example =
    rgb-ShownSemiPlanar (packed rgb888 2 two_lines) (in_two three_lines) two_lines three_lines
      (record { from = refl; to = refl; height = refl; width = refl }) (refl, refl) (omega arith)
      (omega arith)

planar-Shown_example :
    Shown yuv420p_to_rgb888
      (in_three 2 1 four_lines)
      (packed rgb888 2 two_lines)
      two_lines
      (planar_picture (in_three 2 1 four_lines) four_lines)
planar-Shown_example =
    planar-Shown (in_three 2 1 four_lines) (packed rgb888 2 two_lines) four_lines two_lines
      (record { from = refl; to = refl; height = refl; width = refl }) (refl, refl) (omega arith)
      (omega arith)

yuyv-Shown_example :
    Shown yuyv_to_rgb888
      (packed yuyv 2 two_lines)
      (packed rgb888 2 three_lines)
      three_lines
      (yuyv_picture (packed yuyv 2 two_lines) two_lines)
yuyv-Shown_example =
    yuyv-Shown (packed yuyv 2 two_lines) (packed rgb888 2 three_lines) two_lines three_lines
      (record { from = refl; to = refl; height = refl; width = refl }) refl (omega arith)
      (omega arith)

rgb_overrun_example :
    convert rgb888_to_yuv420p (packed rgb888 1 one_line) (in_three 1 0 one_line) ≡ none
rgb_overrun_example =
    rgb_overrun (packed rgb888 1 one_line) (in_three 1 0 one_line) one_line one_line
      (record { from = refl; to = refl; height = refl; width = refl }) refl (omega arith)
      (omega arith) (omega arith)
