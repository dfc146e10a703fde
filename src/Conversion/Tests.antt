-- ===== src/Conversion/Tests.antt =====
-- The conversions at concrete inputs.
use vision_flow.Base.{arith}
use vision_flow.Conversion.Color.{rgb_to_y, rgb_to_u, rgb_to_v}
use vision_flow.Conversion.Color.Range.{Within, rgb_ranges}

rgb_ranges_example :
    Within 16 235 (rgb_to_y 255 0 128)
    × Within 16 240 (rgb_to_u 255 0 128)
    × Within 16 240 (rgb_to_v 255 0 128)
rgb_ranges_example = rgb_ranges 255 0 128 (omega arith) (omega arith) (omega arith)
