-- ===== src/Conversion/Color.antt =====
-- The BT.601 helpers. `int` is ℤ: with components of 8 bits no sum comes near 2^31. A right shift of
-- a negative number rounds down.
pub mod Range
use vision_flow.Base.{ℕ, ◌*◌, ◌/◌, ltb, if◌then◌else◌}
use vision_flow.Base.Int.{ℤ, pos, negsuc, ◌+ℤ◌, ◌-ℤ◌, ◌*ℤ◌}

-- CLIP_U8.
pub clip_u8 : ℤ → ℕ
clip_u8 (negsuc n) = 0
clip_u8 (pos n) = if ltb 255 n then 255 else n

-- `x >> 8`.
pub shr8 : ℤ → ℤ
shr8 (pos n) = pos (n / 256)
shr8 (negsuc n) = negsuc (n / 256)

pub rgb_to_y : ℕ → ℕ → ℕ → ℕ
rgb_to_y r g b = clip_u8 (shr8 (pos (66 * r) +ℤ pos (129 * g) +ℤ pos (25 * b) +ℤ pos 128) +ℤ pos 16)

pub rgb_to_u : ℕ → ℕ → ℕ → ℕ
rgb_to_u r g b =
    clip_u8 (shr8 (pos 0 -ℤ pos (38 * r) -ℤ pos (74 * g) +ℤ pos (112 * b) +ℤ pos 128) +ℤ pos 128)

pub rgb_to_v : ℕ → ℕ → ℕ → ℕ
rgb_to_v r g b =
    clip_u8 (shr8 (pos (112 * r) -ℤ pos (94 * g) -ℤ pos (18 * b) +ℤ pos 128) +ℤ pos 128)

pub yuv_to_r : ℤ → ℤ → ℕ
yuv_to_r c e = clip_u8 (shr8 (pos 298 *ℤ c +ℤ pos 409 *ℤ e +ℤ pos 128))

pub yuv_to_g : ℤ → ℤ → ℤ → ℕ
yuv_to_g c d e = clip_u8 (shr8 (pos 298 *ℤ c -ℤ pos 100 *ℤ d -ℤ pos 208 *ℤ e +ℤ pos 128))

pub yuv_to_b : ℤ → ℤ → ℕ
yuv_to_b c d = clip_u8 (shr8 (pos 298 *ℤ c +ℤ pos 516 *ℤ d +ℤ pos 128))
