-- ===== src/Framebuffer/Format.antt =====
-- The pixel format tables at the end of vf-framebuffer.c.
use Prim.Native.String.{String}
use vision_flow.Base.{ℕ, Bool, true, false}
use vision_flow.Error.{PixelFmt, rgb888, bgr888, rgba8888, yuv420p, nv12, raw8, yuyv, mjpeg}

-- `vf_pixel_fmt_bpp`: bits per pixel of a packed format, VF_BPP_INVALID being 0.
unfoldable pub bpp : PixelFmt → ℕ
bpp raw8 = 8
bpp yuyv = 16
bpp rgb888 = 24
bpp bgr888 = 24
bpp rgba8888 = 32
bpp f = 0

-- `vf_pixel_fmt_is_yuv`.
unfoldable pub is_yuv : PixelFmt → Bool
is_yuv yuv420p = true
is_yuv nv12 = true
is_yuv f = false

-- `vf_pixel_fmt_str`.
unfoldable pub fmt_str : PixelFmt → String
fmt_str rgb888 = "RGB888"
fmt_str bgr888 = "BGR888"
fmt_str rgba8888 = "RGBA8888"
fmt_str yuv420p = "YUV420P"
fmt_str yuyv = "YUYV"
fmt_str mjpeg = "MJPEG"
fmt_str nv12 = "NV12"
fmt_str raw8 = "RAW8"
fmt_str f = "UNKNOWN"
