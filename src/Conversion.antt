-- ===== src/Conversion.antt =====
-- libraries/vf_conversion/src/vf-conversion.c: the colour arithmetic, and the choice of a conversion.
pub mod Memory
pub mod Pixels
pub mod Color
pub mod Support
mod Tests
use vision_flow.Base.{
  ℕ, Bool, true, false, ◌&&◌, not, Option, none, some, List, [], ◌∷◌, ◌==◌, if◌then◌else◌,
}
use vision_flow.Error.{
  VfErr, success, conv_init_err, conv_processing_err, PixelFmt, unknown, rgb888, bgr888, yuv420p,
  nv12, raw8, yuyv, fmt_eq,
}

-- The routines of the table, by name.
pub data ConvertFn : Type 0 where
  rgb888_to_yuv420p bgr888_to_yuv420p yuv420p_to_rgb888 rgb888_to_nv12 : ConvertFn
  nv12_to_rgb888 raw8_to_rgb888 raw8_to_yuv420p yuyv_to_rgb888 : ConvertFn

-- `vf_conversion_entry_t`.
pub record Entry : Type 0 where
  pub src_fmt : PixelFmt
  pub dst_fmt : PixelFmt
  pub fn : ConvertFn

abbrev entry : PixelFmt → PixelFmt → ConvertFn → Entry
entry s d f = record { src_fmt = s; dst_fmt = d; fn = f }

-- `g_conversion_table`.
abbrev pub table : List Entry
table =
    entry rgb888 yuv420p rgb888_to_yuv420p
    ∷ entry bgr888 yuv420p bgr888_to_yuv420p
    ∷ entry yuv420p rgb888 yuv420p_to_rgb888
    ∷ entry rgb888 nv12 rgb888_to_nv12
    ∷ entry nv12 rgb888 nv12_to_rgb888
    ∷ entry raw8 rgb888 raw8_to_rgb888
    ∷ entry raw8 yuv420p raw8_to_yuv420p
    ∷ entry yuyv rgb888 yuyv_to_rgb888
    ∷ []

-- The loop of `lookup_convert_fn`.
pub lookup_in : List Entry → PixelFmt → PixelFmt → Option ConvertFn
lookup_in [] s d = none
lookup_in (e ∷ es) s d =
    let rest = lookup_in es s d in
    if fmt_eq e.src_fmt s && fmt_eq e.dst_fmt d then some e.fn else rest

-- `lookup_convert_fn`.
pub lookup_convert_fn : PixelFmt → PixelFmt → Option ConvertFn
lookup_convert_fn s d = lookup_in table s d

-- `vf_conversion_ctx_t`.
pub record Context : Type 0 where
  pub src_fmt : PixelFmt
  pub dst_fmt : PixelFmt
  pub convert_fn : Option ConvertFn
  pub initialized : ℕ

-- The context after `memset`: VF_PIXEL_FMT_UNKNOWN is 0. It is also what `vf_conversion_deinit` leaves.
abbrev pub cleared : Context
cleared = record { src_fmt = unknown; dst_fmt = unknown; convert_fn = none; initialized = 0 }

pub init_with : Option ConvertFn → PixelFmt → PixelFmt → VfErr × Context
init_with none s d = (conv_init_err, cleared)
init_with (some f) s d =
    (success, record { src_fmt = s; dst_fmt = d; convert_fn = some f; initialized = 1 })

-- `vf_conversion_init` at a context that is not NULL.
pub init_at : PixelFmt → PixelFmt → VfErr × Context
init_at s d = init_with (lookup_convert_fn s d) s d

-- The test `NULL != fn`.
pub found : Option ConvertFn → ℕ
found none = 0
found (some f) = 1

-- `vf_conversion_is_supported`.
pub is_supported : PixelFmt → PixelFmt → ℕ
is_supported s d = found (lookup_convert_fn s d)

-- `vf_conversion_process` at pointers that are not NULL, by the formats of the two frames: the error
-- it returns, or the routine that it calls.
pub process_at : Context → PixelFmt → PixelFmt → VfErr × Option ConvertFn
process_at ctx src dst =
    if ctx.initialized == 0
    then (conv_processing_err, none)
    else if not (fmt_eq src ctx.src_fmt)
    then (conv_processing_err, none)
    else if not (fmt_eq dst ctx.dst_fmt)
    then (conv_processing_err, none)
    else (success, ctx.convert_fn)
