-- ===== src/Conversion/Pixels/Process.antt =====
-- vf_conversion_process on the frames that its context was set up for.
use vision_flow.Base.{◌≡◌, ◌∙◌, refl, ap, some}
use vision_flow.Error.{conv_processing_err, raw8, rgb888, fmt_eq}
use vision_flow.Framebuffer.{Framebuffer}
use vision_flow.Conversion.{
  ConvertFn, raw8_to_rgb888, lookup_convert_fn, lookup_in, init_at, init_with, process_at, cleared,
}
use vision_flow.Conversion.Support.{process_of_init}
use vision_flow.Conversion.Pixels.{convert, process, process_with}

-- A context that vf_conversion_init made for the formats of two frames calls the routine of the table.
pub process-init_at :
    (fn : ConvertFn) (src dst : Framebuffer)
    → lookup_convert_fn src.params.format dst.params.format ≡ some fn
    → process (init_at src.params.format dst.params.format).1 src dst ≡ convert fn src dst
unfolding process process_with init_at
process-init_at fn src dst e =
    let s = src.params.format in
    let d = dst.params.format in
    ap (λ o. process_with (process_at (init_with o s d).1 s d) src dst) e
    ∙ ap (λ r. process_with r src dst) (process_of_init fn s d)

pub lookup_raw8 : lookup_convert_fn raw8 rgb888 ≡ some raw8_to_rgb888
unfolding lookup_convert_fn lookup_in fmt_eq
lookup_raw8 = refl

-- A context that is not initialized refuses every pair of frames, and leaves the destination.
pub process-cleared :
    (src dst : Framebuffer) → process cleared src dst ≡ some (conv_processing_err, dst)
unfolding process process_with process_at
process-cleared src dst = refl
