-- ===== src/Conversion/Support.antt =====
-- Which conversions there are, for init, is_supported and process.
use vision_flow.Base.{◌≡◌, ◌⊎◌, true, false, refl, Option, none, some, arith}
use vision_flow.Error.{success, conv_processing_err, PixelFmt, fmt_eq}
use vision_flow.Conversion.{
  ConvertFn, lookup_convert_fn, init_at, init_with, is_supported, process_at, found,
}

fmt_eq_refl : (f : PixelFmt) → fmt_eq f f ≡ true
unfolding fmt_eq
fmt_eq_refl f = ground arith

-- What a context is good for that was made for a routine f, from format s to format d.
pub process_of_init :
    (f : ConvertFn) (s d : PixelFmt) → process_at (init_with (some f) s d).1 s d ≡ (success, some f)
unfolding process_at init_with
process_of_init f s d = rw (fmt_eq_refl s, fmt_eq_refl d) refl

refuses :
    (f : ConvertFn) (s d src dst : PixelFmt)
    → (fmt_eq src s ≡ false) ⊎ (fmt_eq dst d ≡ false)
    → process_at (init_with (some f) s d).1 src dst ≡ (conv_processing_err, none)
unfolding process_at init_with
refuses f s d src dst h = ground arith

init-agrees :
    (o : Option ConvertFn) (s d src dst : PixelFmt)
    → found o ≡ 1
    → (fmt_eq src s ≡ false) ⊎ (fmt_eq dst d ≡ false)
    → ((init_with o s d).0 ≡ success)
      × (process_at (init_with o s d).1 s d ≡ (success, o))
      × (process_at (init_with o s d).1 src dst ≡ (conv_processing_err, none))
unfolding found init_with
init-agrees none s d src dst h ne = ground arith
init-agrees (some f) s d src dst h ne = (refl, process_of_init f s d, refuses f s d src dst ne)

-- For a supported pair of formats vf_conversion_init succeeds. vf_conversion_process then calls the
-- routine of the table for frames of these formats, and refuses frames of which one has another format
-- with VF_CONV_PROCESSING_ERR.
pub process-init :
    (s d src dst : PixelFmt)
    → is_supported s d ≡ 1
    → (fmt_eq src s ≡ false) ⊎ (fmt_eq dst d ≡ false)
    → ((init_at s d).0 ≡ success)
      × (process_at (init_at s d).1 s d ≡ (success, lookup_convert_fn s d))
      × (process_at (init_at s d).1 src dst ≡ (conv_processing_err, none))
unfolding is_supported init_at
process-init s d src dst h ne = init-agrees (lookup_convert_fn s d) s d src dst h ne
