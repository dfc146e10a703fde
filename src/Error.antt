-- ===== src/Error.antt =====
-- libraries/vf_common: the error codes of vf-error.h, their texts, and the pixel formats of
-- vf-pixel-fmt.h.
use Prim.Native.String.{String}
use vision_flow.Base.{ℕ, Bool, true, false, ◌==◌}

-- `vf_err_t`, one constructor for each code (VF_ERROR_MIN is VF_SUCCESS).
pub data VfErr : Type 0 where
  success invalid_parameter oom sync_error init_failed file_err : VfErr
  camera_init_err camera_start_err camera_stop_err camera_capture_frame_failed : VfErr
  camera_deinit_err conv_init_err conv_processing_err queue_shutdown : VfErr
  error_max : VfErr

-- The number that C gives the code.
unfoldable pub code : VfErr → ℕ
code success = 0
code invalid_parameter = 1
code oom = 2
code sync_error = 3
code init_failed = 4
code file_err = 5
code camera_init_err = 6
code camera_start_err = 7
code camera_stop_err = 8
code camera_capture_frame_failed = 9
code camera_deinit_err = 10
code conv_init_err = 11
code conv_processing_err = 12
code queue_shutdown = 13
code error_max = 14

abbrev pub is_success : VfErr → Bool
is_success success = true
is_success e = false

-- `vf_err2str`.
unfoldable pub err2str : VfErr → String
err2str success = "Operation completed successfully"
err2str invalid_parameter = "Provided parameter is invalid"
err2str init_failed = "Failed to initialize component"
err2str file_err = "Error encountered while handling file"
err2str camera_init_err = "Camera could not be started"
err2str camera_capture_frame_failed = "Camera could not received frame"
err2str camera_deinit_err = "Error during camera de-initialization"
err2str e = "An unknown error has occured"

-- `vf_pixel_fmt_t`.
pub data PixelFmt : Type 0 where
  unknown rgb888 bgr888 rgba8888 yuv420p nv12 raw8 yuyv mjpeg last : PixelFmt

unfoldable pub fmt_code : PixelFmt → ℕ
fmt_code unknown = 0
fmt_code rgb888 = 1
fmt_code bgr888 = 2
fmt_code rgba8888 = 3
fmt_code yuv420p = 4
fmt_code nv12 = 5
fmt_code raw8 = 6
fmt_code yuyv = 7
fmt_code mjpeg = 8
fmt_code last = 9

-- `a == b` on enum values.
unfoldable pub fmt_eq : PixelFmt → PixelFmt → Bool
unfolding fmt_code
fmt_eq a b = fmt_code a == fmt_code b

-- `VF_ERROR_MIN`, which vf-error.h gives the number of `VF_SUCCESS`.
abbrev pub error_min : VfErr
error_min = success
