-- ===== src/Parser.antt =====
-- service/src/parser: the configuration of the frame sets, read from a file. What fopen, malloc, calloc and
-- fread give is an argument; a path and an output pointer are not NULL.
pub mod Strings
pub mod Load
pub mod Values
pub mod Frames
pub mod WellFormed
mod Tests
use vision_flow.Base.{
  ℕ, zero, suc, ◌+◌, ◌-◌, ◌%◌, ◌^◌, Bool, true, false, not, ◌&&◌, ◌||◌, Option, none, some, List,
  [], ◌∷◌, ◌++◌, ◌==◌, if◌then◌else◌, ltb, take, length,
}
use vision_flow.Base.Int.{ℤ, pos, negsuc}
use vision_flow.Error.{VfErr, success, oom, file_err}
use Strings.{Text, codes, c_string, is_prefix, strstr, strchr, same_text, atoi}

-- `vf_pixel_format_t`.
pub data PixelFormat : Type 0 where
  format_invalid format_raw8 format_rgb888 format_yuv420 : PixelFormat

-- `vf_frame_info_t`.
pub record FrameInfo : Type 0 where
  pub file_name : Text
  pub full_path : Text
  pub width : ℕ
  pub height : ℕ

-- `vf_frame_set_t`; `frames` is `none` while the pointer is NULL.
pub record FrameSet : Type 0 where
  pub name : Text
  pub base_path : Text
  pub format : PixelFormat
  pub frames : Option (List FrameInfo)
  pub frame_count : ℕ

abbrev pub max_name_len : ℕ
max_name_len = 64

abbrev pub max_base_path_len : ℕ
max_base_path_len = 256

abbrev pub max_file_name_len : ℕ
max_file_name_len = 128

-- `VF_PARSER_MAX_FULL_PATH_LEN`.
abbrev pub max_full_path_len : ℕ
max_full_path_len = max_base_path_len + max_file_name_len + 2

-- `vf_parser_str_to_format`.
unfoldable pub str_to_format : Text → PixelFormat
str_to_format s =
    if same_text s (codes "RAW8")
    then format_raw8
    else if same_text s (codes "RGB888")
    then format_rgb888
    else if same_text s (codes "YUV420")
    then format_yuv420
    else format_invalid

-- `MAX_FILE_SIZE`.
abbrev pub max_file_size : ℕ
max_file_size = 65536

-- `vf_parser_read_file`: what the file has, if it opens, and whether malloc gives memory. `none` is NULL.
unfoldable pub read_file : Option Text → Bool → Option Text
read_file none malloc = none
read_file (some bytes) malloc =
    if malloc then some (c_string (take (max_file_size - 1) bytes)) else none

abbrev pub is_blank : ℕ → Bool
is_blank c = (c == b' ') || (c == b'\t') || (c == b'\n') || (c == b'\r')

abbrev pub skip_blanks : Text → Text
skip_blanks [] = []
skip_blanks (c ∷ s) = if is_blank c then skip_blanks s else c ∷ s

-- The value up to the closing quote, if it fits.
unfoldable pub closed_value : ℕ → Option (Text × Text) → Option Text
closed_value max_len none = none
closed_value max_len (some (value, rest)) = if ltb (length value) max_len then some value else none

abbrev pub quoted_value : ℕ → Text → Option Text
quoted_value max_len [] = none
quoted_value max_len (c ∷ s) = if c == 34 then closed_value max_len (strchr s 34) else none

unfoldable pub after_colon : ℕ → Option (Text × Text) → Option Text
after_colon max_len none = none
after_colon max_len (some (before, start)) = quoted_value max_len (skip_blanks start)

-- `vf_parser_extract_string` with a buffer of some bytes: `none` is -1, and then the buffer is not written.
unfoldable pub extract_string : Text → ℕ → Option Text
extract_string src max_len = if max_len == 0 then none else after_colon max_len (strchr src b':')

-- `vf_parser_extract_int`.
unfoldable pub extract_int : Text → Option ℤ
extract_int src = elim (strchr src b':') [ none ↦ none | some (before, start) ↦ some (atoi start) ]
