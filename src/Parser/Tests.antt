-- ===== src/Parser/Tests.antt =====
-- The parser at concrete texts.
use vision_flow.Base.{◌≡◌, refl, true, some, [], ◌∷◌, ◌++◌, arith}
use vision_flow.Error.{success}
use vision_flow.Parser.{
  format_raw8, extract_string, after_colon, closed_value, extract_int, read_file, str_to_format,
}
use vision_flow.Parser.Strings.{Text, codes, strstr, strchr, occurrences, atoi, digits, c_string}
use vision_flow.Parser.Load.{
  Allocator, load_frames_cfg, parse, loaded, load_sets, load_body, set_head, frames_within,
  load_frames, load_frame, size_at, text_at,
}
use vision_flow.Parser.Values.{nothing, other, no_blank, blank, extract_string-printed}
use vision_flow.Parser.WellFormed.{IsLoaded, load_frames_cfg-IsLoaded}

extract_string-printed_example :
    extract_string (codes "n" ++ (b':' ∷ (b' ' ∷ (34 ∷ (codes "ab" ++ (34 ∷ codes ",")))))) 3
    ≡ some (codes "ab")
extract_string-printed_example =
    extract_string-printed (codes "n") (b' ' ∷ []) (codes "ab") (codes ",") 3
      (other 110 [] (λ e. omega (arith, e)) nothing) (blank 32 [] refl no_blank)
      (other 97 (98 ∷ []) (λ e. omega (arith, e)) (other 98 [] (λ e. omega (arith, e)) nothing))
      (omega arith)

abbrev allocator : Allocator
allocator = record {
  malloc_file = true;
  calloc_cfg = true;
  calloc_sets = true;
  calloc_frames = λ i. true;
}

abbrev sample : Text
sample =
    codes
      "{\"name\": \"a\", \"base_path\": \"/d\", \"format\": \"RAW8\", \"frames\": [{\"file\": \"f\", \"width\": 4, \"height\": 20}]}"

-- One set of one frame.
sample_parsed : load_frames_cfg allocator (some sample) ≡ record {
  err = success;
  out_cfg = some (
      record {
        name = codes "a";
        base_path = codes "/d";
        format = format_raw8;
        frames = some (
            record { file_name = codes "f"; full_path = codes "/d/f"; width = 4; height = 20 }
            ∷ []);
        frame_count = 1;
      }
      ∷ []);
  got = 4;
  freed = 1;
}
unfolding load_frames_cfg parse loaded load_sets load_body set_head frames_within load_frames
    load_frame size_at text_at extract_string after_colon closed_value extract_int read_file
    str_to_format strstr strchr occurrences atoi digits c_string
sample_parsed = refl

load_frames_cfg-IsLoaded_example : IsLoaded (load_frames_cfg allocator (some sample))
load_frames_cfg-IsLoaded_example = load_frames_cfg-IsLoaded allocator (some sample)
