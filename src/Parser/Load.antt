-- ===== src/Parser/Load.antt =====
-- vf_parser_load_frames_cfg and vf_parser_free_frames_cfg.
use vision_flow.Base.{
  ℕ, zero, suc, ◌+◌, ◌-◌, Bool, true, false, not, Option, none, some, List, [], ◌∷◌, ◌++◌, ◌==◌,
  if◌then◌else◌, take, length,
}
use vision_flow.Base.Int.{ℤ, pos, negsuc}
use vision_flow.Error.{VfErr, success, oom, file_err}
use vision_flow.Parser.{
  PixelFormat, format_invalid, FrameInfo, FrameSet, max_name_len, max_base_path_len,
  max_file_name_len, max_full_path_len, str_to_format, read_file, extract_string, extract_int,
}
use vision_flow.Parser.Strings.{Text, codes, strstr, strchr, occurrences, ◌>>=◌}

abbrev pub with_cursor : {A : Type 0} → Text → Option A → Option (A × Text)
with_cursor c none = none
with_cursor c (some a) = some (a, c)

-- The next key from a cursor on, which moves there, and the text that follows the key.
unfoldable pub text_at : Text → ℕ → Text → Option (Text × Text)
text_at key max_len cursor = do c ← strstr cursor key; with_cursor c (extract_string c max_len)

-- A width or a height: an int above 0, which its conversion to uint32_t keeps.
abbrev pub positive : ℤ → Option ℕ
positive (pos zero) = none
positive (pos (suc n)) = some (suc n)
positive (negsuc n) = none

-- A size behind a key. What atoi gives is unbounded here, where C leaves a number past an int undefined.
unfoldable pub size_at : Text → Text → Option (ℕ × Text)
size_at key cursor = do c ← strstr cursor key; v ← extract_int c; with_cursor c (positive v)

-- `snprintf(full_path, sizeof(full_path), "%s/%s", base_path, file_name)`.
abbrev pub joined : Text → Text → Text
joined base_path file_name = take (max_full_path_len - 1) (base_path ++ (b'/' ∷ file_name))

-- One frame of a set.
unfoldable pub load_frame : Text → Text → Option (FrameInfo × Text)
load_frame base_path cursor = do
  file ← text_at (codes "\"file\"") max_file_name_len cursor
  width ← size_at (codes "\"width\"") file.1
  height ← size_at (codes "\"height\"") width.1
  some (
    record {
      file_name = file.0;
      full_path = joined base_path file.0;
      width = width.0;
      height = height.0;
    },
    height.1,
  )

-- The loop over the frames of a set.
unfoldable pub load_frames : ℕ → Text → Text → Option (List FrameInfo × Text)
load_frames zero base_path cursor = some ([], cursor)
load_frames (suc n) base_path cursor = do
  frame ← load_frame base_path cursor
  rest ← load_frames n base_path frame.1
  some (frame.0 ∷ rest.0, rest.1)

abbrev pub is_valid : PixelFormat → Bool
is_valid format_invalid = false
is_valid f = true

abbrev pub known : PixelFormat → Option PixelFormat
known f = if is_valid f then some f else none

-- The frames that stand before the end of the array, if there are any.
unfoldable pub frames_within : Text → Option (Text × Text) → Option ℕ
frames_within start none = none
frames_within start (some (inside, after)) =
    let n = occurrences (codes "\"file\"") (length inside) start in if n == 0 then none else some n

-- A set up to the allocation of its frames, and the cursor.
unfoldable pub set_head : Text → Option (FrameSet × Text)
set_head cursor = do
  name ← text_at (codes "\"name\"") max_name_len cursor
  base_path ← text_at (codes "\"base_path\"") max_base_path_len name.1
  text ← text_at (codes "\"format\"") 32 base_path.1
  format ← known (str_to_format text.0)
  start ← strstr text.1 (codes "\"frames\"")
  count ← frames_within start (strchr start b']')
  some (
    record {
      name = name.0;
      base_path = base_path.0;
      format = format;
      frames = none;
      frame_count = count;
    },
    text.1,
  )

-- A set that is parsed, with the cursor, or an error and whether the frames were allocated.
pub data SetResult : Type 0 where
  parsed : FrameSet → Text → SetResult
  refused : VfErr → Bool → SetResult

-- What follows the loop over the frames.
abbrev pub framed : FrameSet → Option (List FrameInfo × Text) → SetResult
framed s none = refused file_err true
framed s (some (frames, c)) = parsed (record s { frames = some frames }) c

unfoldable pub load_body : Bool → Option (FrameSet × Text) → SetResult
load_body calloc none = refused file_err false
load_body calloc (some (s, cursor)) =
    if not calloc
    then refused oom false
    else framed s (load_frames s.frame_count s.base_path cursor)

abbrev pub load_set : Bool → Text → SetResult
load_set calloc cursor = load_body calloc (set_head cursor)

-- All sets, or the error of the first that is refused with the number of sets whose frames are allocated.
pub data SetsResult : Type 0 where
  all_parsed : List FrameSet → SetsResult
  stopped_at : VfErr → ℕ → SetsResult

abbrev pub before : FrameSet → SetsResult → SetsResult
before s (all_parsed l) = all_parsed (s ∷ l)
before s (stopped_at e n) = stopped_at e (suc n)

-- What follows one set in the loop.
abbrev pub followed : SetResult → (Text → SetsResult) → SetsResult
followed (parsed s c) rest = before s (rest c)
followed (refused e b) rest = stopped_at e (if b then 1 else 0)

-- The loop over the sets, the i-th on; calloc is asked once for each.
unfoldable pub load_sets : (ℕ → Bool) → ℕ → ℕ → Text → SetsResult
load_sets calloc zero i cursor = all_parsed []
load_sets calloc (suc n) i cursor =
    followed (load_set (calloc i) cursor) (load_sets calloc n (suc i))

-- What load_frames_cfg returns, what it leaves in `*out_cfg`, and the blocks that it got and gave back.
pub record Loaded : Type 0 where
  pub err : VfErr
  pub out_cfg : Option (List FrameSet)
  pub got : ℕ
  pub freed : ℕ

-- The blocks that vf_parser_free_frames_cfg gives back: the frames of the sets that have them, the sets and
-- the configuration.
abbrev pub free_frames_cfg : ℕ → ℕ
free_frames_cfg with_frames = with_frames + 1 + 1

unfoldable pub loaded : SetsResult → Loaded
loaded (all_parsed l) = record { err = success; out_cfg = some l; got = 3 + length l; freed = 1 }
loaded (stopped_at e n) = record {
  err = e;
  out_cfg = none;
  got = 3 + n;
  freed = free_frames_cfg n + 1;
}

-- What malloc and calloc answer: for the file, the configuration, the sets, and the frames of each set.
pub record Allocator : Type 0 where
  pub malloc_file : Bool
  pub calloc_cfg : Bool
  pub calloc_sets : Bool
  pub calloc_frames : ℕ → Bool

unfoldable pub parse : Allocator → Option Text → Loaded
parse a none = record { err = file_err; out_cfg = none; got = 0; freed = 0 }
parse a (some text) =
    let set_count = occurrences (codes "\"name\"") (length text) text in
    if not a.calloc_cfg
    then record { err = oom; out_cfg = none; got = 1; freed = 1 }
    else if set_count == 0
    then record { err = file_err; out_cfg = none; got = 2; freed = 2 }
    else if not a.calloc_sets
    then record { err = oom; out_cfg = none; got = 2; freed = 2 }
    else loaded (load_sets a.calloc_frames set_count 0 text)

-- `vf_parser_load_frames_cfg`, by what the file has if it opens.
unfoldable pub load_frames_cfg : Allocator → Option Text → Loaded
load_frames_cfg a file = parse a (read_file file a.malloc_file)
