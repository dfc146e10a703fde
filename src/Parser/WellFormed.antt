-- ===== src/Parser/WellFormed.antt =====
-- What a configuration that was loaded is known to be.
use vision_flow.Base.{
  if_elim, ℕ, zero, suc, ◌+◌, ◌<◌, ◌≡◌, ◌≢◌, refl, ap, ◌⊎◌, inl, inr, Bool, true, false, not,
  Option, none, some, List, [], ◌∷◌, ◌==◌, length, arith,
}
use vision_flow.Error.{success}
use vision_flow.Parser.{
  PixelFormat, format_invalid, format_raw8, format_rgb888, format_yuv420, FrameInfo, FrameSet,
  read_file, str_to_format,
}
use vision_flow.Parser.Strings.{Text, codes, strstr, strchr, occurrences}
use vision_flow.Parser.Load.{
  framed, followed, text_at, load_frames, known, frames_within, set_head, SetResult, parsed,
  refused, load_body, load_set, SetsResult, all_parsed, stopped_at, before, load_sets, Loaded,
  loaded, Allocator, parse, load_frames_cfg,
}
use vision_flow.Parser.Values.{Ensures, bind-Ensures, bind_any-Ensures, Fits}
use vision_flow.Parser.Frames.{AreFrames, text_at-Fits, load_frames-AreFrames}

-- A set with a format and at least one frame, each of its count well-formed.
pub record IsFrameSet (s : FrameSet) : Type 0 where
  pub name_fits : length s.name < 64
  pub path_fits : length s.base_path < 256
  pub has_format : s.format ≢ format_invalid
  pub some_frame : 0 < s.frame_count
  pub items : List FrameInfo
  pub frames : s.frames ≡ some items
  pub counted : length items ≡ s.frame_count
  pub are_frames : AreFrames s.base_path items

pub data AreSets : List FrameSet → Type 0 where
  no_sets : AreSets []
  set : (s : FrameSet) (l : List FrameSet) → IsFrameSet s → AreSets l → AreSets (s ∷ l)

-- A set before its frames are read.
record IsHead (s : FrameSet) : Type 0 where
  name_fits : length s.name < 64
  path_fits : length s.base_path < 256
  has_format : s.format ≢ format_invalid
  some_frame : 0 < s.frame_count

known-Ensures : (f : PixelFormat) → Ensures (λ g. g ≢ format_invalid) (known f)
known-Ensures format_invalid = tt
known-Ensures format_raw8 = λ e. cc
known-Ensures format_rgb888 = λ e. cc
known-Ensures format_yuv420 = λ e. cc

frames_within-Ensures :
    (start : Text) (o : Option (Text × Text)) → Ensures (λ n. 0 < n) (frames_within start o)
unfolding frames_within
frames_within-Ensures start none = tt
frames_within-Ensures start (some (inside, after)) =
    let n = occurrences (codes "\"file\"") (length inside) start in
    if_elim (Ensures (λ k. 0 < k)) (n == 0) (λ e. tt) (λ e. ground arith)

set_head-IsHead :
    (cursor : Text) → Ensures {A = FrameSet × Text} (λ r. IsHead r.0) (set_head cursor)
unfolding set_head
set_head-IsHead cursor =
    let Q : FrameSet × Text → Type 0 = λ r. IsHead r.0 in
    bind-Ensures (λ r. Fits 64 r.0) Q (text_at (codes "\"name\"") 64 cursor) _
      (text_at-Fits (codes "\"name\"") 64 cursor)
      (λ name short.
        bind-Ensures (λ r. Fits 256 r.0) Q (text_at (codes "\"base_path\"") 256 name.1) _
          (text_at-Fits (codes "\"base_path\"") 256 name.1)
          (λ base path. bind_any-Ensures Q (text_at (codes "\"format\"") 32 base.1) _ (λ text.
            bind-Ensures (λ g. g ≢ format_invalid) Q (known (str_to_format text.0)) _
              (known-Ensures (str_to_format text.0))
              (λ format valid. bind_any-Ensures Q (strstr text.1 (codes "\"frames\"")) _ (λ start.
                bind-Ensures (λ n. 0 < n) Q (frames_within start (strchr start b']')) _
                  (frames_within-Ensures start (strchr start b']'))
                  (λ n more. record {
                    name_fits = short;
                    path_fits = path;
                    has_format = valid;
                    some_frame = more;
                  }))))))

abbrev EnsuresSet : SetResult → Type 0
EnsuresSet (parsed s c) = IsFrameSet s
EnsuresSet (refused e b) = e ≢ success

with_frames :
    (s : FrameSet) (o : Option (List FrameInfo × Text))
    → IsHead s
    → Ensures {A = List FrameInfo × Text}
        (λ r. (length r.0 ≡ s.frame_count) × AreFrames s.base_path r.0)
        o
    → EnsuresSet (framed s o)
with_frames s none h f = λ e. cc
with_frames s (some (l, c)) h f = record {
  name_fits = h.name_fits;
  path_fits = h.path_fits;
  has_format = h.has_format;
  some_frame = h.some_frame;
  items = l;
  frames = refl;
  counted = f.0;
  are_frames = f.1;
}

load_body-EnsuresSet :
    (calloc : Bool) (o : Option (FrameSet × Text))
    → Ensures {A = FrameSet × Text} (λ r. IsHead r.0) o
    → EnsuresSet (load_body calloc o)
unfolding load_body
load_body-EnsuresSet calloc none h = λ e. cc
load_body-EnsuresSet false (some (s, c)) h = λ e. cc
load_body-EnsuresSet true (some (s, c)) h =
    with_frames s (load_frames s.frame_count s.base_path c) h
      (load_frames-AreFrames s.frame_count s.base_path c h.path_fits)

abbrev EnsuresSets : ℕ → SetsResult → Type 0
EnsuresSets n (all_parsed l) = (length l ≡ n) × AreSets l
EnsuresSets n (stopped_at e k) = e ≢ success

before-EnsuresSets :
    (n : ℕ) (s : FrameSet) (r : SetsResult)
    → IsFrameSet s
    → EnsuresSets n r
    → EnsuresSets (suc n) (before s r)
before-EnsuresSets n s (all_parsed l) h k = (ap suc k.0, set s l h k.1)
before-EnsuresSets n s (stopped_at e k) h ne = ne

followed-EnsuresSets :
    (n : ℕ) (r : SetResult) (rest : Text → SetsResult)
    → EnsuresSet r
    → ((c : Text) → EnsuresSets n (rest c))
    → EnsuresSets (suc n) (followed r rest)
followed-EnsuresSets n (parsed s c) rest h k = before-EnsuresSets n s (rest c) h (k c)
followed-EnsuresSets n (refused e b) rest h k = h

load_sets-EnsuresSets :
    (calloc : ℕ → Bool) (n i : ℕ) (cursor : Text) → EnsuresSets n (load_sets calloc n i cursor)
unfolding load_sets
load_sets-EnsuresSets calloc zero i cursor = (refl, no_sets)
load_sets-EnsuresSets calloc (suc n) i cursor =
    followed-EnsuresSets n (load_set (calloc i) cursor) (load_sets calloc n (suc i))
      (load_body-EnsuresSet (calloc i) (set_head cursor) (set_head-IsHead cursor))
      (λ c. load_sets-EnsuresSets calloc n (suc i) c)

-- What a call leaves: VF_SUCCESS and a configuration of well-formed sets, one at least, whose blocks are all
-- that is not given back; or an error, no configuration, and every block given back.
abbrev pub IsLoaded : Loaded → Type 0
IsLoaded r =
    ((r.err ≡ success)
      × (l : List FrameSet) × (r.out_cfg ≡ some l)
      × (0 < length l)
      × AreSets l
      × (r.got ≡ r.freed + 2 + length l))
    ⊎ ((r.err ≢ success) × (r.out_cfg ≡ none) × (r.got ≡ r.freed))

loaded-IsLoaded : (n : ℕ) (r : SetsResult) → 0 < n → EnsuresSets n r → IsLoaded (loaded r)
unfolding loaded
loaded-IsLoaded n (all_parsed l) some_set h =
    inl (refl, l, refl, omega (arith, h.0), h.1, omega arith)
loaded-IsLoaded n (stopped_at e k) some_set h = inr (h, refl, omega arith)

parse-IsLoaded : (a : Allocator) (o : Option Text) → IsLoaded (parse a o)
unfolding parse
parse-IsLoaded a none = inr (λ e. cc, refl, refl)
parse-IsLoaded a (some text) =
    let n = occurrences (codes "\"name\"") (length text) text in
    if_elim IsLoaded (not a.calloc_cfg) (λ e. inr (λ q. cc, refl, refl))
      (λ e.
        if_elim IsLoaded (n == 0) (λ z. inr (λ q. cc, refl, refl))
          (λ z.
            if_elim IsLoaded (not a.calloc_sets) (λ w. inr (λ q. cc, refl, refl))
              (λ w.
                loaded-IsLoaded n (load_sets a.calloc_frames n 0 text) (ground arith)
                  (load_sets-EnsuresSets a.calloc_frames n 0 text))))

-- Whatever the file has and whatever malloc and calloc answer, vf_parser_load_frames_cfg either returns
-- VF_SUCCESS with a configuration of at least one set, in which every set has a format, a name and a base path
-- that fit their buffers and as many frames as it counts, at least one, and every frame has a name that fits,
-- a width and a height above 0 and the whole path of its file; or it returns an error with no configuration,
-- and has given back every block that it got.
pub load_frames_cfg-IsLoaded :
    (a : Allocator) (file : Option Text) → IsLoaded (load_frames_cfg a file)
unfolding load_frames_cfg
load_frames_cfg-IsLoaded a file = parse-IsLoaded a (read_file file a.malloc_file)
