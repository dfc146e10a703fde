-- ===== src/Units/FileUnit.antt =====
-- service/src/units/file/vf-file-unit.c: a unit that reads frames from files, or writes them. A pointer to
-- a unit is not NULL. What the C library answers is a parameter, and so is where the buffer of a path lies
-- during a call.
pub mod Setup
pub mod Input
pub mod Output
pub mod Operations
pub mod Slots
mod Tests
use vision_flow.Base.{
  ℕ, zero, suc, ◌+◌, ◌-◌, ◌%◌, ◌^◌, Bool, true, false, not, ◌&&◌, ◌||◌, Option, none, some, List,
  [], ◌∷◌, ◌++◌, ◌==◌, if◌then◌else◌, take,
}
use vision_flow.Error.{VfErr, success, invalid_parameter, oom, is_success}
use vision_flow.Framebuffer.{Framebuffer, Params}
use vision_flow.Framebuffer.Ops.{set_meta}
use vision_flow.Framebuffer.Files.{Stdio, Done, write_to_fptr, read_from_fptr}
use vision_flow.File.{File, file_open, file_close}
use vision_flow.Sync.{Returned}
use vision_flow.Sync.Wait.{Wake, Blocking, returned, waiting}
use vision_flow.BuffPool.{Pool, release_at}
use vision_flow.BuffPool.Threads as PoolCalls
use vision_flow.BuffQueue.{Queue, push_at}
use vision_flow.BuffQueue.Threads as QueueCalls
use vision_flow.Units.{Frames, put_frame, Turn, ends, waits, strays, handed_out}

-- `vf_file_unit_mode_t`.
pub data Mode : Type 0 where
  mode_in mode_out : Mode

-- The two names of `vf_frame_info_t`.
pub record FrameInfo : Type 0 where
  pub file_name : List ℕ
  pub full_path : List ℕ

-- `vf_file_unit_cfg_t`. A frame set is `none` for NULL, and so is an extension.
pub record Config : Type 0 where
  pub frame_set : Option (List FrameInfo)
  pub file_path : List ℕ
  pub output_dir : List ℕ
  pub output_extension : Option (List ℕ)
  pub fb_params : Params
  pub has_pool : Bool
  pub mode : Mode
  pub split_output : ℕ

-- `vf_file_unit_data_t`.
pub record UnitData : Type 0 where
  pub file : File
  pub has_pool : Bool
  pub current_fb : ℕ
  pub fb_params : Params
  pub mode : Mode
  pub file_path : List ℕ
  pub output_dir : List ℕ
  pub output_extension : List ℕ
  pub frame_set : Option (List FrameInfo)
  pub frame_idx : ℕ
  pub split_output : ℕ

pub data Internal : Type 0 where
  absent : Internal
  configured : Config → Internal
  ready : UnitData → Internal

-- The C library: streams, fopen by mode and path (an address, 0 being NULL, and the stream), fclose,
-- the digits of %u, the clock, and the address of the local buffer `frame_path`.
pub record Library (S : Type 0) : Type 0 where
  pub io : Stdio S
  pub fopen : Mode → List ℕ → ℕ × S
  pub fclose : ℕ → ℕ
  pub decimal : ℕ → List ℕ
  pub sec : ℕ
  pub nsec : ℕ
  pub frame_path : ℕ

-- `published` has the frames that the unit announced as ready, in order.
pub record World (S : Type 0) : Type 0 where
  pub frames : Frames
  pub streams : ℕ → S
  pub internal : Internal
  pub in_queue : Option Queue
  pub out_queue : Option Queue
  pub pool : Pool
  pub published : List ℕ

-- `snprintf(buffer, n, "%s", text)`.
abbrev pub cut : ℕ → List ℕ → List ℕ
cut n text = take (n - 1) text

-- VF_PARSER_MAX_FULL_PATH_LEN.
abbrev pub path_len : ℕ
path_len = 256 + 128 + 2

abbrev pub or_empty : Option (List ℕ) → List ℕ
or_empty none = []
or_empty (some s) = s

abbrev pub frame_at : List FrameInfo → ℕ → Option FrameInfo
frame_at [] i = none
frame_at (f ∷ fs) zero = some f
frame_at (f ∷ fs) (suc i) = frame_at fs i

abbrev pub has_dot : List ℕ → Bool
has_dot [] = false
has_dot (c ∷ cs) = (c == 46) || has_dot cs

-- What is left of a name when strrchr has found its last dot, if it has one.
abbrev pub base_of : List ℕ → List ℕ
base_of [] = []
base_of (c ∷ cs) = if has_dot cs then c ∷ base_of cs else if c == 46 then [] else c ∷ cs

abbrev pub fresh : Config → UnitData
fresh c = record {
  file = record { fp = 0; path = []; is_open = 0 };
  has_pool = c.has_pool;
  current_fb = 0;
  fb_params = c.fb_params;
  mode = c.mode;
  file_path = cut path_len c.file_path;
  output_dir = cut path_len c.output_dir;
  output_extension = cut 16 (or_empty c.output_extension);
  frame_set = c.frame_set;
  frame_idx = 0;
  split_output = c.split_output;
}

abbrev pub is_in : Mode → Bool
is_in mode_in = true
is_in mode_out = false

abbrev pub input_path : UnitData → Option (List FrameInfo) → Option (List ℕ)
input_path d none = some (cut path_len d.file_path)
input_path d (some fs) = elim (frame_at fs d.frame_idx) [
  | none ↦ none
  | some f ↦ some (cut path_len f.full_path)
]

module _ {S : Type 0} where
  abbrev pub put_stream : (ℕ → S) → ℕ → S → ℕ → S
  put_stream streams a s b = if b == a then s else streams b

  -- The current frame goes back to the pool.
  abbrev pub drop_frame : Returned → UnitData → World S → World S
  drop_frame rc d w = record w {
    pool = if d.has_pool then (release_at rc w.pool d.current_fb).obj else w.pool;
    internal = ready (record d { current_fb = 0 });
  }

  -- The answer to a NULL pointer.
  abbrev pub refused : World S → UnitData → Done S
  refused w d = record {
    err = invalid_parameter;
    count = none;
    stream = w.streams d.file.fp;
    fb = w.frames d.current_fb;
  }

module _ {S : Type 0} (lib : Library S) where
  -- The handle is closed if it is open, and opened on a path.
  abbrev pub reopen : Mode → List ℕ → File → VfErr × File
  reopen mode path file =
      file_open (lib.fopen mode path).0 path
        (if file.is_open == 1 then (file_close (lib.fclose file.fp) file).1 else file)

  -- The streams after a file was opened, or was not.
  abbrev pub with_stream : Mode → List ℕ → VfErr × File → World S → World S
  with_stream mode path r w =
      if is_success r.0
      then record w { streams = put_stream w.streams r.1.fp (lib.fopen mode path).1 }
      else w
