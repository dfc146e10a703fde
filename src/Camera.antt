-- ===== src/Camera.antt =====
-- libraries/vf_camera: a camera over V4L2. Pointers to the camera, its configuration and the framebuffer
-- are not NULL. A failed call's errno is only logged, except for EINTR.
pub mod Calls
pub mod Setup
pub mod Life
pub mod Capture
pub mod Regions
pub mod Books
pub mod Unmapping
pub mod Mapping
pub mod Accounts
pub mod Outcome
pub mod Frames
pub mod InUnit
mod Tests
pub mod Steady
pub mod Lifetime
use Prim.Native.String.{String}
use vision_flow.Base.{
  ℕ, zero, suc, ◌+◌, ◌%◌, ◌^◌, Bool, true, false, not, Option, none, some, List, [], ◌∷◌, ◌++◌,
  if◌then◌else◌, ◌==◌, ltb, get_or, set, replicate, length,
}
use vision_flow.Error.{
  VfErr, success, invalid_parameter, oom, init_failed, camera_init_err, error_min, is_success,
  PixelFmt, unknown, yuyv, mjpeg,
}
use vision_flow.Framebuffer.{Framebuffer}
use vision_flow.Framebuffer.Ops.{memcpy, set_meta}
use Calls.{
  Request, querycap, streamon, streamoff, dqbuf, s_fmt, reqbufs, querybuf, qbuf, Call, opened,
  ioctl, mapped, unmapped, closed, selected, outside, Trace, Tries, accepted, failed, interrupted,
  Selected, select_failed, timed_out, readable, Capabilities, Kernel,
}

-- `vf_camera_cfg_t`.
pub record Config : Type 0 where
  pub device_path : String
  pub width : ℕ
  pub height : ℕ
  pub format : PixelFmt
  pub buffer_count : ℕ

-- `vf_camera_state_t`.
pub data State : Type 0 where
  stopped running error : State

-- A pointer that mmap gives: NULL, MAP_FAILED, or the address of a mapping.
pub data Pointer : Type 0 where
  null map_failed : Pointer
  at : ℕ → Pointer

-- `vf_camera_buffer_t`.
pub record Buffer : Type 0 where
  pub start : Pointer
  pub length : ℕ

-- `vf_camera_t`. A descriptor of -1 is `none`.
pub record Device : Type 0 where
  pub cfg : Config
  pub state : State
  pub fd : Option ℕ
  pub buffers : List Buffer
  pub buffer_count : ℕ
  pub frame_id : ℕ

-- `VF_CAMERA_MAX_BUFFERS`.
abbrev pub max_buffers : ℕ
max_buffers = 16

-- A camera, and the calls that were made on the kernel, in order.
pub record Session : Type 0 where
  pub camera : Device
  pub trace : Trace

abbrev pub no_buffer : Buffer
no_buffer = record { start = null; length = 0 }

-- The camera with every byte 0, whose configuration and descriptor init then sets.
abbrev pub zeroed : Device
zeroed = record {
  cfg = record { device_path = ""; width = 0; height = 0; format = unknown; buffer_count = 0 };
  state = stopped;
  fd = some 0;
  buffers = replicate 16 no_buffer;
  buffer_count = 0;
  frame_id = 0;
}

-- `vf_camera_state2str`.
unfoldable pub state2str : State → String
state2str stopped = "CAMERA_STATE_STOPPED"
state2str running = "CAMERA_STATE_RUNNING"
state2str error = "CAMERA_STATE_ERROR"

-- `pixel_fmt_to_v4l2`, the four characters of V4L2_PIX_FMT_MJPEG and of V4L2_PIX_FMT_YUYV.
unfoldable pub pixel_fmt_to_v4l2 : PixelFmt → String
pixel_fmt_to_v4l2 mjpeg = "MJPG"
pixel_fmt_to_v4l2 f = "YUYV"

abbrev pub is_stopped : State → Bool
is_stopped stopped = true
is_stopped s = false

abbrev pub is_running : State → Bool
is_running running = true
is_running s = false

abbrev pub log_call : Session → Call → Session
log_call s c = record s { trace = s.trace ++ (c ∷ []) }

-- What `camera_ioctl` returns, what the kernel wrote to the argument if it did, and the calls made.
pub record Asked (A : Type 0) : Type 0 where
  pub err : VfErr
  pub reply : Option A
  pub after : Session

-- `camera_ioctl`, by the answers to its attempts.
unfoldable pub camera_ioctl : {A : Type 0} → Request → Tries A → Session → Asked A
camera_ioctl r (accepted a) s = record {
  err = success;
  reply = some a;
  after = log_call s (ioctl r s.camera.fd);
}
camera_ioctl r failed s = record {
  err = error_min;
  reply = none;
  after = log_call s (ioctl r s.camera.fd);
}
camera_ioctl r (interrupted t) s = camera_ioctl r t (log_call s (ioctl r s.camera.fd))

-- An argument after a request: as it was if the request failed.
abbrev pub written : {A : Type 0} → Option A → A → A
written none old = old
written (some a) old = a

abbrev pub set_buffer : Device → ℕ → Buffer → Device
set_buffer d i b = record d { buffers = set d.buffers i b }

abbrev pub buffer_at : Device → ℕ → Buffer
buffer_at d i = get_or d.buffers i no_buffer

-- An access to `buffers[i]`, which is noted if it is past the end of the array.
abbrev pub access : Session → ℕ → Session
access s i = if ltb i max_buffers then s else log_call s outside

-- What mmap returns.
abbrev pub pointer : Option ℕ → Pointer
pointer none = map_failed
pointer (some a) = at a

-- munmap of a buffer whose pointer is neither NULL nor MAP_FAILED.
abbrev pub munmap_start : Session → ℕ → Buffer → Pointer → Session
munmap_start s i b null = s
munmap_start s i b map_failed = s
munmap_start s i b (at a) =
    let t = log_call s (unmapped a b.length) in
    record t { camera = set_buffer t.camera i (record b { start = null }) }

abbrev pub unmap_buffer : ℕ → Session → Session
unmap_buffer i s = let b = buffer_at s.camera i in munmap_start (access s i) i b b.start

-- The loop that unmaps n buffers from the i-th on.
unfoldable pub unmap_from : ℕ → ℕ → Session → Session
unmap_from zero i s = s
unmap_from (suc n) i s = unmap_from n (suc i) (unmap_buffer i s)

abbrev pub unmap_all : Session → Session
unmap_all s = unmap_from s.camera.buffer_count 0 s

abbrev pub close_if : Session → Option ℕ → Session
close_if s none = s
close_if s (some fd) = log_call s (closed fd)

-- close, and the descriptor and the state set after it.
abbrev pub close_as : State → Session → Session
close_as st s =
    let t = close_if s s.camera.fd in
    record t { camera = record t.camera { fd = none; state = st } }
