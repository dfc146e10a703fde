-- ===== src/Units.antt =====
-- service/src/units: the operations that the units give to a processing unit. A world has what the
-- operations of one unit reach: its internal data, its queues, its pools and the framebuffers. The
-- queues and the pools of a unit are different objects, as the service sets them up.
pub mod ConversionUnit
pub mod StreamProvider
pub mod FileUnit
pub mod CameraUnit
pub mod Heap
pub mod Samples
use vision_flow.Base.{ℕ, Bool, true, Option, none, some, ◌==◌, if◌then◌else◌}
use vision_flow.Error.{VfErr, is_success}
use vision_flow.Sync.{Returned}
use vision_flow.Framebuffer.{Framebuffer}
use vision_flow.Framebuffer.Ops
use vision_flow.BuffPool.{Pool, release_at}

-- The framebuffers by address. They are the memory of the pools' slots, which no call on a pool that
-- runs reads.
abbrev pub Frames : Type 0
Frames = ℕ → Framebuffer

abbrev pub put_frame : Frames → ℕ → Framebuffer → Frames
put_frame frames a fb b = if b == a then fb else frames b

-- How an operation of a unit goes: it returns a code, or it waits in a blocking call, or it accesses
-- memory that is not what the code takes it for.
pub data Turn (W : Type 0) : Type 0 where
  ends : VfErr → W → Turn W
  waits : W → Turn W
  strays : Turn W

-- What a blocking call leaves in a pointer that it may not have written.
abbrev pub handed_out : Option ℕ → ℕ → ℕ
handed_out none old = old
handed_out (some a) old = a

-- The pool after the release function that vf_framebuffer_unref calls, or does not call.
abbrev pub released_if : Bool → Returned → Pool → ℕ → Pool
released_if b rc pool a = if b then (release_at rc pool a).obj else pool

-- `vf_framebuffer_unref` of the frame at an address, with a pool and vf_buf_pool_release.
abbrev pub unref_frame : Returned → Pool → Frames → ℕ → Frames × Pool
unref_frame rc pool frames a =
    let dropped = Ops.unref true (frames a) in
    (put_frame frames a dropped.1, released_if dropped.0 rc pool a)

-- One operation after another, whatever the first returned: the thread of a unit goes on after an error.
abbrev pub and_then : {W : Type 0} → Turn W → (W → Turn W) → Turn W
and_then (ends e w) f = f w
and_then (waits w) f = waits w
and_then strays f = strays

-- The next operation of a turn, which an error of the one before it ends.
abbrev pub if_successful : {W : Type 0} → Turn W → (W → Turn W) → Turn W
if_successful (ends e w) f = if is_success e then f w else ends e w
if_successful (waits w) f = waits w
if_successful strays f = strays
