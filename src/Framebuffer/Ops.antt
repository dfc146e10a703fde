-- ===== src/Framebuffer/Ops.antt =====
-- The operations of vf-framebuffer.c on a framebuffer that is set up: copy, clear, metadata and
-- reference counting. A release function is not called here: the result says whether it is.
use vision_flow.Base.{
  ℕ, ◌+◌, ◌-◌, ◌*◌, ◌/◌, ◌%◌, ◌^◌, Bool, false, not, Option, none, some, List, ◌++◌, ◌==◌,
  if◌then◌else◌, take, drop,
}
use vision_flow.Error.{VfErr, success, invalid_parameter, PixelFmt, fmt_eq}
use vision_flow.Framebuffer.{Framebuffer, memset}

-- `memcpy(dst, src, n)`.
abbrev pub memcpy : List ℕ → List ℕ → ℕ → List ℕ
memcpy dst src n = take n src ++ drop n dst

-- `vf_framebuffer_copy` at two different framebuffers.
unfoldable pub copy : Framebuffer → Framebuffer → VfErr × Framebuffer
copy dst src = copy_bytes dst.bytes src.bytes
  where
    copy_bytes : Option (List ℕ) → Option (List ℕ) → VfErr × Framebuffer
    copy_bytes none s = (invalid_parameter, dst)
    copy_bytes (some d) none = (invalid_parameter, dst)
    copy_bytes (some d) (some s) =
        if not (dst.total_size == src.total_size)
        then (invalid_parameter, dst)
        else if not (fmt_eq dst.params.format src.params.format)
        then (invalid_parameter, dst)
        else (success, record dst { bytes = some (memcpy d s src.total_size) })

-- `vf_framebuffer_clear`.
unfoldable pub clear : Framebuffer → VfErr × Framebuffer
clear fb = elim fb.bytes [
  | none ↦ (invalid_parameter, fb)
  | some bs ↦ (success, record fb { bytes = some (memset bs 0 fb.total_size) })
]

-- The clock that `vf_framebuffer_set_meta` reads, in milliseconds.
abbrev pub clock_ms : ℕ → ℕ → ℕ
clock_ms sec nsec = (sec * 1000 + nsec / 1_000_000) % 2 ^ 64

-- `vf_framebuffer_set_meta` at a source name that is not NULL and a clock reading.
unfoldable pub set_meta : Framebuffer → ℕ → ℕ → ℕ → ℕ → ℕ → PixelFmt → ℕ → ℕ → Framebuffer
set_meta fb frame_id sequence_index source width height format sec nsec = record fb {
  info = record {
    frame_id = frame_id;
    sequence_index = sequence_index;
    timestamp_ms = clock_ms sec nsec;
    source = source;
    width = width;
    height = height;
    format = format;
  };
}

-- `vf_framebuffer_ref`.
unfoldable pub ref : Framebuffer → Framebuffer
ref fb = record fb { ref_count = (fb.ref_count + 1) % 2 ^ 32 }

-- `vf_framebuffer_unref`: whether the release function is called, given that the pool and the
-- function are not NULL, and the framebuffer at that moment. At a count of 0 the decrement is undone.
unfoldable pub unref : Bool → Framebuffer → Bool × Framebuffer
unref given fb =
    let prev = fb.ref_count in
    let lowered = (prev + 2 ^ 32 - 1) % 2 ^ 32 in
    if prev == 0
    then (given, record fb { ref_count = (lowered + 1) % 2 ^ 32 })
    else if prev == 1
    then (given, record fb { ref_count = lowered })
    else (false, record fb { ref_count = lowered })
