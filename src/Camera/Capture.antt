-- ===== src/Camera/Capture.antt =====
-- vf_camera_acquire_frame: a filled buffer of the driver is copied into a framebuffer and queued again.
use vision_flow.Base.{ℕ, ◌+◌, ◌%◌, ◌^◌, Option, none, some, List, if◌then◌else◌, ltb}
use vision_flow.Error.{VfErr, success, camera_init_err, error_min, is_success}
use vision_flow.Framebuffer.{Framebuffer}
use vision_flow.Framebuffer.Ops.{memcpy, set_meta}
use vision_flow.Camera.Calls.{
  dqbuf, qbuf, selected, outside, Selected, select_failed, timed_out, readable, Kernel,
}
use vision_flow.Camera.{
  Asked, Pointer, Session, access, buffer_at, camera_ioctl, is_running, log_call, written, null,
  map_failed, at,
}

-- The bytes that a mapping shows, or an access through a pointer that is no mapping.
abbrev pub copied :
    (ℕ → List ℕ) → Session → Framebuffer → Pointer → ℕ → Option (List ℕ) → Session × Framebuffer
copied memory s fb (at a) n (some bs) = (s, record fb { bytes = some (memcpy bs (memory a) n) })
copied memory s fb (at a) n none = (log_call s outside, fb)
copied memory s fb null n bs = (log_call s outside, fb)
copied memory s fb map_failed n bs = (log_call s outside, fb)

-- A frame is taken by a kernel; the address is that of the name in the camera's configuration.
module _ (kernel : Kernel) (name_at : ℕ) where
  -- The metadata, and the number of the next frame.
  abbrev pub stamped : Session → Framebuffer → Session × Framebuffer
  stamped s fb =
      let d = s.camera in
      let (sec, nsec) = kernel.clock s.trace in
      (
        record s { camera = record d { frame_id = (d.frame_id + 1) % 2 ^ 32 } },
        set_meta fb d.frame_id d.frame_id name_at d.cfg.width d.cfg.height d.cfg.format sec nsec,
      )

  abbrev pub requeued : ℕ → Session × Framebuffer → VfErr × Session × Framebuffer
  requeued index (s, fb) =
      let q = camera_ioctl (qbuf index) (kernel.qbuf_reply s.trace index) s in
      if is_success q.err then (success, q.after, fb) else (error_min, q.after, fb)

  -- What follows VIDIOC_DQBUF.
  unfoldable pub dequeued : Framebuffer → Asked (ℕ × ℕ) → VfErr × Session × Framebuffer
  dequeued fb q =
      let (index, bytesused) = written q.reply (0, 0) in
      let size = if ltb bytesused fb.total_size then bytesused else fb.total_size in
      let s = access q.after index in
      let b = buffer_at s.camera index in
      let (s', fb') = copied (kernel.memory s.trace) s fb b.start size fb.bytes in
      if is_success q.err then requeued index (stamped s' fb') else (error_min, q.after, fb)

  -- What follows select.
  unfoldable pub waited : Session → Framebuffer → Selected → VfErr × Session × Framebuffer
  waited s fb select_failed = (error_min, s, fb)
  waited s fb timed_out = (error_min, s, fb)
  waited s fb readable = dequeued fb (camera_ioctl dqbuf (kernel.dqbuf_reply s.trace) s)

  -- `vf_camera_acquire_frame`.
  unfoldable pub acquire_frame : Session → Framebuffer → VfErr × Session × Framebuffer
  acquire_frame s fb =
      if is_running s.camera.state
      then waited (log_call s (selected s.camera.fd)) fb (kernel.select s.trace)
      else (camera_init_err, s, fb)
