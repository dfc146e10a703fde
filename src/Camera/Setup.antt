-- ===== src/Camera/Setup.antt =====
-- vf_camera_init: the device is opened, and its buffers are mapped and queued.
use Prim.Native.String.{String}
use vision_flow.Base.{ℕ, zero, suc, false, not, Option, none, some, if◌then◌else◌, ◌==◌, ltb}
use vision_flow.Error.{VfErr, success, invalid_parameter, oom, init_failed, is_success}
use vision_flow.Camera.Calls.{
  querycap, s_fmt, reqbufs, querybuf, qbuf, opened, mapped, Capabilities, Kernel,
}
use vision_flow.Camera.{
  Asked, Config, Session, access, camera_ioctl, close_as, log_call, max_buffers, pixel_fmt_to_v4l2,
  pointer, set_buffer, unmap_all, written, zeroed, stopped, error,
}

-- The labels `close_fd` and `unmap_buffers`.
abbrev pub close_fd : VfErr → Session → VfErr × Session
close_fd e s = (e, close_as error s)

abbrev pub unmap_buffers : VfErr → Session → VfErr × Session
unmap_buffers e s = close_fd e (unmap_all s)

-- A loop over n buffers from the i-th on, which an error ends.
unfoldable pub for_buffers : (ℕ → Session → VfErr × Session) → ℕ → ℕ → Session → VfErr × Session
for_buffers f zero i s = (success, s)
for_buffers f (suc n) i s =
    let (e, t) = f i s in if is_success e then for_buffers f n (suc i) t else (e, t)

-- What follows the loop that queues the buffers.
abbrev pub queued : VfErr × Session → VfErr × Session
queued (e, s) = if is_success e then (success, s) else unmap_buffers e s

abbrev pub configured : Session → Config → Session
configured s cfg = record s { camera = record zeroed { cfg = cfg; state = stopped; fd = none } }

module _ (kernel : Kernel) where
  -- What follows VIDIOC_QUERYBUF of one buffer.
  unfoldable pub map_reply : ℕ → Asked (ℕ × ℕ) → VfErr × Session
  map_reply i q =
      if not (is_success q.err)
      then (q.err, q.after)
      else let (len, offset) = written q.reply (0, 0) in
        let a = kernel.mmap q.after.trace len offset in
        let t = log_call (access q.after i) (mapped a len) in
        let t' = record t {
          camera = set_buffer t.camera i (record { start = pointer a; length = len });
        } in
        (elim a [ none ↦ oom | some x ↦ success ], t')

  abbrev pub map_buffer : ℕ → Session → VfErr × Session
  map_buffer i s = map_reply i (camera_ioctl (querybuf i) (kernel.querybuf_reply s.trace i) s)

  abbrev pub queue_buffer : ℕ → Session → VfErr × Session
  queue_buffer i s =
      let q = camera_ioctl (qbuf i) (kernel.qbuf_reply s.trace i) s in (q.err, q.after)

  -- What follows the loop that maps the buffers.
  abbrev pub mapped_all : VfErr × Session → VfErr × Session
  mapped_all (e, s) =
      if is_success e
      then queued (for_buffers queue_buffer s.camera.buffer_count 0 s)
      else unmap_buffers e s

  -- What follows VIDIOC_REQBUFS.
  unfoldable pub granted : Asked ℕ → VfErr × Session
  granted q =
      let n = written q.reply q.after.camera.cfg.buffer_count in
      if not (is_success q.err)
      then close_fd q.err q.after
      else if n == 0
      then close_fd oom q.after
      else let s = record q.after { camera = record q.after.camera { buffer_count = n } } in
        mapped_all (for_buffers map_buffer n 0 s)

  abbrev pub request : Session → VfErr × Session
  request s =
      let n = s.camera.cfg.buffer_count in
      granted (camera_ioctl (reqbufs n) (kernel.reqbufs_reply s.trace n) s)

  -- What follows VIDIOC_S_FMT: the format that the driver chose is not read.
  unfoldable pub formatted : Asked (ℕ × ℕ × String) → VfErr × Session
  formatted q = if is_success q.err then request q.after else close_fd q.err q.after

  abbrev pub set_format : Session → VfErr × Session
  set_format s =
      let cfg = s.camera.cfg in
      let fmt = pixel_fmt_to_v4l2 cfg.format in
      formatted (camera_ioctl (s_fmt cfg.width cfg.height fmt) (kernel.s_fmt_reply s.trace) s)

  -- What follows VIDIOC_QUERYCAP.
  unfoldable pub capable : Asked Capabilities → VfErr × Session
  capable q =
      let cap = written q.reply (record { video_capture = false; streaming = false }) in
      if not (is_success q.err)
      then close_fd q.err q.after
      else if not cap.video_capture
      then close_fd init_failed q.after
      else if not cap.streaming
      then close_fd init_failed q.after
      else set_format q.after

  -- What follows open, on a camera whose descriptor is -1.
  unfoldable pub device_opened : Session → Option ℕ → VfErr × Session
  device_opened s none = (init_failed, log_call s (opened none))
  device_opened s (some fd) =
      let t = log_call s (opened (some fd)) in
      let t' = record t { camera = record t.camera { fd = some fd } } in
      capable (camera_ioctl querycap (kernel.querycap_reply t'.trace) t')

  -- `vf_camera_init`.
  unfoldable pub init : Session → Config → VfErr × Session
  init s cfg =
      if ltb max_buffers cfg.buffer_count
      then (invalid_parameter, s)
      else device_opened (configured s cfg) (kernel.open_device s.trace cfg.device_path)
