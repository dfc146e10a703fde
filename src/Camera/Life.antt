-- ===== src/Camera/Life.antt =====
-- vf_camera_start, vf_camera_stop and vf_camera_deinit.
use vision_flow.Base.{ℕ, Option, none, some, if◌then◌else◌}
use vision_flow.Error.{VfErr, success, init_failed, error_min, is_success}
use vision_flow.Camera.Calls.{streamon, streamoff, Kernel}
use vision_flow.Camera.{
  Asked, Session, State, camera_ioctl, close_as, is_running, is_stopped, unmap_all, stopped,
  running, error,
}

-- `vf_camera_deinit` of a camera that does not run: unmap and close.
abbrev pub released : Session → VfErr × Session
released s = (success, close_as stopped (unmap_all s))

abbrev pub stream_as : State → Asked Unit → VfErr × Session
stream_as st q =
    let to = λ (x : State). record q.after { camera = record q.after.camera { state = x } } in
    if is_success q.err then (success, to st) else (error_min, to error)

abbrev pub stop_first : VfErr × Session → VfErr × Session
stop_first (e, s) = if is_success e then released s else (e, s)

module _ (kernel : Kernel) where
  -- `vf_camera_start`.
  unfoldable pub start : Session → VfErr × Session
  start s =
      if is_stopped s.camera.state
      then stream_as running (camera_ioctl streamon (kernel.streamon_reply s.trace) s)
      else (init_failed, s)

  -- `vf_camera_stop`.
  unfoldable pub stop : Session → VfErr × Session
  stop s =
      if is_running s.camera.state
      then stream_as stopped (camera_ioctl streamoff (kernel.streamoff_reply s.trace) s)
      else (success, s)

  abbrev pub deinit_open : Session → Option ℕ → VfErr × Session
  deinit_open s none = (success, s)
  deinit_open s (some fd) = if is_running s.camera.state then stop_first (stop s) else released s

  -- `vf_camera_deinit`.
  unfoldable pub deinit : Session → VfErr × Session
  unfolding stop
  deinit s = deinit_open s s.camera.fd
