-- ===== src/Camera/Frames.antt =====
-- What vf_camera_acquire_frame gives, and what the calls on a camera return when the driver fails.
use vision_flow.Base.{
  ap₂, ℕ, ◌+◌, ◌%◌, ◌^◌, ◌<◌, ◌≡◌, refl, sym, ap, subst, ◌∙◌, ◌⊎◌, inl, inr, some, List,
  if◌then◌else◌, ltb,
}
use vision_flow.Error.{success, init_failed, camera_init_err}
use vision_flow.Framebuffer.{Framebuffer}
use vision_flow.Framebuffer.Ops.{memcpy, set_meta}
use vision_flow.Camera.Calls.{
  Kernel, Selected, select_failed, timed_out, readable, dqbuf, qbuf, streamon, streamoff, selected,
}
use vision_flow.Camera.{
  is_stopped, is_running, Asked, Session, at, State, stopped, running, camera_ioctl, log_call,
  buffer_at,
}
use vision_flow.Camera.Life.{start, stop, stream_as}
use vision_flow.Camera.Capture.{acquire_frame, waited, dequeued, requeued, stamped, copied}
use vision_flow.Camera.Unmapping.{access_within}
use vision_flow.Camera.Books.{camera_ioctl-camera, camera_ioctl-success}

stream_as_lem :
    (st : State) (q : Asked Unit)
    → q.err ≡ success
    → ((stream_as st q).0 ≡ success) × ((stream_as st q).1.camera.state ≡ st)
stream_as_lem st q e = rw e (refl, refl)

module _ (kernel : Kernel) where
  start_lem :
      (s : Session)
      → s.camera.state ≡ stopped
      → ((start kernel s).0 ≡ success) × ((start kernel s).1.camera.state ≡ running)
  unfolding start
  start_lem s h =
      let q = camera_ioctl streamon (kernel.streamon_reply s.trace) s in
      subst
        (λ (x : State).
          let r = (if is_stopped x then stream_as running q else (init_failed, s)) in
          (r.0 ≡ success) × (r.1.camera.state ≡ running))
        (sym h)
        (stream_as_lem running q
          (camera_ioctl-success streamon (kernel.streamon_reply s.trace) s).0)

  stop_lem :
      (s : Session)
      → s.camera.state ≡ running
      → ((stop kernel s).0 ≡ success) × ((stop kernel s).1.camera.state ≡ stopped)
  unfolding stop
  stop_lem s h =
      let q = camera_ioctl streamoff (kernel.streamoff_reply s.trace) s in
      subst
        (λ (x : State).
          let r = (if is_running x then stream_as stopped q else (success, s)) in
          (r.0 ≡ success) × (r.1.camera.state ≡ stopped))
        (sym h)
        (stream_as_lem stopped q
          (camera_ioctl-success streamoff (kernel.streamoff_reply s.trace) s).0)

  -- A stopped camera is running after start and stopped again after a stop, and both calls return VF_SUCCESS,
  -- whatever the driver answers, also when it refuses both.
  pub stop-start :
      (s : Session)
      → s.camera.state ≡ stopped
      → ((start kernel s).0 ≡ success)
        × ((start kernel s).1.camera.state ≡ running)
        × ((stop kernel (start kernel s).1).0 ≡ success)
        × ((stop kernel (start kernel s).1).1.camera.state ≡ stopped)
  stop-start s h =
      let on = start_lem s h in
      let off = stop_lem (start kernel s).1 on.1 in (on.0, on.1, off.0, off.1)

abbrev pub watched : Session → Session
watched s = log_call s (selected s.camera.fd)

module _ (kernel : Kernel) (name_at : ℕ) where
  -- The session after VIDIOC_DQBUF, with its answer.
  abbrev pub dequeue : Session → Asked (ℕ × ℕ)
  dequeue s = camera_ioctl dqbuf (kernel.dqbuf_reply (watched s).trace) (watched s)

  dequeued_lem :
      (t : Session) (fb : Framebuffer) (i n a : ℕ) (bs : List ℕ)
      → i < 16
      → (buffer_at t.camera i).start ≡ at a
      → fb.bytes ≡ some bs
      → dequeued kernel name_at fb (record { err = success; reply = some (i, n); after = t })
        ≡ requeued kernel name_at i (
            stamped kernel name_at t (record fb {
              bytes = some (
                  memcpy bs
                    (kernel.memory t.trace a)
                    (if ltb n fb.total_size then n else fb.total_size));
            }))
  unfolding dequeued
  dequeued_lem t fb i n a bs lt p b =
      let size = if ltb n fb.total_size then n else fb.total_size in
      subst
        (λ s.
          requeued kernel name_at i (
            let c =
              copied (kernel.memory s.trace) s fb (buffer_at s.camera i).start size fb.bytes in
            stamped kernel name_at c.0 c.1)
          ≡ requeued kernel name_at i (
              stamped kernel name_at t
                (record fb { bytes = some (memcpy bs (kernel.memory t.trace a) size) })))
        (sym (access_within t i lt))
        (ap₂
          (λ q o.
            let c = copied (kernel.memory t.trace) t fb q size o in
            requeued kernel name_at i (stamped kernel name_at c.0 c.1))
          p b)

  requeued_lem :
      (i : ℕ) (p : Session × Framebuffer)
      → requeued kernel name_at i p
        ≡ (success, (camera_ioctl (qbuf i) (kernel.qbuf_reply p.0.trace i) p.0).after, p.1)
  requeued_lem i (t, fb) = rw (camera_ioctl-success (qbuf i) (kernel.qbuf_reply t.trace i) t).0 refl

  acquire_frame_lem :
      (s : Session) (fb : Framebuffer) (r : Selected)
      → s.camera.state ≡ running
      → kernel.select s.trace ≡ r
      → acquire_frame kernel name_at s fb ≡ waited kernel name_at (watched s) fb r
  unfolding acquire_frame
  acquire_frame_lem s fb r h e =
      ap₂
        (λ (x : State) (o : Selected).
          if is_running x then waited kernel name_at (watched s) fb o else (camera_init_err, s, fb))
        h e

  -- A running camera whose device is readable and hands out the i-th buffer, mapped at an address, with n
  -- bytes: vf_camera_acquire_frame returns VF_SUCCESS, the first bytes of the mapping, n or the size of the
  -- framebuffer if that is less, are at the front of the frame, and the metadata has the frame's number,
  -- which is one more for the next; nothing else of the camera changes.
  pub acquire_frame-taken :
      (s : Session) (fb : Framebuffer) (i n a : ℕ) (bs : List ℕ)
      → s.camera.state ≡ running
      → kernel.select s.trace ≡ readable
      → (dequeue s).reply ≡ some (i, n)
      → i < 16
      → (buffer_at s.camera i).start ≡ at a
      → fb.bytes ≡ some bs
      → let d = s.camera in
        let c = d.cfg in
        let t = (dequeue s).after.trace in
        let (sec, nsec) = kernel.clock t in
        (s' : Session) × (acquire_frame kernel name_at s fb ≡ (
          success,
          s',
          set_meta
              (record fb {
                bytes = some (
                    memcpy bs
                      (kernel.memory t a)
                      (if ltb n fb.total_size then n else fb.total_size));
              })
              d.frame_id
              d.frame_id
              name_at
              c.width
              c.height
              c.format
              sec
              nsec,
        ))
        × (s'.camera ≡ record d { frame_id = (d.frame_id + 1) % 2 ^ 32 })
  unfolding waited
  acquire_frame-taken s fb i n a bs run ready got lt p b =
      let q = dequeue s in
      let reply = kernel.dqbuf_reply (watched s).trace in
      let t : Session = record { camera = s.camera; trace = q.after.trace } in
      let answered : q ≡ record { err = success; reply = some (i, n); after = t } =
        ap₂ (λ x y. record { err = x; reply = y; after = q.after })
          (camera_ioctl-success dqbuf reply (watched s)).0 got
        ∙ ap
            (λ d. record {
              err = success;
              reply = some (i, n);
              after = record { camera = d; trace = q.after.trace };
            })
            (camera_ioctl-camera dqbuf reply (watched s)) in
      let size = if ltb n fb.total_size then n else fb.total_size in
      let next =
        stamped kernel name_at t
          (record fb { bytes = some (memcpy bs (kernel.memory t.trace a) size) }) in
      let back = kernel.qbuf_reply next.0.trace i in
      (
        (camera_ioctl (qbuf i) back next.0).after,
        acquire_frame_lem s fb readable run ready
            ∙ ap (dequeued kernel name_at fb) answered
            ∙ dequeued_lem t fb i n a bs lt p b
            ∙ requeued_lem i next,
        camera_ioctl-camera (qbuf i) back next.0,
      )

  -- A running camera whose select fails or times out returns VF_SUCCESS all the same, with the camera and the
  -- frame as they were: the caller takes the old contents for a frame.
  pub acquire_frame_missed :
      (s : Session) (fb : Framebuffer)
      → s.camera.state ≡ running
      → (kernel.select s.trace ≡ select_failed) ⊎ (kernel.select s.trace ≡ timed_out)
      → acquire_frame kernel name_at s fb ≡ (success, watched s, fb)
  unfolding waited
  acquire_frame_missed s fb run (inl e) = acquire_frame_lem s fb select_failed run e
  acquire_frame_missed s fb run (inr e) = acquire_frame_lem s fb timed_out run e
