-- ===== src/Camera/Steady.antt =====
-- The calls between init and deinit, and what a camera has mapped and opened.
use vision_flow.Base.{
  if◌then◌else◌, ℕ, ◌≡◌, refl, sym, ap, ◌∙◌, Option, none, some, List, [], length, if_elim, ltb,
  arith,
}
use vision_flow.Error.{VfErr, is_success}
use vision_flow.Framebuffer.{Framebuffer}
use vision_flow.Camera.Calls.{
  selected, Kernel, Request, Call, Tries, Selected, select_failed, timed_out, readable, streamon,
  streamoff, dqbuf, qbuf, outside, region_mapped, region_unmapped, fd_opened, fd_closed,
}
use vision_flow.Camera.{
  written, buffer_at, Asked, Session, State, Pointer, null, map_failed, at, stopped, running, error,
  camera_ioctl, log_call, is_stopped, is_running, access,
}
use vision_flow.Camera.Life.{start, stop, stream_as}
use vision_flow.Camera.Capture.{acquire_frame, waited, dequeued, requeued, stamped, copied}
use vision_flow.Camera.Regions.{regions}
use vision_flow.Camera.Books.{
  Books, Books-quiet, camera_ioctl-Books, camera_ioctl-camera, camera_ioctl-success,
}
use vision_flow.Camera.Accounts.{Accounted}

-- From a session to a later one nothing was mapped, unmapped, opened or closed.
pub record Steady (s t : Session) : Type 0 where
  pub buffers : t.camera.buffers ≡ s.camera.buffers
  pub count : t.camera.buffer_count ≡ s.camera.buffer_count
  pub fd : t.camera.fd ≡ s.camera.fd
  pub books : (h : List (ℕ × ℕ)) (f : List ℕ) → Books s.trace h f → Books t.trace h f

pub Steady-refl : (s : Session) → Steady s s
Steady-refl s = record { buffers = refl; count = refl; fd = refl; books = λ h f b. b }

pub Steady-trans : {s t u : Session} → Steady s t → Steady t u → Steady s u
Steady-trans a b = record {
  buffers = b.buffers ∙ a.buffers;
  count = b.count ∙ a.count;
  fd = b.fd ∙ a.fd;
  books = λ h f k. b.books h f (a.books h f k);
}

Steady-log :
    (s : Session) (c : Call)
    → (region_mapped c ≡ []) × (region_unmapped c ≡ [])
    → (fd_opened c ≡ []) × (fd_closed c ≡ [])
    → Steady s (log_call s c)
Steady-log s c m o = record {
  buffers = refl;
  count = refl;
  fd = refl;
  books = λ h f b. Books-quiet c m o b;
}

Steady-ioctl :
    {A : Type 0} (r : Request) (t : Tries A) (s : Session) → Steady s (camera_ioctl r t s).after
Steady-ioctl r t s =
    let same = camera_ioctl-camera r t s in
    record {
      buffers = ap (λ d. d.buffers) same;
      count = ap (λ d. d.buffer_count) same;
      fd = ap (λ d. d.fd) same;
      books = λ h f b. camera_ioctl-Books r t s b;
    }

pub Steady-Accounted : {s t : Session} → Steady s t → Accounted s → Accounted t
Steady-Accounted {s = s} {t = t} k h = record {
  sixteen = ap length k.buffers ∙ h.sixteen;
  within = omega (arith, k.count, h.within);
  above = rw (k.buffers, k.count) h.above;
  books = rw (k.buffers, k.fd) (k.books _ _ h.books);
  idle = λ e. ap regions k.buffers ∙ h.idle (sym k.fd ∙ e);
}

stream_as-Steady :
    (st : State) {s : Session} (q : Asked Unit) → Steady s q.after → Steady s (stream_as st q).1
stream_as-Steady st {s = s} q k =
    if_elim (λ (r : VfErr × Session). Steady s r.1) (is_success q.err) (λ _. same) (λ _. same')
  where
    same : Steady s (record q.after { camera = record q.after.camera { state = st } })
    same = record { buffers = k.buffers; count = k.count; fd = k.fd; books = k.books }

    same' : Steady s (record q.after { camera = record q.after.camera { state = error } })
    same' = record { buffers = k.buffers; count = k.count; fd = k.fd; books = k.books }

module _ (kernel : Kernel) where
  pub start-Steady : (s : Session) → Steady s (start kernel s).1
  unfolding start
  start-Steady s =
      if_elim (λ (r : VfErr × Session). Steady s r.1) (is_stopped s.camera.state)
        (λ _.
          stream_as-Steady running (camera_ioctl streamon (kernel.streamon_reply s.trace) s)
            (Steady-ioctl streamon (kernel.streamon_reply s.trace) s))
        (λ _. Steady-refl s)

  pub stop-Steady : (s : Session) → Steady s (stop kernel s).1
  unfolding stop
  stop-Steady s =
      if_elim (λ (r : VfErr × Session). Steady s r.1) (is_running s.camera.state)
        (λ _.
          stream_as-Steady stopped (camera_ioctl streamoff (kernel.streamoff_reply s.trace) s)
            (Steady-ioctl streamoff (kernel.streamoff_reply s.trace) s))
        (λ _. Steady-refl s)

Steady-copied :
    (memory : ℕ → List ℕ) (s : Session) (fb : Framebuffer) (p : Pointer) (n : ℕ)
    (bs : Option (List ℕ))
    → Steady s (copied memory s fb p n bs).0
Steady-copied memory s fb (at a) n (some bs) = Steady-refl s
Steady-copied memory s fb (at a) n none = Steady-log s outside (refl, refl) (refl, refl)
Steady-copied memory s fb null n bs = Steady-log s outside (refl, refl) (refl, refl)
Steady-copied memory s fb map_failed n bs = Steady-log s outside (refl, refl) (refl, refl)

Steady-access : (s : Session) (i : ℕ) → Steady s (access s i)
Steady-access s i =
    if_elim (Steady s) (ltb i 16) (λ _. Steady-refl s)
      (λ _. Steady-log s outside (refl, refl) (refl, refl))

module _ (kernel : Kernel) (name_at : ℕ) where
  requeued-Steady :
      {s : Session} (i : ℕ) (p : Session × Framebuffer)
      → Steady s p.0
      → Steady s (requeued kernel name_at i p).1
  requeued-Steady {s = s} i (t, fb) k =
      let q = camera_ioctl (qbuf i) (kernel.qbuf_reply t.trace i) t in
      rw (camera_ioctl-success (qbuf i) (kernel.qbuf_reply t.trace i) t).0
        (Steady-trans k (Steady-ioctl (qbuf i) (kernel.qbuf_reply t.trace i) t))

  stamped-Steady :
      {s : Session} (t : Session) (fb : Framebuffer)
      → Steady s t
      → Steady s (stamped kernel name_at t fb).0
  stamped-Steady t fb k = record {
    buffers = k.buffers;
    count = k.count;
    fd = k.fd;
    books = k.books;
  }

  dequeued-Steady :
      {s : Session} (fb : Framebuffer) (q : Asked (ℕ × ℕ))
      → Steady s q.after
      → Steady s (dequeued kernel name_at fb q).1
  unfolding dequeued
  dequeued-Steady {s = s} fb q k =
      let w = written q.reply (0, 0) in
      let size = if ltb w.1 fb.total_size then w.1 else fb.total_size in
      let s1 = access q.after w.0 in
      let p = (buffer_at s1.camera w.0).start in
      let c = copied (kernel.memory s1.trace) s1 fb p size fb.bytes in
      let k2 =
        Steady-trans (Steady-trans k (Steady-access q.after w.0))
          (Steady-copied (kernel.memory s1.trace) s1 fb p size fb.bytes) in
      if_elim (λ (r : VfErr × Session × Framebuffer). Steady s r.1) (is_success q.err)
        (λ _. requeued-Steady w.0 (stamped kernel name_at c.0 c.1) (stamped-Steady c.0 c.1 k2))
        (λ _. k)

  waited-Steady :
      {s : Session} (t : Session) (fb : Framebuffer) (r : Selected)
      → Steady s t
      → Steady s (waited kernel name_at t fb r).1
  unfolding waited
  waited-Steady t fb select_failed k = k
  waited-Steady t fb timed_out k = k
  waited-Steady t fb readable k =
      dequeued-Steady fb (camera_ioctl dqbuf (kernel.dqbuf_reply t.trace) t)
        (Steady-trans k (Steady-ioctl dqbuf (kernel.dqbuf_reply t.trace) t))

  pub acquire_frame-Steady :
      (s : Session) (fb : Framebuffer) → Steady s (acquire_frame kernel name_at s fb).1
  unfolding acquire_frame
  acquire_frame-Steady s fb =
      if_elim (λ (r : VfErr × Session × Framebuffer). Steady s r.1) (is_running s.camera.state)
        (λ _.
          waited-Steady _ fb (kernel.select s.trace)
            (Steady-log s (selected s.camera.fd) (refl, refl) (refl, refl)))
        (λ _. Steady-refl s)
