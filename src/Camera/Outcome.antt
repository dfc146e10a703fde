-- ===== src/Camera/Outcome.antt =====
-- The outcomes of vf_camera_init.
use mathlib.Core.List.{flat_map}
use native.Mathlib.Nat.{zero-add}
use vision_flow.Base.{
  ◌==◌, ◌⊎◌, inl, inr, ℕ, ◌≤◌, ◌≡◌, ◌≢◌, refl, sym, ap, subst, false, Option, none, some, [], ◌∷◌,
  ◌++◌, arith, Bool-cases, Option-cases, ltb,
}
use vision_flow.Error.{VfErr, success, oom, init_failed, is_success}
use vision_flow.Camera.Calls.{s_fmt, Kernel, Capabilities, last_of, querycap, reqbufs, opened}
use vision_flow.Camera.{written, pixel_fmt_to_v4l2, Config, Session, stopped, error}
use vision_flow.Camera.Setup.{
  init, configured, device_opened, capable, formatted, granted, set_format, request, close_fd,
  mapped_all, queued, for_buffers, map_buffer, queue_buffer,
}
use vision_flow.Camera.Books.{
  Books, Books-quiet, Books-opened, Books-closed, camera_ioctl-camera, camera_ioctl-success,
  camera_ioctl-eq,
}
use vision_flow.Camera.Mapping.{Filling, asked-Filling, mapping-Filling, queueing-Filling}
use vision_flow.Camera.Accounts.{
  Accounted, Grants, Released-Books, Filling-Accounted, Accounted-closed,
}

-- A camera that is set up: stopped, with a descriptor, and with at least one buffer.
pub record Ready (s : Session) : Type 0 where
  pub accounted : Accounted s
  pub state : s.camera.state ≡ stopped
  pub open_as : (fd : ℕ) × (s.camera.fd ≡ some fd)
  pub some_buffer : s.camera.buffer_count ≢ 0

-- A set-up either succeeds and leaves a camera ready, or fails and leaves nothing mapped or open.
abbrev pub Outcome : VfErr × Session → Type 0
Outcome r = ((r.0 ≡ success) × Ready r.1) ⊎ ((r.0 ≢ success) × Books r.1.trace [] [])

close_fd-Outcome :
    {fd : ℕ} {s : Session} (e : VfErr)
    → e ≢ success
    → Filling 0 (some fd) 0 s
    → Outcome (close_fd e s)
unfolding flat_map
close_fd-Outcome {fd} {s} e ne h = inr (ne, rw h.open_as (Books-closed fd h.books))

queued-Outcome :
    {n fd : ℕ} (r : VfErr × Session)
    → n ≢ 0
    → n ≤ 16
    → (r.0 ≡ success) × Filling n (some fd) n r.1
    → Outcome (queued r)
queued-Outcome {fd = fd} (e, s) pos le (o, f) = rw o (
    inl (
      refl,
      record {
        accounted = Filling-Accounted le f;
        state = f.halted;
        open_as = (fd, f.open_as);
        some_buffer = rw f.count pos;
      },
    ))

module _ (kernel : Kernel) where
  mapped_all-Outcome :
      {n fd : ℕ} (r : VfErr × Session)
      → n ≢ 0
      → n ≤ 16
      → Filling n (some fd) n r.1
      → Outcome (mapped_all kernel r)
  mapped_all-Outcome {n = n} {fd = fd} (e, s) pos le h = elim (Bool-cases (is_success e)) [
    | inl ok ↦ rw ok (
        queued-Outcome (for_buffers (queue_buffer kernel) s.camera.buffer_count 0 s) pos le
          (queueing-Filling kernel s.camera.buffer_count 0 h))
    | inr bad ↦ rw bad (
        inr
          (λ q. cc, Released-Books (Accounted-closed error fd h.open_as (Filling-Accounted le h))))
  ]

  granted-Outcome :
      {fd : ℕ} {s : Session} (reply : Option ℕ)
      → written reply s.camera.cfg.buffer_count ≤ 16
      → Filling 0 (some fd) 0 s
      → Outcome (granted kernel (record { err = success; reply = reply; after = s }))
  unfolding granted
  granted-Outcome {fd = fd} {s = s} reply le h =
      let n = written reply s.camera.cfg.buffer_count in
      let sized = record s { camera = record s.camera { buffer_count = n } } in
      let full =
        subst (λ m. Filling n (some fd) m (for_buffers (map_buffer kernel) n 0 sized).1)
          (zero-add n)
          (mapping-Filling kernel n 0 (omega arith) (record {
            sixteen = h.sixteen;
            count = refl;
            open_as = h.open_as;
            halted = h.halted;
            above = h.above;
            books = h.books;
          })) in
      elim (Bool-cases (n == 0)) [
        | inl e ↦ rw e (close_fd-Outcome oom (λ q. cc) h)
        | inr ne ↦
            rw ne (
              mapped_all-Outcome (for_buffers (map_buffer kernel) n 0 sized) (ground arith) le full)
      ]

  request-Outcome :
      {fd : ℕ} {s : Session}
      → Grants kernel
      → s.camera.cfg.buffer_count ≤ 16
      → Filling 0 (some fd) 0 s
      → Outcome (request kernel s)
  request-Outcome {s = s} grants le h =
      let n = s.camera.cfg.buffer_count in
      let t = kernel.reqbufs_reply s.trace n in
      let same = ap (λ d. d.cfg.buffer_count) (camera_ioctl-camera (reqbufs n) t s) in
      subst (λ q. Outcome (granted kernel q)) (sym (camera_ioctl-eq (reqbufs n) t s))
        (granted-Outcome (last_of t)
          (elim (Option-cases (last_of t)) [
            | inl e ↦ rw (e, same) le
            | inr (a, e) ↦ rw e (grants s.trace n a e)
          ])
          (asked-Filling (reqbufs n) t h))

  set_format-Outcome :
      {fd : ℕ} {s : Session}
      → Grants kernel
      → s.camera.cfg.buffer_count ≤ 16
      → Filling 0 (some fd) 0 s
      → Outcome (set_format kernel s)
  unfolding formatted
  set_format-Outcome {s = s} grants le h =
      let cfg = s.camera.cfg in
      let r = s_fmt cfg.width cfg.height (pixel_fmt_to_v4l2 cfg.format) in
      let t = kernel.s_fmt_reply s.trace in
      rw (camera_ioctl-success r t s).0 (
        request-Outcome grants
          (subst (λ d. d.cfg.buffer_count ≤ 16) (sym (camera_ioctl-camera r t s)) le)
          (asked-Filling r t h))

  capable-Outcome :
      {fd : ℕ} {s : Session} (reply : Option Capabilities)
      → Grants kernel
      → s.camera.cfg.buffer_count ≤ 16
      → Filling 0 (some fd) 0 s
      → Outcome (capable kernel (record { err = success; reply = reply; after = s }))
  unfolding capable
  capable-Outcome reply grants le h =
      let cap = written reply (record { video_capture = false; streaming = false }) in
      elim (Bool-cases cap.video_capture) [
        | inl v ↦ elim (Bool-cases cap.streaming) [
          | inl w ↦ rw (v, w) (set_format-Outcome grants le h)
          | inr w ↦ rw (v, w) (close_fd-Outcome init_failed (λ q. cc) h)
        ]
        | inr v ↦ rw v (close_fd-Outcome init_failed (λ q. cc) h)
      ]

  device_opened-Outcome :
      (s : Session) (answer : Option ℕ) (cfg : Config)
      → Grants kernel
      → cfg.buffer_count ≤ 16
      → Books s.trace [] []
      → Outcome (device_opened kernel (configured s cfg) answer)
  unfolding device_opened flat_map
  device_opened-Outcome s none cfg grants le b =
      inr (λ q. cc, Books-quiet _ (refl, refl) (refl, refl) b)
  device_opened-Outcome s (some fd) cfg grants le b =
      let c = configured s cfg in
      let o : Session = record {
        camera = record c.camera { fd = some fd };
        trace = s.trace ++ (opened (some fd) ∷ []);
      } in
      let t = kernel.querycap_reply o.trace in
      let h : Filling 0 (some fd) 0 o = record {
        sixteen = refl;
        count = refl;
        open_as = refl;
        halted = refl;
        above = refl;
        books = Books-opened fd b;
      } in
      subst (λ q. Outcome (capable kernel q)) (sym (camera_ioctl-eq querycap t o))
        (capable-Outcome (last_of t) grants
          (subst (λ d. d.cfg.buffer_count ≤ 16) (sym (camera_ioctl-camera querycap t o)) le)
          (asked-Filling querycap t h))

  -- Where nothing is mapped or open and the driver grants at most the 16 buffers of the array, vf_camera_init
  -- either returns VF_SUCCESS with a camera that is ready, which holds exactly what is mapped and open, or
  -- returns an error, and everything that it mapped and opened is unmapped and closed again.
  pub init-Outcome :
      (s : Session) (cfg : Config)
      → Grants kernel
      → Books s.trace [] []
      → Outcome (init kernel s cfg)
  unfolding init
  init-Outcome s cfg grants b = elim (Bool-cases (ltb 16 cfg.buffer_count)) [
    | inl over ↦ rw over (inr (λ q. cc, b))
    | inr within ↦ rw within (
        device_opened-Outcome s (kernel.open_device s.trace cfg.device_path) cfg grants
          (ground arith) b)
  ]
