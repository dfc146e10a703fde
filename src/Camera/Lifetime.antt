-- ===== src/Camera/Lifetime.antt =====
-- From init, over any calls, to deinit.
use vision_flow.Base.{ℕ, ◌≡◌, refl, sym, subst, ◌∙◌, inl, inr, some, [], if_elim}
use vision_flow.Error.{VfErr, success}
use vision_flow.Framebuffer.{Framebuffer}
use vision_flow.Camera.Calls.{Kernel, streamoff}
use vision_flow.Camera.{Config, Session, stopped, is_running}
use vision_flow.Camera.Setup.{init}
use vision_flow.Camera.Life.{start, stop, deinit, deinit_open, stop_first, released}
use vision_flow.Camera.Capture.{acquire_frame}
use vision_flow.Camera.Books.{Books, camera_ioctl-success}
use vision_flow.Camera.Accounts.{Accounted, Released, Grants, Accounted-closed}
use vision_flow.Camera.Outcome.{init-Outcome}
use vision_flow.Camera.Steady.{
  Steady, Steady-refl, Steady-trans, Steady-Accounted, start-Steady, stop-Steady,
  acquire_frame-Steady,
}

-- VF_SUCCESS, with everything given back.
abbrev pub Ended : VfErr × Session → Type 0
Ended r = (r.0 ≡ success) × Released r.1

module _ (kernel : Kernel) (name_at : ℕ) where
  -- The calls that a client makes between init and deinit, in any order and whatever they return.
  pub data Used : Session → Session → Type 0 where
    unused : (s : Session) → Used s s
    started : (s t : Session) → Used s t → Used s (start kernel t).1
    stopped_again : (s t : Session) → Used s t → Used s (stop kernel t).1
    acquired :
        (s t : Session) (fb : Framebuffer) → Used s t → Used s (acquire_frame kernel name_at t fb).1

  Used-Steady : {s t : Session} → Used s t → Steady s t
  Used-Steady (unused s) = Steady-refl s
  Used-Steady (started s t u) = Steady-trans (Used-Steady u) (start-Steady kernel t)
  Used-Steady (stopped_again s t u) = Steady-trans (Used-Steady u) (stop-Steady kernel t)
  Used-Steady (acquired s t fb u) =
      Steady-trans (Used-Steady u) (acquire_frame-Steady kernel name_at t fb)

  stop_success : (s : Session) → (stop kernel s).0 ≡ success
  unfolding stop
  stop_success s =
      if_elim (λ (r : VfErr × Session). r.0 ≡ success) (is_running s.camera.state)
        (λ _. rw (camera_ioctl-success streamoff (kernel.streamoff_reply s.trace) s).0 refl)
        (λ _. refl)

  released-Released :
      {s : Session} (fd : ℕ)
      → s.camera.fd ≡ some fd
      → Accounted s
      → ((released s).0 ≡ success) × Released (released s).1
  released-Released fd e h = (refl, Accounted-closed stopped fd e h)

  pub deinit-Released :
      {s : Session} (fd : ℕ)
      → s.camera.fd ≡ some fd
      → Accounted s
      → ((deinit kernel s).0 ≡ success) × Released (deinit kernel s).1
  unfolding deinit
  deinit-Released {s = s} fd e h =
      let k = stop-Steady kernel s in
      let after = (stop kernel s).1 in
      subst (λ o. Ended (deinit_open kernel s o)) (sym e)
        (if_elim Ended (is_running s.camera.state)
          (λ _.
            subst (λ c. Ended (stop_first (c, after))) (sym (stop_success s))
              (released-Released fd (k.fd ∙ e) (Steady-Accounted k h)))
          (λ _. released-Released fd e h))

  -- After a successful vf_camera_init with a driver that grants at most 16 buffers, whatever calls of start,
  -- stop and acquire_frame follow, in any order and with any answers of the kernel, vf_camera_deinit returns
  -- VF_SUCCESS and all that was mapped and opened is unmapped and closed.
  pub lifetime-Released :
      (s t : Session) (cfg : Config)
      → Grants kernel
      → Books s.trace [] []
      → (init kernel s cfg).0 ≡ success
      → Used (init kernel s cfg).1 t
      → ((deinit kernel t).0 ≡ success) × Released (deinit kernel t).1
  lifetime-Released s t cfg grants b ok u = elim (init-Outcome kernel s cfg grants b) [
    | inl (o, ready) ↦
        let k = Used-Steady u in
        deinit-Released ready.open_as.0 (k.fd ∙ ready.open_as.1)
          (Steady-Accounted k ready.accounted)
    | inr (bad, c) ↦ absurd (bad ok)
  ]
