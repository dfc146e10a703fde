-- ===== src/Control/OverService.antt =====
-- The control handler over the camera service of vf-service.c, and the requests that the thread of
-- libvf_control/src/vf-control-server.c serves, one after the other. What accept and read give is an argument,
-- and so is what the handler reads of the units. An accept that fails serves nothing.
use vision_flow.Base.{ℕ, Option, none, some, List, [], ◌∷◌, if_elim}
use vision_flow.Parser.Strings.{Text, codes}
use vision_flow.Error.{is_success}
use vision_flow.Service.Calls.{Returns}
use vision_flow.Service
use vision_flow.Service.Lifetime.{Used, started, stopped_again}
use vision_flow.Control
use vision_flow.Control.{UnitView, Handled, has, dispatch, handle_request, read_into}

-- The four units of a service.
pub record UnitViews : Type 0 where
  pub camera_unit : Service.Service → UnitView
  pub sp_unit : Service.Service → UnitView
  pub conv_unit : Service.Service → UnitView
  pub file_out_unit : Service.Service → UnitView

-- A client: its descriptor, and what read gives of its request.
abbrev pub Client : Type 0
Client = ℕ × Option Text

module _ (decimal : ℕ → Text) (rc : Returns) (views : UnitViews) where
  abbrev pub camera_service : Control.Service Service.Service
  camera_service = record {
    initialized = λ s. s.initialized;
    start = Service.start rc;
    stop = Service.stop rc;
    camera_unit = views.camera_unit;
    sp_unit = views.sp_unit;
    conv_unit = views.conv_unit;
    file_out_unit = views.file_out_unit;
  }

  abbrev pub handled : Client → Service.Service → Handled Service.Service
  handled (fd, bytes) s = handle_request decimal camera_service (some fd) bytes s

  -- The loop of `vf_control_server_thread_fn`.
  unfoldable pub serve : List Client → Service.Service → Service.Service
  serve [] s = s
  serve (c ∷ cs) s = serve cs (handled c s).service

  dispatch-Used :
      {s t : Service.Service} (text : Text)
      → Used rc s t
      → Used rc s (dispatch decimal camera_service text t).service
  unfolding dispatch
  dispatch-Used {s} {t} text u =
      let P = λ (h : Handled Service.Service). Used rc s h.service in
      let asks = λ (cmd : Text). has decimal camera_service text cmd in
      if_elim P (asks (codes "\"cmd\":\"get_status\"")) (λ _. u)
        (λ _.
          if_elim P (asks (codes "\"cmd\":\"get_stats\"")) (λ _. u)
            (λ _.
              if_elim P (asks (codes "\"cmd\":\"stop\""))
                (λ _.
                  if_elim P (is_success (Service.stop rc t).0) (λ _. stopped_again s t u)
                    (λ _. stopped_again s t u))
                (λ _.
                  if_elim P (asks (codes "\"cmd\":\"start\""))
                    (λ _.
                      if_elim P (is_success (Service.start rc t).0) (λ _. started s t u)
                        (λ _. started s t u))
                    (λ _. u))))

  handled-Used :
      {s t : Service.Service} (c : Client) → Used rc s t → Used rc s (handled c t).service
  unfolding handle_request
  handled-Used (fd, none) u = u
  handled-Used (fd, some []) u = u
  handled-Used (fd, some (b ∷ bytes)) u = dispatch-Used _ u

  -- Requests start and stop the service, and change nothing else of it.
  pub serve-Used : {s t : Service.Service} (cs : List Client) → Used rc s t → Used rc s (serve cs t)
  unfolding serve
  serve-Used [] u = u
  serve-Used {s = s} {t = t} (c ∷ cs) u =
      serve-Used {s = s} {t = (handled c t).service} cs (handled-Used c u)
