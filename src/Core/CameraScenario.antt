-- ===== src/Core/CameraScenario.antt =====
-- What the camera scenario has set up, on every path, with clients that start and stop its service.
use vision_flow.Base.{
  ℕ, suc, ◌≡◌, refl, inl, inr, Option, some, none, false, List, [], ◌∷◌, if_elim, arith,
}
use vision_flow.Parser.Strings.{Text}
use vision_flow.Error.{VfErr, is_success}
use vision_flow.ProcessingUnit.Life.{not_success}
use vision_flow.Service.Calls.{Run, Returns}
use vision_flow.Service
use vision_flow.Service.Balance.{Live, SetUp, init-SetUp}
use vision_flow.Service.Lifetime.{Ready, Used-Ready, start-Ready, stop-Ready, deinit-Live, unused}
use vision_flow.Control.Server
use vision_flow.Control.Server.{ServerCall, socket_open, socket_close, ControlServer, SocketReturns}
use vision_flow.Control.OverService.{UnitViews, Client, serve, serve-Used}
use vision_flow.Core.{
  Outside, Ended, camera_service_cfg, wound_up, server_inited, camera_started, camera_inited,
  run_camera_scenario,
}

-- The sockets that are opened, and those that are closed, in order.
abbrev pub opened : List ServerCall → List ℕ
opened [] = []
opened (socket_open fd ∷ cs) = fd ∷ opened cs
opened (_ ∷ cs) = opened cs

abbrev pub closed : List ServerCall → List ℕ
closed [] = []
closed (socket_close fd ∷ cs) = fd ∷ closed cs
closed (_ ∷ cs) = closed cs

-- Of the pools and the pipeline no more is left than there was, and every socket that was opened is closed.
pub record GivesBack (i o p : ℕ) (e : Ended) : Type 0 where
  pub live : Live i o p e.run
  pub sockets : opened e.served ≡ closed e.served

module _ (rc : Returns) (decimal : ℕ → Text) (views : UnitViews) where
  serve-Ready :
      {i o p : ℕ} (clients : List Client) (s : Service.Service)
      → Ready i o p s
      → Ready i o p (serve decimal rc views clients s)
  serve-Ready clients s h = Used-Ready rc (serve-Used decimal rc views clients (unused s)) h

  wound_up-GivesBack :
      {i o p : ℕ} (s : Service.Service) (calls : List ServerCall)
      → Ready (suc i) (suc o) (suc p) s
      → opened calls ≡ closed calls
      → GivesBack i o p (wound_up rc (Service.stop rc s) calls)
  wound_up-GivesBack s calls h same = record {
    live = (deinit-Live rc (Service.stop rc s).1 (stop-Ready rc s h)).1;
    sockets = same;
  }

  -- Whatever the socket calls return.
  server-GivesBack :
      {i o p : ℕ} (clients : List Client) (s : Service.Service) (calls : SocketReturns)
      (fd : Option ℕ)
      → Ready (suc i) (suc o) (suc p) s
      → GivesBack i o p (server_inited rc decimal views clients s (Server.init_on calls fd))
  unfolding Server.start Server.stop Server.deinit
  server-GivesBack clients s calls none h = wound_up-GivesBack s _ h refl
  server-GivesBack {i} {o} {p} clients s calls (some fd) h =
      let P = λ (q : VfErr × ControlServer × List ServerCall).
        GivesBack i o p (server_inited rc decimal views clients s q) in
      if_elim P calls.binds
        (λ _.
          if_elim P calls.listens (λ _. wound_up-GivesBack _ _ (serve-Ready clients s h) refl)
            (λ _. wound_up-GivesBack s _ h refl))
        (λ _. wound_up-GivesBack s _ h refl)

  camera_started-GivesBack :
      {i o p : ℕ} (outside : Outside) (q : VfErr × Service.Service)
      → Ready (suc i) (suc o) (suc p) q.1
      → GivesBack i o p (camera_started rc decimal views outside q)
  unfolding Server.init
  camera_started-GivesBack {i} {o} {p} outside (e, s) h =
      if_elim (GivesBack i o p) (is_success e)
        (λ _. server-GivesBack outside.clients s outside.sockets outside.sockets.socket h)
        (λ _. record { live = (deinit-Live rc s h).1; sockets = refl })

  camera_inited-GivesBack :
      {i o p : ℕ} (outside : Outside) (q : VfErr × Service.Service)
      → SetUp i o p q
      → GivesBack i o p (camera_inited rc decimal views outside q)
  camera_inited-GivesBack {i} {o} {p} outside (e, s) (inl (ok, flag, h)) =
      if_elim (GivesBack i o p) (is_success e)
        (λ _. camera_started-GivesBack outside (Service.start rc s) (start-Ready rc s (flag, h)))
        (λ bad. absurd (not_success e bad ok))
  camera_inited-GivesBack {i} {o} {p} outside (e, s) (inr (bad, flag, h)) =
      if_elim (GivesBack i o p) (is_success e) (λ ok. absurd (bad (ground arith)))
        (λ _. record { live = h; sockets = refl })

  -- Whatever the calls on the pools, on the pipeline and on the sockets return, and whatever requests the
  -- clients of a started server make, the camera scenario has given back every pool and every pipeline that
  -- it set up, and has closed each socket that its server opened, once.
  pub run_camera_scenario-GivesBack :
      {i o p : ℕ} {r : Run} (outside : Outside)
      → Live i o p r
      → GivesBack i o p (run_camera_scenario rc decimal views outside r)
  unfolding run_camera_scenario
  run_camera_scenario-GivesBack {r = r} outside h =
      camera_inited-GivesBack outside _
        (init-SetUp rc camera_service_cfg (record { initialized = false; run = r }) h)
