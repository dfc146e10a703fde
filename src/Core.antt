-- ===== src/Core.antt =====
-- service/src/core/vf-core.c: the scenarios over files, and the camera scenario. Pointers are not NULL. While
-- the camera scenario waits for a signal, the thread of the control server serves requests of clients, which
-- start and stop the same service: which requests come before the signal is an argument.
pub mod Balance
pub mod CameraScenario
mod Tests
use Prim.Native.String.{String}
use vision_flow.Base.{
  ℕ, zero, suc, Bool, true, false, not, Option, none, some, List, [], ◌∷◌, ◌++◌, ◌==◌,
  if◌then◌else◌, replicate,
}
use vision_flow.Error.{
  VfErr, success, invalid_parameter, file_err, is_success, PixelFmt, rgb888, yuv420p, raw8, yuyv,
}
use vision_flow.Framebuffer.{Params}
use vision_flow.Parser.{FrameInfo, FrameSet}
use vision_flow.Parser.Strings.{Text, codes, same_text}
use vision_flow.Parser.Load.{Loaded}
use vision_flow.Service.Calls.{
  pool_in, pool_out, UnitCfg, conversion, file_in, file_out, Call, pool_init, pool_deinit,
  init_operations, add_unit, pipeline_init, pipeline_create, pipeline_destroy, subscribe, run_once,
  Run, Returns, call, void_call, run_calls, void_calls,
}
use vision_flow.Service
use vision_flow.Service.{ServiceCfg}
use vision_flow.Control.Server
use vision_flow.Control.Server.{ControlServer, ServerCall, SocketReturns}
use vision_flow.Control.OverService.{Client, UnitViews, serve}

-- `vf_scenario_t`.
pub record Scenario : Type 0 where
  pub flag : String
  pub name : String
  pub input_set : String
  pub src_fmt : PixelFmt
  pub dst_fmt : PixelFmt
  pub output_dir : String
  pub output_extension : String
  pub split_output : ℕ

abbrev pub scenario :
    String → String → String → PixelFmt → PixelFmt → String → String → ℕ → Scenario
scenario flag name input_set src dst dir extension split = record {
  flag = flag;
  name = name;
  input_set = input_set;
  src_fmt = src;
  dst_fmt = dst;
  output_dir = dir;
  output_extension = extension;
  split_output = split;
}

-- `g_scenarios`.
abbrev pub scenarios : List Scenario
scenarios =
    scenario "--rgb_to_yuv_concat" "rgb_to_yuv_concat" "rgb" rgb888 yuv420p
      "vf_frames/out/rgb_to_yuv_concat" ".yuv" 0
    ∷ scenario "--rgb_to_yuv_split" "rgb_to_yuv_split" "rgb" rgb888 yuv420p
        "vf_frames/out/rgb_to_yuv_split" ".yuv" 1
    ∷ scenario "--yuv_to_rgb_concat" "yuv_to_rgb_concat" "yuv" yuv420p rgb888
        "vf_frames/out/yuv_to_rgb_concat" ".rgb" 0
    ∷ scenario "--yuv_to_rgb_split" "yuv_to_rgb_split" "yuv" yuv420p rgb888
        "vf_frames/out/yuv_to_rgb_split" ".rgb" 1
    ∷ scenario "--raw_to_rgb_concat" "raw_to_rgb_concat" "raw" raw8 rgb888
        "vf_frames/out/raw_to_rgb_concat" ".rgb" 0
    ∷ scenario "--raw_to_rgb_split" "raw_to_rgb_split" "raw" raw8 rgb888
        "vf_frames/out/raw_to_rgb_split" ".rgb" 1
    ∷ scenario "--raw_to_yuv_concat" "raw_to_yuv_concat" "raw" raw8 yuv420p
        "vf_frames/out/raw_to_yuv_concat" ".yuv" 0
    ∷ scenario "--raw_to_yuv_split" "raw_to_yuv_split" "raw" raw8 yuv420p
        "vf_frames/out/raw_to_yuv_split" ".yuv" 1
    ∷ []

-- `find_frame_set`.
unfoldable pub find_frame_set : List FrameSet → Text → Option FrameSet
find_frame_set [] name = none
find_frame_set (s ∷ l) name =
    let rest = find_frame_set l name in if same_text s.name name then some s else rest

-- The first frame of a set; a set that the parser loads has one.
abbrev pub first_of : Option (List FrameInfo) → FrameInfo
first_of none = record { file_name = []; full_path = []; width = 0; height = 0 }
first_of (some []) = record { file_name = []; full_path = []; width = 0; height = 0 }
first_of (some (f ∷ fs)) = f

abbrev pub params_as : PixelFmt → FrameSet → Params
params_as format s =
    let f = first_of s.frames in record { width = f.width; height = f.height; format = format }

-- POOL_SLOT_COUNT.
abbrev pub pool_slot_count : ℕ
pool_slot_count = 4

-- The configurations of the three units.
abbrev pub file_in_cfg : Scenario → FrameSet → UnitCfg
file_in_cfg c s = file_in (params_as c.src_fmt s) pool_in (first_of s.frames).full_path

abbrev pub conv_cfg : Scenario → FrameSet → UnitCfg
conv_cfg c s = conversion c.src_fmt c.dst_fmt (params_as c.dst_fmt s) pool_out pool_in

abbrev pub file_out_cfg : Scenario → FrameSet → UnitCfg
file_out_cfg c s =
    file_out (params_as c.dst_fmt s) pool_out c.split_output c.output_dir c.output_extension

-- The calls whose failure is only logged, and those that a failure leaves by the label `cleanup_pool_out`.
abbrev pub operations_calls : Scenario → FrameSet → List Call
operations_calls c s =
    init_operations (file_in_cfg c s)
    ∷ init_operations (conv_cfg c s)
    ∷ init_operations (file_out_cfg c s)
    ∷ []

abbrev pub pipeline_calls : Scenario → FrameSet → List Call
pipeline_calls c s =
    pipeline_init c.name
    ∷ add_unit (file_in_cfg c s)
    ∷ add_unit (conv_cfg c s)
    ∷ add_unit (file_out_cfg c s)
    ∷ []

-- What the control server meets: what its socket calls return, and the clients that are served until it is
-- stopped. Where its thread is not created there are none.
pub record Outside : Type 0 where
  pub sockets : SocketReturns
  pub clients : List Client

-- What the camera scenario returns, the calls on the pools and the pipeline, and those of the server.
pub record Ended : Type 0 where
  pub ret : VfErr
  pub run : Run
  pub served : List ServerCall

abbrev pub camera_service_cfg : ServiceCfg
camera_service_cfg = record {
  device_path = "/dev/video0";
  width = 640;
  height = 480;
  src_fmt = yuyv;
  dst_fmt = rgb888;
  pool_slot_count = pool_slot_count;
  output_dir = "vf_frames/out/camera";
  output_extension = ".rgb";
}

-- The scenario of a flag.
unfoldable pub find_flag : List Scenario → Text → Option Scenario
find_flag [] flag = none
find_flag (c ∷ cs) flag =
    let rest = find_flag cs flag in if same_text (codes c.flag) flag then some c else rest

module _ (rc : Returns) where
  -- The labels `cleanup_pool_out` and `cleanup_pool_in`.
  abbrev pub cleanup : VfErr → Run → VfErr × Run
  cleanup e r = (e, void_calls rc (pool_deinit pool_out ∷ pool_deinit pool_in ∷ []) r)

  -- `run_pipeline_for_frames`.
  abbrev pub run_pipeline_for_frames : FrameSet → Run → VfErr × Run
  run_pipeline_for_frames s r = run_calls rc (replicate s.frame_count run_once) r

  -- What follows the frames: the pipeline is destroyed, whether they failed or not.
  abbrev pub ran_frames : VfErr × Run → VfErr × Run
  ran_frames (e, r) = cleanup e (void_call rc pipeline_destroy r)

  abbrev pub created : FrameSet → VfErr × Run → VfErr × Run
  created s (e, r) =
      if is_success e
      then ran_frames (run_pipeline_for_frames s (void_call rc subscribe r))
      else cleanup e r

  abbrev pub built : FrameSet → VfErr × Run → VfErr × Run
  built s (e, r) = if is_success e then created s (call rc pipeline_create r) else cleanup e r

  abbrev pub pool_out_set_up : Scenario → FrameSet → VfErr × Run → VfErr × Run
  pool_out_set_up c s (e, r) =
      if is_success e
      then built s (run_calls rc (pipeline_calls c s) (void_calls rc (operations_calls c s) r))
      else (e, void_call rc (pool_deinit pool_in) r)

  abbrev pub pool_in_set_up : Scenario → FrameSet → VfErr × Run → VfErr × Run
  pool_in_set_up c s (e, r) =
      if is_success e
      then pool_out_set_up c s
          (call rc (pool_init pool_out (params_as c.dst_fmt s) pool_slot_count) r)
      else (e, r)

  -- `run_scenario` on the sets of a configuration.
  unfoldable pub run_found : Scenario → Option FrameSet → Run → VfErr × Run
  run_found c none r = (file_err, r)
  run_found c (some s) r =
      pool_in_set_up c s (call rc (pool_init pool_in (params_as c.src_fmt s) pool_slot_count) r)

  abbrev pub run_scenario : List FrameSet → Scenario → Run → VfErr × Run
  run_scenario sets c r = run_found c (find_frame_set sets (codes c.input_set)) r

  -- The loop of `vf_core_run_all`: how many scenarios failed.
  unfoldable pub run_each : List FrameSet → List Scenario → ℕ → Run → ℕ × Run
  run_each sets [] n r = (n, r)
  run_each sets (c ∷ cs) n r =
      let (e, r') = run_scenario sets c r in run_each sets cs (if is_success e then n else suc n) r'

  abbrev pub judged : ℕ × Run → VfErr × Run
  judged (n, r) = (if n == 0 then success else file_err, r)

  abbrev pub run_loaded : VfErr → Option (List FrameSet) → Run → VfErr × Run
  run_loaded e none r = (e, r)
  run_loaded e (some sets) r = if is_success e then judged (run_each sets scenarios 0 r) else (e, r)

  -- `vf_core_run_all`, with what the parser loaded.
  unfoldable pub run_all : Loaded → Run → VfErr × Run
  run_all l r = run_loaded l.err l.out_cfg r

  abbrev pub one_loaded : Scenario → VfErr → Option (List FrameSet) → Run → VfErr × Run
  one_loaded c e none r = (e, r)
  one_loaded c e (some sets) r = if is_success e then run_scenario sets c r else (e, r)

  abbrev pub flag_found : Loaded → Option Scenario → Run → VfErr × Run
  flag_found l none r = (invalid_parameter, r)
  flag_found l (some c) r = one_loaded c l.err l.out_cfg r

  -- `vf_core_run_by_flag`, with what the parser loaded if the flag is known.
  unfoldable pub run_by_flag : Loaded → Text → Run → VfErr × Run
  run_by_flag l flag r = flag_found l (find_flag scenarios flag) r

  -- vf_service_stop, whose code is the one that is returned, and vf_service_deinit.
  abbrev pub wound_up : VfErr × Service.Service → List ServerCall → Ended
  wound_up (e, s) calls = record { ret = e; run = (Service.deinit rc s).run; served = calls }

  module _ (decimal : ℕ → Text) (views : UnitViews) where
    -- After vf_control_server_start: a server that was started serves its clients, and is stopped. Stopped or
    -- not started, it is torn down.
    abbrev pub server_started :
        List Client
        → Service.Service
        → List ServerCall
        → VfErr × ControlServer × List ServerCall
        → Ended
    server_started clients s calls (e, srv, more) =
        let stopped = Server.stop srv in
        let torn = Server.deinit stopped.1 in
        if is_success e
        then wound_up (Service.stop rc (serve decimal rc views clients s))
            (calls ++ (more ++ (stopped.2 ++ torn.1)))
        else wound_up (Service.stop rc s) (calls ++ (more ++ (Server.deinit srv).1))

    -- After vf_control_server_init.
    abbrev pub server_inited :
        List Client → Service.Service → VfErr × ControlServer × List ServerCall → Ended
    server_inited clients s (e, srv, calls) =
        if is_success e
        then server_started clients s calls (Server.start srv)
        else wound_up (Service.stop rc s) calls

    -- After vf_service_start.
    abbrev pub camera_started : Outside → VfErr × Service.Service → Ended
    camera_started outside (e, s) =
        if is_success e
        then server_inited outside.clients s (Server.init outside.sockets)
        else record { ret = e; run = (Service.deinit rc s).run; served = [] }

    abbrev pub camera_inited : Outside → VfErr × Service.Service → Ended
    camera_inited outside (e, s) =
        if is_success e
        then camera_started outside (Service.start rc s)
        else record { ret = e; run = s.run; served = [] }

    -- `run_camera_scenario`, which vf_core_run_camera calls.
    unfoldable pub run_camera_scenario : Outside → Run → Ended
    run_camera_scenario outside r =
        camera_inited outside
          (Service.init rc camera_service_cfg (record { initialized = false; run = r }))
