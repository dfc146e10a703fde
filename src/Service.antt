-- ===== src/Service.antt =====
-- service/src/core/vf-service.c: the camera service, two pools and a pipeline of four units. Pointers are
-- not NULL.
pub mod Calls
pub mod Balance
pub mod Lifetime
mod Tests
use Prim.Native.String.{String}
use vision_flow.Base.{ℕ, Bool, true, false, not, List, [], ◌∷◌, if◌then◌else◌}
use vision_flow.Error.{VfErr, success, init_failed, is_success, PixelFmt}
use vision_flow.Framebuffer.{Params}
use vision_flow.Camera as CameraLib
use Calls.{
  pool_in, pool_out, UnitCfg, camera_in, stream_provider, conversion, file_out, Call, pool_init,
  pool_deinit, pool_reset, pool_shutdown, queue_reset, init_operations, add_unit, pipeline_init,
  pipeline_create, pipeline_start, pipeline_stop, pipeline_destroy, Run, Returns, call, void_call,
  run_calls, void_calls,
}

-- `vf_service_cfg_t`.
pub record ServiceCfg : Type 0 where
  pub device_path : String
  pub width : ℕ
  pub height : ℕ
  pub src_fmt : PixelFmt
  pub dst_fmt : PixelFmt
  pub pool_slot_count : ℕ
  pub output_dir : String
  pub output_extension : String

-- `vf_service_t`: the flag, and what the calls have set up of the pools and the pipeline.
pub record Service : Type 0 where
  pub initialized : Bool
  pub run : Run

abbrev pub params_in : ServiceCfg → Params
params_in cfg = record { width = cfg.width; height = cfg.height; format = cfg.src_fmt }

abbrev pub params_out : ServiceCfg → Params
params_out cfg = record { width = cfg.width; height = cfg.height; format = cfg.dst_fmt }

-- The configurations of the four units; VF_CAMERA_DEFAULT_BUFFER_COUNT is 4.
abbrev pub camera_cfg : ServiceCfg → UnitCfg
camera_cfg cfg =
    camera_in
      (record {
        device_path = cfg.device_path;
        width = cfg.width;
        height = cfg.height;
        format = cfg.src_fmt;
        buffer_count = 4;
      })
      pool_in

abbrev pub sp_cfg : UnitCfg
sp_cfg = stream_provider 1 pool_in

abbrev pub conv_cfg : ServiceCfg → UnitCfg
conv_cfg cfg = conversion cfg.src_fmt cfg.dst_fmt (params_out cfg) pool_out pool_in

abbrev pub file_out_cfg : ServiceCfg → UnitCfg
file_out_cfg cfg = file_out (params_out cfg) pool_out 1 cfg.output_dir cfg.output_extension

-- The calls that a failure leaves by the label `cleanup_pools`, in order.
abbrev pub unit_calls : ServiceCfg → List Call
unit_calls cfg =
    init_operations (camera_cfg cfg)
    ∷ init_operations sp_cfg
    ∷ init_operations (conv_cfg cfg)
    ∷ init_operations (file_out_cfg cfg)
    ∷ pipeline_init "camera"
    ∷ add_unit (camera_cfg cfg)
    ∷ add_unit sp_cfg
    ∷ add_unit (conv_cfg cfg)
    ∷ add_unit (file_out_cfg cfg)
    ∷ []

module _ (rc : Returns) where
  abbrev pub cleanup_pools : VfErr → Run → VfErr × Service
  cleanup_pools e r = (
    e,
    record {
      initialized = false;
      run = void_calls rc (pool_deinit pool_out ∷ pool_deinit pool_in ∷ []) r;
    },
  )

  abbrev pub created : VfErr × Run → VfErr × Service
  created (e, r) =
      if is_success e then (success, record { initialized = true; run = r }) else cleanup_pools e r

  abbrev pub configured : VfErr × Run → VfErr × Service
  configured (e, r) =
      if is_success e then created (call rc pipeline_create r) else cleanup_pools e r

  abbrev pub pool_out_set_up : ServiceCfg → VfErr × Run → VfErr × Service
  pool_out_set_up cfg (e, r) =
      if is_success e
      then configured (run_calls rc (unit_calls cfg) r)
      else (e, record { initialized = false; run = void_call rc (pool_deinit pool_in) r })

  abbrev pub pool_in_set_up : ServiceCfg → VfErr × Run → VfErr × Service
  pool_in_set_up cfg (e, r) =
      if is_success e
      then pool_out_set_up cfg (call rc (pool_init pool_out (params_out cfg) cfg.pool_slot_count) r)
      else (e, record { initialized = false; run = r })

  -- `vf_service_init`.
  unfoldable pub init : ServiceCfg → Service → VfErr × Service
  init cfg s =
      pool_in_set_up cfg (call rc (pool_init pool_in (params_in cfg) cfg.pool_slot_count) s.run)

  abbrev pub returned : Service → VfErr × Run → VfErr × Service
  returned s (e, r) = (e, record s { run = r })

  -- `vf_service_start`.
  unfoldable pub start : Service → VfErr × Service
  start s =
      if not s.initialized
      then (init_failed, s)
      else returned s (
          call rc pipeline_start (
            void_calls rc
              (pool_reset pool_in
                ∷ pool_reset pool_out
                ∷ queue_reset 0
                ∷ queue_reset 1
                ∷ queue_reset 2
                ∷ [])
              s.run))

  -- `vf_service_stop`.
  unfoldable pub stop : Service → VfErr × Service
  stop s =
      if not s.initialized
      then (init_failed, s)
      else returned s (
          call rc pipeline_stop
            (void_calls rc (pool_shutdown pool_in ∷ pool_shutdown pool_out ∷ []) s.run))

  -- `vf_service_deinit`.
  unfoldable pub deinit : Service → Service
  deinit s = if not s.initialized then s else record {
    initialized = false;
    run = void_calls rc (pipeline_destroy ∷ pool_deinit pool_out ∷ pool_deinit pool_in ∷ []) s.run;
  }
