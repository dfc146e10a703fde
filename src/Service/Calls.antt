-- ===== src/Service/Calls.antt =====
-- The calls that vf-service.c and vf-core.c make on the pools and the pipeline. What a call returns may be
-- anything: a function of the calls made before it.
use Prim.Native.String.{String}
use vision_flow.Base.{ℕ, ◌+◌, ◌-◌, Bool, true, List, [], ◌∷◌, ◌++◌, if◌then◌else◌}
use vision_flow.Error.{VfErr, success, is_success, PixelFmt}
use vision_flow.Framebuffer.{Params}
use vision_flow.Camera as CameraLib

pub data PoolName : Type 0 where
  pool_in pool_out : PoolName

-- What a unit is configured with. A pool is named; texts that snprintf cuts to their buffers are whole here,
-- and the path of a single output file, made of its directory and extension, is left out.
pub data UnitCfg : Type 0 where
  camera_in : CameraLib.Config → PoolName → UnitCfg
  stream_provider : ℕ → PoolName → UnitCfg
  conversion : PixelFmt → PixelFmt → Params → PoolName → PoolName → UnitCfg
  file_in : Params → PoolName → List ℕ → UnitCfg
  file_out : Params → PoolName → ℕ → String → String → UnitCfg

pub data Call : Type 0 where
  pool_init : PoolName → Params → ℕ → Call
  pool_deinit pool_reset pool_shutdown : PoolName → Call
  queue_reset : ℕ → Call
  init_operations add_unit : UnitCfg → Call
  pipeline_init : String → Call
  pipeline_create pipeline_start pipeline_stop pipeline_destroy : Call
  subscribe run_once : Call

-- What is set up: how often each pool was set up and not given back, and the pipeline created and not
-- destroyed; and the calls so far.
pub record Run : Type 0 where
  pub live_in : ℕ
  pub live_out : ℕ
  pub live_pipeline : ℕ
  pub calls : List Call

abbrev pub Returns : Type 0
Returns = List Call → Call → VfErr

-- A call changes what is set up; one that sets up does so if it succeeds.
abbrev pub count : Call → Bool → Run → Run
count (pool_init pool_in p n) true r = record r { live_in = r.live_in + 1 }
count (pool_init pool_out p n) true r = record r { live_out = r.live_out + 1 }
count (pool_deinit pool_in) ok r = record r { live_in = r.live_in - 1 }
count (pool_deinit pool_out) ok r = record r { live_out = r.live_out - 1 }
count pipeline_create true r = record r { live_pipeline = r.live_pipeline + 1 }
count pipeline_destroy ok r = record r { live_pipeline = r.live_pipeline - 1 }
count c ok r = r

abbrev pub noted : Call → Run → Run
noted c r = record r { calls = r.calls ++ (c ∷ []) }

-- A call, with what it returns; and one whose result is not used, or only logged.
abbrev pub call : Returns → Call → Run → VfErr × Run
call rc c r = let e = rc r.calls c in (e, noted c (count c (is_success e) r))

abbrev pub void_call : Returns → Call → Run → Run
void_call rc c r = (call rc c r).1

-- Calls in order, up to the first that fails.
unfoldable pub run_calls : Returns → List Call → Run → VfErr × Run
run_calls rc [] r = (success, r)
run_calls rc (c ∷ cs) r =
    let (e, r') = call rc c r in if is_success e then run_calls rc cs r' else (e, r')

unfoldable pub void_calls : Returns → List Call → Run → Run
void_calls rc [] r = r
void_calls rc (c ∷ cs) r = void_calls rc cs (void_call rc c r)
