-- ===== src/Units/CameraUnit.antt =====
-- service/src/units/camera/vf-camera-unit.c: a frame of the camera is taken into a slot of the pool and
-- pushed on. The camera is an interface, the functions of vf-camera.h. A pointer to a unit is not NULL,
-- and the unit's pool is given where it is set up.
pub mod Capture
mod Tests
use vision_flow.Base.{
  ℕ, Bool, true, false, not, Option, none, some, List, [], ◌∷◌, ◌++◌, ◌==◌, if◌then◌else◌,
}
use vision_flow.Error.{
  VfErr, success, invalid_parameter, oom, camera_stop_err, camera_deinit_err, is_success,
}
use vision_flow.Framebuffer.{Framebuffer}
use vision_flow.Sync.{Returned}
use vision_flow.Sync.Wait.{Wake, Blocking, returned, waiting}
use vision_flow.BuffPool.{Pool, release_at}
use vision_flow.BuffPool.Threads.{Op, acquire_blocking_at}
use vision_flow.BuffQueue.{Queue, push_at}
use vision_flow.Units.{Frames, put_frame, Turn, ends, waits, strays, handed_out}

-- The functions of vf-camera.h on a camera `C`, set up from a configuration `K`.
pub record Camera (K C : Type 0) : Type 0 where
  pub zero : C
  pub init : C → K → VfErr × C
  pub start : C → VfErr × C
  pub stop : C → VfErr × C
  pub deinit : C → VfErr × C
  pub acquire_frame : C → Framebuffer → VfErr × C × Framebuffer

-- `vf_camera_unit_cfg_t`: the flag says whether the pointer to the pool is given.
pub record Config (K : Type 0) : Type 0 where
  pub camera_cfg : K
  pub has_pool : Bool

-- `vf_camera_unit_data_t`.
pub record UnitData (C : Type 0) : Type 0 where
  pub camera : C
  pub current_fb : ℕ

-- What `internal_data` points to: the configuration before the init operation, the data after it.
pub data Internal (K C : Type 0) : Type 0 where
  absent : Internal K C
  configured : Config K → Internal K C
  ready : UnitData C → Internal K C

-- `published` has the frames that the unit announced as ready, in order.
pub record World (K C : Type 0) : Type 0 where
  pub frames : Frames
  pub internal : Internal K C
  pub out_queue : Option Queue
  pub pool : Pool
  pub published : List ℕ

module _ {K C : Type 0} (camera : Camera K C) where
  -- The camera is started; if that fails the unit keeps its configuration.
  abbrev pub started : World K C → VfErr × C → Turn (World K C)
  started w (e, c) =
      if is_success e
      then ends success (record w { internal = ready (record { camera = c; current_fb = 0 }) })
      else ends e w

  abbrev pub initialized : World K C → VfErr × C → Turn (World K C)
  initialized w (e, c) = if is_success e then started w (camera.start c) else ends e w

  abbrev pub init_from : Bool → Config K → World K C → Turn (World K C)
  init_from calloc cfg w =
      if not cfg.has_pool
      then ends invalid_parameter w
      else if calloc
      then initialized w (camera.init camera.zero cfg.camera_cfg)
      else ends oom w

  -- `vf_camera_unit_init`. The flag says whether calloc gives memory.
  unfoldable pub init : Bool → World K C → Turn (World K C)
  init calloc w = elim w.internal [
    | absent ↦ ends invalid_parameter w
    | configured cfg ↦ init_from calloc cfg w
    | ready d ↦ strays
  ]

  abbrev pub deinited : World K C → UnitData C → VfErr × C → Turn (World K C)
  deinited w d (e, c) =
      if is_success e
      then ends success (record w { internal = absent })
      else ends camera_deinit_err (record w { internal = ready (record d { camera = c }) })

  abbrev pub stopped : World K C → UnitData C → VfErr × C → Turn (World K C)
  stopped w d (e, c) =
      if is_success e
      then deinited w d (camera.deinit c)
      else ends camera_stop_err (record w { internal = ready (record d { camera = c }) })

  -- `vf_camera_unit_deinit`.
  unfoldable pub deinit : World K C → Turn (World K C)
  deinit w = elim w.internal [
    | absent ↦ ends invalid_parameter w
    | configured cfg ↦ strays
    | ready d ↦ stopped w d (camera.stop d.camera)
  ]

  -- What follows vf_camera_acquire_frame into the current frame.
  unfoldable pub captured :
      Returned → World K C → UnitData C → VfErr × C × Framebuffer → Turn (World K C)
  captured rc w d (e, c, fb) =
      let frames = put_frame w.frames d.current_fb fb in
      if is_success e
      then ends success (record w { frames = frames; internal = ready (record d { camera = c }) })
      else ends e (record w {
        frames = frames;
        pool = (release_at rc w.pool d.current_fb).obj;
        internal = ready (record d { camera = c; current_fb = 0 });
      })

  -- What follows the blocking acquire.
  unfoldable pub acquired : Returned → World K C → UnitData C → Blocking Pool → Turn (World K C)
  acquired rc w d (returned o) =
      let d' = record d { current_fb = handed_out o.ret.out d.current_fb } in
      let w' = record w { pool = o.obj; internal = ready d' } in
      if is_success o.ret.err
      then captured rc w' d' (camera.acquire_frame d.camera (w.frames d'.current_fb))
      else ends o.ret.err w'
  acquired rc w d (waiting p) =
      waits (record w { pool = p; internal = ready (record d { current_fb = 0 }) })

  abbrev pub get_by :
      Returned → List (Wake Op) → Returned → World K C → Internal K C → Turn (World K C)
  get_by rc wakes rc_rel w absent = ends invalid_parameter w
  get_by rc wakes rc_rel w (configured cfg) = strays
  get_by rc wakes rc_rel w (ready d) = acquired rc_rel w d (acquire_blocking_at rc w.pool wakes)

  -- `vf_camera_unit_get_data`.
  unfoldable pub get_data : Returned → List (Wake Op) → Returned → World K C → Turn (World K C)
  get_data rc wakes rc_rel w = get_by rc wakes rc_rel w w.internal

-- The operations that do not reach the camera.
module _ {K C : Type 0} where
  -- `vf_camera_unit_process_data`.
  abbrev pub process_data : World K C → Turn (World K C)
  process_data w = ends success w

  abbrev pub let_go : Returned → UnitData C → World K C → World K C
  let_go rc d w = record w {
    pool = (release_at rc w.pool d.current_fb).obj;
    internal = ready (record d { current_fb = 0 });
  }

  -- The push: a NULL queue is refused by vf_buf_queue_push.
  unfoldable pub send_to :
      Returned → Returned → UnitData C → World K C → Option Queue → Turn (World K C)
  send_to rc rc_rel d w none = ends invalid_parameter (let_go rc_rel d w)
  send_to rc rc_rel d w (some q) =
      let o = push_at rc q d.current_fb in
      let w' = record w { out_queue = some o.obj } in
      if is_success o.ret
      then ends success (record w' {
        published = w.published ++ (d.current_fb ∷ []);
        internal = ready (record d { current_fb = 0 });
      })
      else ends o.ret (let_go rc_rel d w')

  abbrev pub send_by : Returned → Returned → World K C → Internal K C → Turn (World K C)
  send_by rc rc_rel w absent = ends invalid_parameter w
  send_by rc rc_rel w (configured cfg) = strays
  send_by rc rc_rel w (ready d) =
      if d.current_fb == 0 then ends invalid_parameter w else send_to rc rc_rel d w w.out_queue

  -- `vf_camera_unit_send_data`, with the thread calls of the push and of a release.
  unfoldable pub send_data : Returned → Returned → World K C → Turn (World K C)
  send_data rc rc_rel w = send_by rc rc_rel w w.internal
