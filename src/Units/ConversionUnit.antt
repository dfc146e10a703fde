-- ===== src/Units/ConversionUnit.antt =====
-- service/src/units/conversion/vf-conversion-unit.c: a frame is popped, converted into a frame of the
-- unit's own pool, and pushed on. A pointer to a unit is not NULL, as the pipeline calls the operations.
pub mod Cycle
pub mod Lost
pub mod Forward
mod Tests
use vision_flow.Base.{
  ℕ, Bool, true, false, not, ◌&&◌, Option, none, some, List, ◌==◌, if◌then◌else◌,
}
use vision_flow.Error.{
  VfErr, success, invalid_parameter, oom, conv_processing_err, PixelFmt, is_success,
}
use vision_flow.Framebuffer.{Framebuffer, Params}
use vision_flow.Sync.{Returned, FrameResult, Outcome}
use vision_flow.Sync.Wait.{Wake, Blocking, returned, waiting}
use vision_flow.BuffPool.{Pool, release_at}
use vision_flow.BuffPool.Threads as PoolCalls
use vision_flow.BuffQueue.{Queue, push_at}
use vision_flow.BuffQueue.Threads as QueueCalls
use vision_flow.Conversion.{Context, cleared, init_at}
use vision_flow.Conversion.Pixels
use vision_flow.Units.{Frames, put_frame, Turn, ends, waits, strays, handed_out, unref_frame}

-- `vf_conversion_unit_cfg_t`: the flags say whether the pointers to the pools are given.
pub record Config : Type 0 where
  pub src_fmt : PixelFmt
  pub dst_fmt : PixelFmt
  pub dst_params : Params
  pub has_pool : Bool
  pub has_src_pool : Bool

-- `vf_conversion_unit_data_t`.
pub record UnitData : Type 0 where
  pub conv_ctx : Context
  pub has_src_pool : Bool
  pub in_fb : ℕ
  pub out_fb : ℕ
  pub dst_params : Params

-- What `internal_data` points to: the configuration before the init operation, the data after it.
pub data Internal : Type 0 where
  absent : Internal
  configured : Config → Internal
  ready : UnitData → Internal

-- A queue is `none` if the unit is not connected to it.
pub record World : Type 0 where
  pub frames : Frames
  pub internal : Internal
  pub in_queue : Option Queue
  pub out_queue : Option Queue
  pub pool : Pool
  pub src_pool : Pool

-- What `vf_conversion_init` answers decides.
abbrev pub init_with : Config → VfErr × Context → World → Turn World
init_with c (e, ctx) w =
    if is_success e
    then ends success (record w {
      internal = ready (record {
        conv_ctx = ctx;
        has_src_pool = c.has_src_pool;
        in_fb = 0;
        out_fb = 0;
        dst_params = c.dst_params;
      });
    })
    else ends e w

abbrev pub init_from : Bool → Config → World → Turn World
init_from calloc c w =
    if not c.has_pool
    then ends invalid_parameter w
    else if calloc
    then init_with c (init_at c.src_fmt c.dst_fmt) w
    else ends oom w

-- `vf_conversion_unit_init`. The flag says whether calloc gives memory.
unfoldable pub init : Bool → World → Turn World
init calloc w = elim w.internal [
  | absent ↦ ends invalid_parameter w
  | configured c ↦ init_from calloc c w
  | ready d ↦ strays
]

-- `vf_conversion_unit_deinit` of a unit that is set up: the frames that it still holds go back.
abbrev pub deinit_ready : Returned → Returned → UnitData → World → Turn World
deinit_ready rc_src rc_pool d w =
    let src_pool =
      if not (d.in_fb == 0) && d.has_src_pool
      then (release_at rc_src w.src_pool d.in_fb).obj
      else w.src_pool in
    let pool = if d.out_fb == 0 then w.pool else (release_at rc_pool w.pool d.out_fb).obj in
    ends success (record w { internal = absent; src_pool = src_pool; pool = pool })

-- `vf_conversion_unit_deinit`.
unfoldable pub deinit : Returned → Returned → World → Turn World
deinit rc_src rc_pool w = elim w.internal [
  | absent ↦ ends success w
  | configured c ↦ strays
  | ready d ↦ deinit_ready rc_src rc_pool d w
]

-- What follows the blocking pop, which has cleared `in_fb` while it waits.
abbrev pub popped : World → UnitData → Blocking Queue → Turn World
popped w d (returned o) = ends o.ret.err (record w {
  in_queue = some o.obj;
  internal = ready (record d { in_fb = handed_out o.ret.out d.in_fb });
})
popped w d (waiting q) =
    waits (record w { in_queue = some q; internal = ready (record d { in_fb = 0 }) })

abbrev pub get_from :
    Returned → List (Wake QueueCalls.Op) → UnitData → World → Option Queue → Turn World
get_from rc wakes d w none = ends invalid_parameter w
get_from rc wakes d w (some q) = popped w d (QueueCalls.pop_blocking_at rc q wakes)

-- `vf_conversion_unit_get_data`.
unfoldable pub get_data : Returned → List (Wake QueueCalls.Op) → World → Turn World
get_data rc wakes w = elim w.internal [
  | absent ↦ ends invalid_parameter w
  | configured c ↦ strays
  | ready d ↦ get_from rc wakes d w w.in_queue
]

-- `vf_conversion_process` with the frames that the two pointers point to.
unfoldable pub conversion : UnitData → Frames → Option (VfErr × Framebuffer)
conversion d frames =
    if d.out_fb == 0
    then some
        ((if d.conv_ctx.initialized == 0 then conv_processing_err else invalid_parameter), frames 0)
    else Pixels.process d.conv_ctx (frames d.in_fb) (frames d.out_fb)

-- The rest of the operation behind the conversion.
unfoldable pub converted : Returned → World → UnitData → Option (VfErr × Framebuffer) → Turn World
converted rc w d none = strays
converted rc w d (some (e, fb)) =
    let frames = put_frame w.frames d.out_fb fb in
    if is_success e
    then ends success (record w { frames = frames })
    else ends e (record w {
      frames = frames;
      pool = (release_at rc w.pool d.out_fb).obj;
      internal = ready (record d { out_fb = 0 });
    })

-- The rest of the operation behind the blocking acquire.
unfoldable pub acquired : Returned → World → UnitData → Blocking Pool → Turn World
acquired rc w d (returned o) =
    let d' = record d { out_fb = handed_out o.ret.out d.out_fb } in
    let w' = record w { pool = o.obj; internal = ready d' } in
    if is_success o.ret.err then converted rc w' d' (conversion d' w.frames) else ends o.ret.err w'
acquired rc w d (waiting p) =
    waits (record w { pool = p; internal = ready (record d { out_fb = 0 }) })

abbrev pub process_ready :
    Returned → List (Wake PoolCalls.Op) → Returned → UnitData → World → Turn World
process_ready rc wakes rc_rel d w =
    if d.in_fb == 0
    then ends invalid_parameter w
    else acquired rc_rel w d (PoolCalls.acquire_blocking_at rc w.pool wakes)

-- `vf_conversion_unit_process_data`.
unfoldable pub process_data : Returned → List (Wake PoolCalls.Op) → Returned → World → Turn World
process_data rc wakes rc_rel w = elim w.internal [
  | absent ↦ ends invalid_parameter w
  | configured c ↦ strays
  | ready d ↦ process_ready rc wakes rc_rel d w
]

-- The output frame goes back to its pool.
abbrev pub give_up : Returned → UnitData → World → World
give_up rc d w = record w {
  pool = (release_at rc w.pool d.out_fb).obj;
  internal = ready (record d { out_fb = 0 });
}

-- The end of a send that succeeded: the reference to the input frame is dropped.
unfoldable pub sent : Returned → UnitData → World → World
sent rc d w =
    let dropped = unref_frame rc w.src_pool w.frames d.in_fb in
    let done = record w { internal = ready (record d { in_fb = 0; out_fb = 0 }) } in
    if not (d.in_fb == 0) && d.has_src_pool
    then record done { frames = dropped.0; src_pool = dropped.1 }
    else done

-- The push, and what it answers. The arguments are the thread calls of the push, of a release to the
-- pool, and of a release to the source pool.
unfoldable pub send_to :
    Returned → Returned → Returned → UnitData → World → Option Queue → Turn World
send_to rc rc_rel rc_src d w none = ends invalid_parameter (give_up rc_rel d w)
send_to rc rc_rel rc_src d w (some q) =
    let o = push_at rc q d.out_fb in
    let w' = record w { out_queue = some o.obj } in
    if is_success o.ret then ends success (sent rc_src d w') else ends o.ret (give_up rc_rel d w')

abbrev pub send_ready : Returned → Returned → Returned → UnitData → World → Turn World
send_ready rc rc_rel rc_src d w =
    if d.out_fb == 0 then ends invalid_parameter w else send_to rc rc_rel rc_src d w w.out_queue

-- `vf_conversion_unit_send_data`.
unfoldable pub send_data : Returned → Returned → Returned → World → Turn World
send_data rc rc_rel rc_src w = elim w.internal [
  | absent ↦ ends invalid_parameter w
  | configured c ↦ strays
  | ready d ↦ send_ready rc rc_rel rc_src d w
]
