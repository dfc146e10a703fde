-- ===== src/Units/StreamProvider.antt =====
-- service/src/units/stream-provider/vf-stream-provider-unit.c: a frame is popped, given one reference
-- for each consumer, and pushed on. A pointer to a unit is not NULL.
pub mod Sharing
mod Tests
use vision_flow.Base.{
  ℕ, zero, suc, Bool, true, false, not, ◌||◌, Option, none, some, List, ◌==◌, ltb, if◌then◌else◌,
}
use vision_flow.Error.{VfErr, success, invalid_parameter, oom, is_success}
use vision_flow.Framebuffer.{Framebuffer}
use vision_flow.Framebuffer.RefCount.{refs}
use vision_flow.Sync.{Returned}
use vision_flow.Sync.Wait.{Wake, Blocking, returned, waiting}
use vision_flow.BuffPool.{Pool}
use vision_flow.BuffQueue.{Queue, push_at}
use vision_flow.BuffQueue.Threads.{Op, pop_blocking_at}
use vision_flow.Units.{Frames, put_frame, Turn, ends, waits, strays, handed_out, unref_frame}

-- VF_STREAM_PROVIDER_MAX_CONSUMERS.
abbrev pub max_consumers : ℕ
max_consumers = 4

-- `vf_stream_provider_cfg_t`: the flag says whether the pointer to the pool is given.
pub record Config : Type 0 where
  pub consumer_count : ℕ
  pub has_src_pool : Bool

-- `vf_stream_provider_data_t`.
pub record UnitData : Type 0 where
  pub consumer_count : ℕ
  pub current_fb : ℕ

-- What `internal_data` points to: the configuration before the init operation, the data after it.
pub data Internal : Type 0 where
  absent : Internal
  configured : Config → Internal
  ready : UnitData → Internal

-- A queue is `none` if the unit is not connected to it.
pub record World : Type 0 where
  pub frames : Frames
  pub internal : Internal
  pub in_queue : Option Queue
  pub out_queue : Option Queue
  pub src_pool : Pool

abbrev pub init_from : Bool → Config → World → Turn World
init_from calloc c w =
    if c.consumer_count == 0 || ltb max_consumers c.consumer_count
    then ends invalid_parameter w
    else if not c.has_src_pool
    then ends invalid_parameter w
    else if calloc
    then ends success (record w {
      internal = ready (record { consumer_count = c.consumer_count; current_fb = 0 });
    })
    else ends oom w

-- `vf_stream_provider_unit_init`. The flag says whether calloc gives memory.
unfoldable pub init : Bool → World → Turn World
init calloc w = elim w.internal [
  | absent ↦ ends invalid_parameter w
  | configured c ↦ init_from calloc c w
  | ready d ↦ strays
]

-- `vf_stream_provider_unit_deinit`: a frame that the unit still holds is forgotten. It would give a
-- configuration, which is not the unit's own memory, to free.
unfoldable pub deinit : World → Turn World
deinit w = elim w.internal [
  | absent ↦ ends invalid_parameter w
  | configured c ↦ strays
  | ready d ↦ ends success (record w { internal = absent })
]

-- One reference for each consumer; vf_framebuffer_ref refuses NULL.
abbrev pub share : ℕ → Frames → ℕ → Frames
share n frames a = if a == 0 then frames else put_frame frames a (refs n (frames a))

-- What follows the blocking pop: the references.
unfoldable pub popped : World → UnitData → Blocking Queue → Turn World
popped w d (returned o) =
    let a = handed_out o.ret.out d.current_fb in
    let w' = record w { in_queue = some o.obj; internal = ready (record d { current_fb = a }) } in
    if is_success o.ret.err
    then ends success (record w' { frames = share d.consumer_count w.frames a })
    else ends o.ret.err w'
popped w d (waiting q) =
    waits (record w { in_queue = some q; internal = ready (record d { current_fb = 0 }) })

abbrev pub get_from : Returned → List (Wake Op) → UnitData → World → Option Queue → Turn World
get_from rc wakes d w none = ends invalid_parameter w
get_from rc wakes d w (some q) = popped w d (pop_blocking_at rc q wakes)

-- `vf_stream_provider_unit_get_data`.
unfoldable pub get_data : Returned → List (Wake Op) → World → Turn World
get_data rc wakes w = elim w.internal [
  | absent ↦ ends invalid_parameter w
  | configured c ↦ strays
  | ready d ↦ get_from rc wakes d w w.in_queue
]

-- `vf_stream_provider_unit_process_data`.
abbrev pub process_data : World → Turn World
process_data w = ends success w

-- One reference to the frame is dropped, and the unit lets go of it.
abbrev pub let_go : Returned → UnitData → World → World
let_go rc d w =
    let dropped = unref_frame rc w.src_pool w.frames d.current_fb in
    record w {
      frames = dropped.0;
      src_pool = dropped.1;
      internal = ready (record d { current_fb = 0 });
    }

unfoldable pub send_to : Returned → Returned → UnitData → World → Option Queue → Turn World
send_to rc rc_rel d w none = ends invalid_parameter (let_go rc_rel d w)
send_to rc rc_rel d w (some q) =
    let o = push_at rc q d.current_fb in
    let w' = record w { out_queue = some o.obj } in
    if is_success o.ret
    then ends success (record w' { internal = ready (record d { current_fb = 0 }) })
    else ends o.ret (let_go rc_rel d w')

abbrev pub send_ready : Returned → Returned → UnitData → World → Turn World
send_ready rc rc_rel d w =
    if d.current_fb == 0 then ends invalid_parameter w else send_to rc rc_rel d w w.out_queue

-- `vf_stream_provider_unit_send_data`, with the thread calls of the push and of a release.
unfoldable pub send_data : Returned → Returned → World → Turn World
send_data rc rc_rel w = elim w.internal [
  | absent ↦ ends invalid_parameter w
  | configured c ↦ strays
  | ready d ↦ send_ready rc rc_rel d w
]
