-- ===== src/Pipeline.antt =====
-- service/src/core/vf-pipeline-mgr.c: a chain of units, a queue between each and the next.
-- Units are addresses, 0 being NULL, into a heap of units, so that one unit may stand twice in a
-- pipeline. The queues are in the world `W` of the units' callbacks and are reached by address.
pub mod Wiring
pub mod Starting
pub mod Stopping
mod Tests
use mathlib.Core.Option
use vision_flow.Base.{
  ℕ, zero, suc, Option, none, some, ◌+◌, ◌-◌, ◌%◌, ◌^◌, Bool, List, ltb, leb, ◌==◌, if◌then◌else◌,
  get_or, set, replicate, take, [], ◌∷◌,
}
use vision_flow.Error.{VfErr, success, invalid_parameter, init_failed, is_success}
use vision_flow.Sync.{Returned}
use vision_flow.ProcessingUnit.{
  ProcessingUnit, Ran, Clock, create_at, destroy_at, run_at, start_at, stop_at, connect_input_at,
  connect_output_at,
}

-- VF_PIPELINE_MAX_UNITS.
abbrev pub max_units : ℕ
max_units = 8

-- `vf_pipeline_t`, without the array of queues.
pub record Pipeline : Type 0 where
  pub name : List ℕ
  pub units : List ℕ
  pub unit_count : ℕ
  pub initialized : ℕ

-- `vf_pipeline_init` at a pipeline that is not NULL; a NULL name is the empty one.
pub init_at : List ℕ → VfErr × Pipeline
init_at name = (
  success,
  record { name = take 63 name; units = replicate 8 0; unit_count = 0; initialized = 0 },
)

-- `vf_pipeline_add_unit` at a pipeline that is not NULL.
pub add_unit_at : Pipeline → ℕ → VfErr × Pipeline
add_unit_at p unit =
    if unit == 0
    then (invalid_parameter, p)
    else if leb max_units p.unit_count
    then (invalid_parameter, p)
    else (
      success,
      record p { units = set p.units p.unit_count unit; unit_count = (p.unit_count + 1) % 2 ^ 32 },
    )

-- What the pipeline uses of the queues, by the address of a queue.
pub record QueueManager (W : Type 0) : Type 0 where
  pub init : ℕ → ℕ → W → VfErr × W
  pub deinit : ℕ → W → W
  pub shutdown : ℕ → W → W

-- What the calls of the system return: of the mutexes, and of pthread_create and pthread_join for the
-- thread of each unit.
pub record System : Type 0 where
  pub sync : Returned
  pub create_rc : ℕ → ℕ
  pub join_rc : ℕ → ℕ

-- The units by address, and the world.
pub record Site (W : Type 0) : Type 0 where
  pub heap : ℕ → ProcessingUnit W
  pub world : W

pub record Answer (W : Type 0) : Type 0 where
  pub ret : VfErr
  pub site : Site W

abbrev pub answer : {W : Type 0} → VfErr → Site W → Answer W
answer e s = record { ret = e; site = s }

abbrev pub unit_at : Pipeline → ℕ → ℕ
unit_at p i = get_or p.units i 0

-- A store of one unit.
pub store : {W : Type 0} → Site W → ℕ → ProcessingUnit W → Site W
store s a u = record s { heap = λ b. if b == a then u else s.heap b }

-- `queue_at i` is the address of `pipeline->queues[i]`.
module _ {W : Type 0} (queues : QueueManager W) (queue_at : ℕ → ℕ) (sys : System) where
  -- `vf_unit_start` of the unit at an address.
  pub start_unit : Site W → ℕ → Answer W
  start_unit s a = let r = start_at (sys.create_rc a) (s.heap a) in answer r.0 (store s a r.1)

  pub shut_all : List ℕ → W → W
  shut_all [] w = w
  shut_all (q ∷ qs) w = shut_all qs (queues.shutdown q w)

  -- `vf_unit_stop` of the unit at an address.
  pub stop_unit : Site W → ℕ → Answer W
  stop_unit s a =
      let r = stop_at (sys.join_rc a) (s.heap a) in
      answer r.0 (record (store s a r.1) { world = shut_all r.2 s.world })

  -- The loop over the started units when a start fails: each stop overwrites `err`.
  pub rollback : Pipeline → ℕ → VfErr → Site W → Answer W
  rollback p zero err s = answer err s
  rollback p (suc i) err s = let r = stop_unit s (unit_at p i) in rollback p i r.ret r.site

  -- The loop of `vf_pipeline_start` from unit i on, with `left` units to go.
  pub start_from : Pipeline → ℕ → ℕ → Site W → Answer W
  start_from p zero i s = answer success s
  start_from p (suc left) i s =
      let r = start_unit s (unit_at p i) in
      let rest = start_from p left (suc i) r.site in
      if is_success r.ret then rest else rollback p i r.ret r.site

  -- `vf_pipeline_start` at a pipeline that is not NULL.
  pub start : Pipeline → Site W → Answer W
  start p s = if p.initialized == 0 then answer init_failed s else start_from p p.unit_count 0 s

  -- The loop of `vf_pipeline_stop`, the last unit first. A failure is only logged; the message about
  -- unit i reads the name of unit i + 1, and `none` is the read at NULL or past the array.
  pub stop_down : Pipeline → ℕ → Site W → Option (Site W)
  stop_down p zero s = some s
  stop_down p (suc i) s =
      let r = stop_unit s (unit_at p i) in
      let rest = stop_down p i r.site in
      if is_success r.ret then rest else if unit_at p (suc i) == 0 then none else rest

  -- `vf_pipeline_stop` at a pipeline that is not NULL.
  pub stop : Pipeline → Site W → Option (Answer W)
  stop p s =
      if p.initialized == 0
      then some (answer init_failed s)
      else Option.map (answer success) (stop_down p p.unit_count s)

  -- The loop of `vf_pipeline_run_once`, with the clock of each unit's run.
  pub run_from : Pipeline → (ℕ → Clock) → ℕ → ℕ → Site W → Answer W
  run_from p t zero i s = answer success s
  run_from p t (suc left) i s =
      let r = run_at (t i) (s.heap (unit_at p i)) s.world in
      let s' = record (store s (unit_at p i) r.unit) { world = r.world } in
      let rest = run_from p t left (suc i) s' in if is_success r.ret then rest else answer r.ret s'

  -- `vf_pipeline_run_once` at a pipeline that is not NULL.
  pub run_once : Pipeline → (ℕ → Clock) → Site W → Answer W
  run_once p t s =
      if p.initialized == 0 then answer init_failed s else run_from p t p.unit_count 0 s

  -- `vf_unit_destroy` of the unit at an address.
  pub destroy_unit : Site W → ℕ → Site W
  destroy_unit s a =
      let r = destroy_at sys.sync (s.heap a) s.world in record (store s a r.0) { world = r.1 }

  pub deinit_queues : ℕ → ℕ → Site W → Site W
  deinit_queues zero i s = s
  deinit_queues (suc left) i s =
      deinit_queues left (suc i) (record s { world = queues.deinit (queue_at i) s.world })

  pub destroy_from : Pipeline → ℕ → ℕ → Site W → Site W
  destroy_from p zero i s = s
  destroy_from p (suc left) i s = destroy_from p left (suc i) (destroy_unit s (unit_at p i))

  -- `vf_pipeline_destroy` at a pipeline that is not NULL.
  pub destroy : Pipeline → Site W → Pipeline × Site W
  destroy p s = if p.initialized == 0 then (p, s) else (
    record p { initialized = 0 },
    deinit_queues (p.unit_count - 1) 0 (destroy_from p p.unit_count 0 s),
  )

  -- `vf_unit_connect_output` of unit i and `vf_unit_connect_input` of unit i + 1, both to queue i.
  pub connect : Pipeline → ℕ → Site W → Answer W
  connect p i s =
      let o = connect_output_at (s.heap (unit_at p i)) (queue_at i) in
      let s' = store s (unit_at p i) o.1 in
      let n = connect_input_at (s'.heap (unit_at p (suc i))) (queue_at i) in
      if is_success o.0 then answer n.0 (store s' (unit_at p (suc i)) n.1) else answer o.0 s'

  -- The loop that sets the queues up and wires the units.
  pub wire_from : Pipeline → ℕ → ℕ → Site W → Answer W
  wire_from p zero i s = answer success s
  wire_from p (suc left) i s =
      let q = queues.init (queue_at i) 16 s.world in
      let s' = record s { world = q.1 } in
      let c = connect p i s' in
      let rest = wire_from p left (suc i) c.site in
      if is_success q.0 then (if is_success c.ret then rest else c) else answer q.0 s'

  -- The units before unit i are destroyed, the last first.
  pub destroy_down : Pipeline → ℕ → Site W → Site W
  destroy_down p zero s = s
  destroy_down p (suc i) s = destroy_down p i (destroy_unit s (unit_at p i))

  -- The loop that creates the units; a failure destroys those created before.
  pub create_from : Pipeline → ℕ → ℕ → Site W → Answer W
  create_from p zero i s = answer success s
  create_from p (suc left) i s =
      let r = create_at sys.sync (s.heap (unit_at p i)) s.world in
      let s' = record (store s (unit_at p i) r.unit) { world = r.world } in
      let rest = create_from p left (suc i) s' in
      if is_success r.ret then rest else answer r.ret (destroy_down p i s')

  -- `vf_pipeline_create` at a pipeline that is not NULL.
  pub create : Pipeline → Site W → Pipeline × Answer W
  create p s =
      let q_count = p.unit_count - 1 in
      let w = wire_from p q_count 0 s in
      let c = create_from p p.unit_count 0 w.site in
      if ltb p.unit_count 2
      then (p, answer invalid_parameter s)
      else if is_success w.ret
      then (if is_success c.ret
          then (record p { initialized = 1 }, answer success c.site)
          else (p, answer c.ret (deinit_queues q_count 0 c.site)))
      else (p, answer w.ret (deinit_queues q_count 0 w.site))
