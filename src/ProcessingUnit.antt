-- ===== src/ProcessingUnit.antt =====
-- service/src/core/vf-processing-unit.c: the life of a unit and its thread.
-- The operations of a unit are callbacks on a world `W`, which holds all that they read and change:
-- the unit's internal data, its queues and its pools.
pub mod Running
pub mod Life
mod Tests
use Prim.Native.String.{String}
use vision_flow.Base.{
  ℕ, ◌+◌, ◌-◌, ◌%◌, ◌^◌, Bool, true, false, not, Option, none, some, List, [], ◌∷◌, ◌==◌,
  if◌then◌else◌,
}
use vision_flow.Error.{
  VfErr, success, sync_error, init_failed, invalid_parameter, queue_shutdown, is_success, code,
}
use vision_flow.Sync.{Returned, Outcome}
use vision_flow.Notifier.{Notifier, bidirectional, init_at, deinit_at}

-- `vf_unit_type_t`.
pub data UnitType : Type 0 where
  unknown_type file_in file_out conversion camera encoder display stream_provider : UnitType
  type_max : UnitType

-- `vf_unit_type_str`. A stream provider has no text of its own.
pub type_str : UnitType → String
type_str file_in = "VF_UNIT_TYPE_FILE_IN"
type_str file_out = "VF_UNIT_TYPE_FILE_OUT"
type_str conversion = "VF_UNIT_TYPE_CONVERSION"
type_str camera = "VF_UNIT_TYPE_CAMERA"
type_str encoder = "VF_UNIT_TYPE_ENCODER"
type_str display = "VF_UNIT_TYPE_DISPLAY"
type_str _ = "VF_UNIT_TYPE_UNKNOWN"

-- A callback of `vf_unit_operations_t`: what it returns and the world afterwards.
abbrev pub OpFn : Type 0 → Type 0
OpFn W = W → VfErr × W

-- `vf_unit_operations_t`; `none` is NULL.
pub record Operations (W : Type 0) : Type 0 where
  pub init : Option (OpFn W)
  pub deinit : Option (OpFn W)
  pub get_data : Option (OpFn W)
  pub process_data : Option (OpFn W)
  pub send_data : Option (OpFn W)

-- `vf_unit_stats_t`.
pub record Stats : Type 0 where
  pub total_get_data_ms : ℕ
  pub total_process_data_ms : ℕ
  pub total_send_data_ms : ℕ
  pub total_ms : ℕ
  pub frames_processed : ℕ

-- `vf_unit_t`, without the thread's handle and the pointer to the internal data: the world holds them. A queue
-- pointer is an address, 0 being NULL; the name is `none` for NULL.
pub record ProcessingUnit (W : Type 0) : Type 0 where
  pub type : UnitType
  pub name : Option (List ℕ)
  pub operations : Operations W
  pub in_queue : ℕ
  pub out_queue : ℕ
  pub initialized : ℕ
  pub notifier : Notifier
  pub stats : Stats
  pub running : Bool

-- What a call returns, the unit and the world afterwards.
pub record Ran (W : Type 0) : Type 0 where
  pub ret : VfErr
  pub unit : ProcessingUnit W
  pub world : W

abbrev pub ran : {W : Type 0} → VfErr → ProcessingUnit W → W → Ran W
ran e u w = record { ret = e; unit = u; world = w }

-- The bytes of "unknown".
abbrev pub unknown_name : List ℕ
unknown_name = 117 ∷ 110 ∷ 107 ∷ 110 ∷ 111 ∷ 119 ∷ 110 ∷ []

abbrev pub name_or_unknown : Option (List ℕ) → List ℕ
name_or_unknown none = unknown_name
name_or_unknown (some s) = s

-- The readings of the clock before and after one stage, in milliseconds.
pub record Span : Type 0 where
  pub from : ℕ
  pub to : ℕ

pub record Clock : Type 0 where
  pub get : Span
  pub process : Span
  pub send : Span

module _ {W : Type 0} where
  abbrev pub call_or_skip : Option (OpFn W) → W → VfErr × W
  call_or_skip none w = (success, w)
  call_or_skip (some f) w = f w

  -- The time that a stage took: none if it has no callback.
  abbrev pub elapsed : Option (OpFn W) → Span → ℕ
  elapsed none t = 0
  elapsed (some f) t = (t.to + 2 ^ 64 - t.from) % 2 ^ 64

  -- What `vf_unit_create` does with the answer of the init operation.
  unfoldable pub created : Returned → ProcessingUnit W → VfErr × W → Ran W
  created rc u (e, w) =
      if is_success e
      then ran success (record u { initialized = 1 }) w
      else ran e (record u { notifier = (deinit_at rc u.notifier).obj }) w

  -- `vf_unit_create` from the init operation on.
  unfoldable pub create_with : Returned → Option (OpFn W) → ProcessingUnit W → W → Ran W
  create_with rc none u w = ran init_failed u w
  create_with rc (some f) u w = created rc u (f w)

  -- `vf_unit_create` from the outcome of the notifier's initialization on.
  unfoldable pub create_after_notifier :
      Returned → Outcome VfErr Notifier → ProcessingUnit W → W → Ran W
  create_after_notifier rc n u w =
      let u' = record u { notifier = n.obj } in
      if is_success n.ret then create_with rc u.operations.init u' w else ran n.ret u' w

  -- `vf_unit_create` at a unit that is not NULL.
  unfoldable pub create_at : Returned → ProcessingUnit W → W → Ran W
  create_at rc u w =
      create_after_notifier rc (init_at rc u.notifier (name_or_unknown u.name) bidirectional) u w

  -- `vf_unit_destroy` at a unit that is not NULL.
  pub destroy_at : Returned → ProcessingUnit W → W → ProcessingUnit W × W
  destroy_at rc u w = if u.initialized == 0 then (u, w) else (
    record u {
      initialized = 0;
      in_queue = 0;
      out_queue = 0;
      notifier = (deinit_at rc u.notifier).obj;
    },
    (call_or_skip u.operations.deinit w).1,
  )

  -- The statistics that a complete run adds up.
  pub tally : Operations W → Clock → Stats → Stats
  tally ops t s =
      let get_ms = elapsed ops.get_data t.get in
      let prc_ms = elapsed ops.process_data t.process in
      let snd_ms = elapsed ops.send_data t.send in
      record {
        total_get_data_ms = (s.total_get_data_ms + get_ms) % 2 ^ 64;
        total_process_data_ms = (s.total_process_data_ms + prc_ms) % 2 ^ 64;
        total_send_data_ms = (s.total_send_data_ms + snd_ms) % 2 ^ 64;
        total_ms = (s.total_ms + ((get_ms + prc_ms) % 2 ^ 64 + snd_ms) % 2 ^ 64) % 2 ^ 64;
        frames_processed = (s.frames_processed + 1) % 2 ^ 32;
      }

  -- `vf_unit_run` at a unit that is not NULL: the first stage that fails ends it.
  pub run_at : Clock → ProcessingUnit W → W → Ran W
  run_at t u w =
      let ops = u.operations in
      let g = call_or_skip ops.get_data w in
      let p = call_or_skip ops.process_data g.1 in
      let s = call_or_skip ops.send_data p.1 in
      if u.initialized == 0
      then ran init_failed u w
      else if not (is_success g.0)
      then ran g.0 u g.1
      else if not (is_success p.0)
      then ran p.0 u p.1
      else if not (is_success s.0)
      then ran s.0 u s.1
      else ran success (record u { stats = tally ops t u.stats }) s.1

  -- `vf_unit_start` at a unit that is not NULL, with what pthread_create returns.
  pub start_at : ℕ → ProcessingUnit W → VfErr × ProcessingUnit W
  start_at create_rc u =
      if u.initialized == 0
      then (init_failed, u)
      else if create_rc == 0
      then (success, record u { running = true })
      else (sync_error, record u { running = false })

  -- `vf_unit_stop` at a unit that is not NULL, with what pthread_join returns, and the queues that it
  -- shuts down.
  unfoldable pub stop_at : ℕ → ProcessingUnit W → VfErr × ProcessingUnit W × List ℕ
  stop_at join_rc u =
      if u.running
      then (
        if join_rc == 0 then success else sync_error,
        record u { running = false },
        if u.in_queue == 0 then [] else u.in_queue ∷ [],
      )
      else (success, u, [])

module _ {W : Type 0} where
  -- `vf_unit_connect_input` and `vf_unit_connect_output` at a unit that is not NULL.
  unfoldable pub connect_input_at : ProcessingUnit W → ℕ → VfErr × ProcessingUnit W
  connect_input_at u queue =
      if queue == 0 then (invalid_parameter, u) else (success, record u { in_queue = queue })

  unfoldable pub connect_output_at : ProcessingUnit W → ℕ → VfErr × ProcessingUnit W
  connect_output_at u queue =
      if queue == 0 then (invalid_parameter, u) else (success, record u { out_queue = queue })

-- One turn of the thread: what the loop's test reads, what other threads did to the world, the clock,
-- and what the flag is when it is read again after a failed run.
pub record Turn (W : Type 0) : Type 0 where
  pub go : Bool
  pub others : W → W
  pub clock : Clock
  pub still : Bool

-- How `vf_unit_thread_fn` comes out of a sequence of turns.
pub data Thread (W : Type 0) : Type 0 where
  stopped : ProcessingUnit W → W → Thread W
  in_loop : ProcessingUnit W → W → Thread W

module _ {W : Type 0} where
  -- What the loop does after a run: leave, or go on with `rest`.
  pub next : VfErr → Bool → Thread W → Thread W → Thread W
  next e still leave rest =
      if code e == code queue_shutdown
      then leave
      else if is_success e
      then rest
      else if still
      then rest
      else leave

  -- `vf_unit_thread_fn`. The flag is read from the turns, since other threads write it.
  pub thread_fn : List (Turn W) → ProcessingUnit W → W → Thread W
  thread_fn [] u w = in_loop u w
  thread_fn (t ∷ ts) u w =
      let r = run_at t.clock u (t.others w) in
      let rest = thread_fn ts r.unit r.world in
      if t.go then next r.ret t.still (stopped r.unit r.world) rest else stopped u (t.others w)
