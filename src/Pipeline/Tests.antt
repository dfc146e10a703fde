-- ===== src/Pipeline/Tests.antt =====
-- The pipeline's theorems at concrete inputs: two units, the second of which was never created.
use vision_flow.Base.{
  ℕ, zero, suc, ◌+◌, ◌≤◌, ◌≡◌, ◌≢◌, refl, true, false, Bool, some, none, List, [], ◌∷◌, replicate,
  ◌==◌, if◌then◌else◌, arith,
}
use vision_flow.Error.{success}
use vision_flow.Sync.{all_ok}
use vision_flow.Notifier.{prepared, bidirectional, init_at, is_mode}
use vision_flow.ProcessingUnit.{
  ProcessingUnit, camera, connect_output_at, connect_input_at, create_at, create_after_notifier,
  create_with, created,
}
use vision_flow.Pipeline.{
  Pipeline, QueueManager, System, Site, start, start_unit, unit_at, create, wire_from, connect,
  create_from, store,
}
use vision_flow.Pipeline.Starting.{NoneRuns, AllOrNone, start-AllOrNone, start_masks_failure}
use vision_flow.Pipeline.Stopping.{StopsOrCrashes, stop-StopsOrCrashes}
use vision_flow.Pipeline.Wiring.{IsDistinct, WiredTo, Created, create-WiredTo}
use vision_flow.ProcessingUnit.Life.{stop-start}

-- Queues of which the world records the ones that were shut down.
abbrev queues : QueueManager (List ℕ)
queues = record { init = λ a c w. (success, w); deinit = λ a w. w; shutdown = λ a w. a ∷ w }

abbrev queue_at : ℕ → ℕ
queue_at i = i + 1000

abbrev sys : System
sys = record { sync = all_ok; create_rc = λ a. 0; join_rc = λ a. 0 }

abbrev ready : ProcessingUnit (List ℕ)
ready = record {
  type = camera;
  name = none;
  operations = record {
    init = none;
    deinit = none;
    get_data = none;
    process_data = none;
    send_data = none;
  };
  in_queue = 0;
  out_queue = 1000;
  initialized = 1;
  notifier = prepared [] bidirectional;
  stats = record {
    total_get_data_ms = 0;
    total_process_data_ms = 0;
    total_send_data_ms = 0;
    total_ms = 0;
    frames_processed = 0;
  };
  running = false;
}

abbrev raw : ProcessingUnit (List ℕ)
raw = record ready { initialized = 0; in_queue = 1000 }

abbrev site : Site (List ℕ)
site = record { heap = λ a. if a == 10 then ready else raw; world = [] }

abbrev pair : Pipeline
pair = record { name = []; units = 10 ∷ 20 ∷ replicate 6 0; unit_count = 2; initialized = 1 }

site-NoneRuns : NoneRuns pair site
site-NoneRuns j = idle (unit_at pair j == 10)
  where
    idle : (b : Bool) → (if b then ready else raw).running ≡ false
    idle true = refl
    idle false = refl

ready-starts : (start_unit queues queue_at sys site 10).ret ≡ success
unfolding start_unit
ready-starts = (stop-start ready refl refl).0

start-AllOrNone_example : AllOrNone queues queue_at sys pair (start queues queue_at sys pair site)
start-AllOrNone_example = start-AllOrNone queues queue_at sys pair site site-NoneRuns

start_masks_failure_example : (start queues queue_at sys pair site).ret ≡ success
start_masks_failure_example =
    start_masks_failure queues queue_at sys pair site refl (omega arith) ready-starts refl

-- The threads run, and none can be joined.
abbrev stuck : System
stuck = record sys { join_rc = λ a. 3 }

abbrev busy_site : Site (List ℕ)
busy_site = record { heap = λ a. record ready { running = true }; world = [] }

pair_given : (j : ℕ) → j ≤ 1 → unit_at pair j ≢ 0
pair_given zero h = omega arith
pair_given (suc zero) h = omega arith
pair_given (suc (suc j)) h = absurd (omega arith)

stop-StopsOrCrashes_example : StopsOrCrashes queues queue_at stuck pair 1 busy_site
stop-StopsOrCrashes_example =
    stop-StopsOrCrashes queues queue_at stuck pair 1 busy_site refl refl pair_given refl

pair-IsDistinct : IsDistinct pair
pair-IsDistinct zero zero hi hj e = refl
pair-IsDistinct zero (suc zero) hi hj e = ground arith
pair-IsDistinct (suc zero) zero hi hj e = ground arith
pair-IsDistinct (suc zero) (suc zero) hi hj e = refl
pair-IsDistinct (suc (suc i)) j hi hj e = ground arith
pair-IsDistinct i (suc (suc j)) hi hj e = ground arith

-- Both units can be created.
abbrev fresh_site : Site (List ℕ)
fresh_site = record {
  heap = λ a. record raw {
    operations = record (raw.operations) { init = some (λ w. (success, a ∷ w)) };
  };
  world = [];
}

created_pair : (create queues queue_at sys pair fresh_site).1.ret ≡ success
unfolding create wire_from connect connect_output_at connect_input_at create_from create_at
    create_after_notifier create_with created init_at is_mode store
created_pair = refl

create-WiredTo_example :
    ((create queues queue_at sys pair fresh_site).0.initialized ≡ 1)
    × ((create queues queue_at sys pair fresh_site).0.unit_count ≡ 2)
    × ((create queues queue_at sys pair fresh_site).0.units ≡ pair.units)
    × WiredTo queue_at pair 1 (create queues queue_at sys pair fresh_site).1.site.heap
    × Created pair 2 (create queues queue_at sys pair fresh_site).1.site.heap
create-WiredTo_example =
    create-WiredTo queues queue_at sys pair fresh_site pair-IsDistinct (λ k e. omega (arith, e))
      created_pair
