-- ===== src/ProcessingUnit/Tests.antt =====
-- The unit's theorems at concrete inputs.
use vision_flow.Base.{ℕ, ◌+◌, ◌≡◌, ◌≢◌, ◌↔◌, refl, true, false, some, none, [], ◌∷◌}
use vision_flow.Error.{success, queue_shutdown}
use vision_flow.Sync.{all_ok}
use vision_flow.Notifier.{prepared, bidirectional, init_at, is_mode}
use vision_flow.ProcessingUnit.{
  ProcessingUnit, OpFn, Clock, Turn, thread_fn, create_at, create_after_notifier, create_with,
  created, camera,
}
use vision_flow.ProcessingUnit.Running.{IsInLoop, Lives, thread_fn-Lives}

abbrev step : OpFn ℕ
step w = (success, w + 1)

abbrev closed : OpFn ℕ
closed w = (queue_shutdown, w)

abbrev unit : ProcessingUnit ℕ
unit = record {
  type = camera;
  name = none;
  operations = record {
    init = some step;
    deinit = none;
    get_data = some step;
    process_data = none;
    send_data = some closed;
  };
  in_queue = 40;
  out_queue = 0;
  initialized = 1;
  notifier = prepared [] bidirectional;
  stats = record {
    total_get_data_ms = 3;
    total_process_data_ms = 4;
    total_send_data_ms = 5;
    total_ms = 12;
    frames_processed = 1;
  };
  running = false;
}

abbrev bare : ProcessingUnit ℕ
bare = record unit {
  operations = record {
    init = none;
    deinit = none;
    get_data = none;
    process_data = none;
    send_data = none;
  };
}

abbrev clock : Clock
clock = record {
  get = record { from = 0; to = 7 };
  process = record { from = 7; to = 7 };
  send = record { from = 7; to = 9 };
}

abbrev turn : Turn ℕ
turn = record { go = true; others = λ w. w + 10; clock = clock; still = true }

thread_fn-Lives_example :
    IsInLoop (thread_fn (turn ∷ turn ∷ []) unit 0) ↔ Lives (turn ∷ turn ∷ []) unit 0
thread_fn-Lives_example = thread_fn-Lives (turn ∷ turn ∷ []) unit 0

-- A unit whose init operation fails.
abbrev failing : ProcessingUnit ℕ
failing = record unit {
  initialized = 0;
  operations = record (unit.operations) { init = some closed };
}

unit_created : (create_at all_ok unit 0).ret ≡ success
unfolding create_at create_after_notifier create_with created init_at is_mode
unit_created = refl

unit_not_created : (create_at all_ok failing 0).ret ≢ success
unfolding create_at create_after_notifier create_with created init_at is_mode
unit_not_created e = cc
