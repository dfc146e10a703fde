-- ===== src/Control/Tests.antt =====
-- The control handler at concrete requests.
use vision_flow.Base.{ℕ, ◌+◌, ◌≡◌, refl, false, none, List, some, [], ◌∷◌, ◌++◌}
use vision_flow.Error.{success}
use vision_flow.Parser.Strings.{Text, codes, c_string, strstr}
use vision_flow.Service.Calls.{Returns, run_calls}
use vision_flow.Service
use vision_flow.Core.{camera_service_cfg}
use vision_flow.Control.{UnitView, get_stats}
use vision_flow.Control.OverService.{UnitViews, Client, handled, serve}
use vision_flow.Control.Replies.{joined_units, get_stats-whole, stopped_reported_running}

abbrev one_digit : ℕ → Text
one_digit n = (48 + n) ∷ []

abbrev unnamed : UnitView
unnamed = record {
  name = none;
  stats = record {
    total_get_data_ms = 6;
    total_process_data_ms = 4;
    total_send_data_ms = 2;
    total_ms = 12;
    frames_processed = 2;
  };
}

abbrev views : UnitViews
views = record {
  camera_unit = λ s. unnamed;
  sp_unit = λ s. unnamed;
  conv_unit = λ s. unnamed;
  file_out_unit = λ s. unnamed;
}

-- Every call succeeds.
abbrev fine : Returns
fine calls c = success

abbrev zeroed : Service.Service
zeroed = record {
  initialized = false;
  run = record { live_in = 0; live_out = 0; live_pipeline = 0; calls = [] };
}

init_ok : (Service.init fine camera_service_cfg zeroed).0 ≡ success
unfolding Service.init run_calls
init_ok = refl

-- A client that starts the service again.
abbrev clients : List Client
clients = (4, some (codes "{\"cmd\":\"start\"}")) ∷ []

get_stats-whole_example :
    get_stats one_digit (unnamed ∷ unnamed ∷ unnamed ∷ unnamed ∷ [])
    ≡ codes "{\"status\":\"ok\",\"data\":{\"units\":["
      ++ (joined_units one_digit unnamed unnamed unnamed unnamed ++ codes "]}}\n")
get_stats-whole_example = get_stats-whole one_digit unnamed unnamed unnamed unnamed

stopped_reported_running_example :
    (handled one_digit fine views
      (5, some (codes "{\"cmd\":\"get_status\"}"))
      (Service.stop fine (
        serve one_digit fine views clients
          (Service.init fine camera_service_cfg zeroed).1)).1).response
    ≡ some (codes "{\"status\":\"ok\",\"data\":{\"service\":\"running\"}}\n")
unfolding strstr c_string
stopped_reported_running_example =
    stopped_reported_running one_digit fine views camera_service_cfg zeroed clients 5 123
      (codes "\"cmd\":\"get_status\"}") init_ok refl
