-- ===== src/Core/Tests.antt =====
-- The scenarios at concrete inputs.
use vision_flow.Base.{refl, true, some, none, [], ◌∷◌}
use vision_flow.Error.{success, oom}
use vision_flow.Parser.{FrameSet, format_rgb888}
use vision_flow.Parser.Strings.{codes}
use vision_flow.Parser.Load.{Loaded}
use vision_flow.Service.Calls.{pipeline_create, Run, Returns}
use vision_flow.Service.Balance.{Live}
use vision_flow.Core.{Outside, run_all, run_camera_scenario}
use vision_flow.Core.Balance.{run_all-Live}
use vision_flow.Core.CameraScenario.{GivesBack, run_camera_scenario-GivesBack}
use vision_flow.Control.{UnitView}
use vision_flow.Control.OverService.{UnitViews}

-- Every call but the creation of the pipeline succeeds.
abbrev no_pipeline : Returns
no_pipeline calls pipeline_create = oom
no_pipeline calls c = success

abbrev rgb_set : FrameSet
rgb_set = record {
  name = codes "rgb";
  base_path = codes "in";
  format = format_rgb888;
  frames =
      some (record { file_name = codes "a"; full_path = codes "in/a"; width = 4; height = 2 } ∷ []);
  frame_count = 1;
}

abbrev sets_loaded : Loaded
sets_loaded = record { err = success; out_cfg = some (rgb_set ∷ []); got = 4; freed = 1 }

abbrev start : Run
start = record { live_in = 0; live_out = 0; live_pipeline = 0; calls = [] }

run_all-Live_example : Live 0 0 0 (run_all no_pipeline sets_loaded start).1
run_all-Live_example =
    run_all-Live no_pipeline sets_loaded
      (record { live_in = refl; live_out = refl; live_pipeline = refl })

-- Every call succeeds.
abbrev fine : Returns
fine calls c = success

abbrev views : UnitViews
views = record {
  camera_unit = λ s. unseen;
  sp_unit = λ s. unseen;
  conv_unit = λ s. unseen;
  file_out_unit = λ s. unseen;
}
  where
    unseen : UnitView
    unseen = record {
      name = none;
      stats = record {
        total_get_data_ms = 0;
        total_process_data_ms = 0;
        total_send_data_ms = 0;
        total_ms = 0;
        frames_processed = 0;
      };
    }

-- Two clients, one of which stops the service and one of which starts it again.
abbrev outside : Outside
outside = record {
  sockets = record { socket = some 3; binds = true; listens = true };
  clients = (4, some (codes "{\"cmd\":\"stop\"}")) ∷ (4, some (codes "{\"cmd\":\"start\"}")) ∷ [];
}

run_camera_scenario-GivesBack_example :
    GivesBack 0 0 0 (run_camera_scenario fine (λ n. []) views outside start)
run_camera_scenario-GivesBack_example =
    run_camera_scenario-GivesBack fine (λ n. []) views outside
      (record { live_in = refl; live_out = refl; live_pipeline = refl })
