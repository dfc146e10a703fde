-- ===== src/Service/Tests.antt =====
-- The service at concrete inputs.
use vision_flow.Base.{◌≡◌, refl, false, []}
use vision_flow.Error.{success, oom, yuyv, rgb888}
use vision_flow.Service.Calls.{pipeline_create, Returns, run_calls}
use vision_flow.Service.{ServiceCfg, Service, init, start, stop, deinit}
use vision_flow.Service.Balance.{Live, SetUp, init-SetUp}
use vision_flow.Service.Lifetime.{unused, started, stopped_again, lifetime-Live}

-- Every call succeeds; and every one but the creation of the pipeline.
abbrev fine : Returns
fine calls c = success

abbrev no_pipeline : Returns
no_pipeline calls pipeline_create = oom
no_pipeline calls c = success

abbrev config : ServiceCfg
config = record {
  device_path = "/dev/video0";
  width = 640;
  height = 480;
  src_fmt = yuyv;
  dst_fmt = rgb888;
  pool_slot_count = 4;
  output_dir = "out";
  output_extension = ".rgb";
}

abbrev zeroed : Service
zeroed = record {
  initialized = false;
  run = record { live_in = 0; live_out = 0; live_pipeline = 0; calls = [] };
}

nothing-Live : Live 0 0 0 zeroed.run
nothing-Live = record { live_in = refl; live_out = refl; live_pipeline = refl }

init-SetUp_example : SetUp 0 0 0 (init no_pipeline config zeroed)
init-SetUp_example = init-SetUp no_pipeline config zeroed nothing-Live

init_ok : (init fine config zeroed).0 ≡ success
unfolding init run_calls
init_ok = refl

lifetime-Live_example :
    ((deinit fine (stop fine (start fine (init fine config zeroed).1).1).1).initialized ≡ false)
    × Live 0 0 0 (deinit fine (stop fine (start fine (init fine config zeroed).1).1).1).run
lifetime-Live_example =
    lifetime-Live fine config zeroed (stop fine (start fine (init fine config zeroed).1).1).1
      nothing-Live init_ok (stopped_again _ _ (started _ _ (unused _)))
