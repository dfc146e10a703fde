-- ===== src/Camera/Tests.antt =====
-- The theorems of the camera at concrete inputs.
use mathlib.Core.List.{flat_map}
use vision_flow.Base.{◌≡◌, refl, inr, true, some, [], ◌∷◌, arith, replicate}
use vision_flow.Error.{success, yuyv, rgb888}
use vision_flow.Framebuffer.Ops.{set_meta}
use vision_flow.Sync.{all_ok, Works}
use vision_flow.Units.{ends}
use vision_flow.Units.Samples.{free_pool, empty, pixel, free_pool-IsValid, empty-IsValid}
use vision_flow.Units.CameraUnit.{UnitData, World, ready}
use vision_flow.Units.CameraUnit.Capture.{turn, Delivered}
use vision_flow.Camera.Calls.{Kernel, Selected, timed_out, readable, accepted, failed, interrupted}
use vision_flow.Camera.{Config, Session, stopped, running, at, zeroed, camera_ioctl}
use vision_flow.Camera.Setup.{
  init, device_opened, capable, formatted, granted, for_buffers, map_reply,
}
use vision_flow.Camera.Life.{start, stop, deinit}
use vision_flow.Camera.Capture.{acquire_frame}
use vision_flow.Camera.Books.{Books}
use vision_flow.Camera.Accounts.{Grants}
use vision_flow.Camera.Outcome.{Outcome, init-Outcome}
use vision_flow.Camera.Lifetime.{unused, started, Ended, lifetime-Released}
use vision_flow.Camera.Frames.{stop-start, watched, acquire_frame-taken}
use vision_flow.Camera.InUnit.{v4l2, turn_missed-Delivered}

-- A device of two buffers of four bytes, whose first request is interrupted once.
abbrev kernel : Selected → Kernel
kernel sel = record {
  open_device = λ t path. some 3;
  querycap_reply = λ t. interrupted (accepted (record { video_capture = true; streaming = true }));
  s_fmt_reply = λ t. accepted (640, 480, "YUYV");
  reqbufs_reply = λ t n. accepted 2;
  querybuf_reply = λ t i. accepted (4, 0);
  qbuf_reply = λ t i. accepted tt;
  dqbuf_reply = λ t. accepted (0, 3);
  streamon_reply = λ t. failed;
  streamoff_reply = λ t. failed;
  mmap = λ t n o. some 4096;
  select = λ t. sel;
  memory = λ t a. 1 ∷ 2 ∷ 3 ∷ 4 ∷ [];
  clock = λ t. (5, 0);
}

abbrev config : Config
config = record {
  device_path = "/dev/video0";
  width = 640;
  height = 480;
  format = yuyv;
  buffer_count = 4;
}

abbrev unplugged : Session
unplugged = record { camera = zeroed; trace = [] }

grants : Grants (kernel readable)
grants t n a e = ground arith

nil-Books : Books [] [] []
unfolding flat_map
nil-Books = record { mapped = refl; opened = refl }

init-Outcome_example : Outcome (init (kernel readable) unplugged config)
init-Outcome_example = init-Outcome (kernel readable) unplugged config grants nil-Books

init_ok : (init (kernel readable) unplugged config).0 ≡ success
unfolding init device_opened capable formatted granted for_buffers map_reply camera_ioctl
init_ok = refl

lifetime-Released_example : Ended (
    deinit
      (kernel readable)
      (start (kernel readable) (init (kernel readable) unplugged config).1).1)
lifetime-Released_example =
    lifetime-Released (kernel readable) 77 unplugged
      (start (kernel readable) (init (kernel readable) unplugged config).1).1 config grants
      nil-Books init_ok (started _ _ (unused _))

abbrev halted : Session
halted = record { camera = record zeroed { fd = some 3; buffer_count = 1 }; trace = [] }

stop-start_example :
    ((start (kernel readable) halted).0 ≡ success)
    × ((start (kernel readable) halted).1.camera.state ≡ running)
    × ((stop (kernel readable) (start (kernel readable) halted).1).0 ≡ success)
    × ((stop (kernel readable) (start (kernel readable) halted).1).1.camera.state ≡ stopped)
stop-start_example = stop-start (kernel readable) halted refl

-- A running camera with one mapped buffer.
abbrev streaming : Session
streaming = record {
  camera = record zeroed {
    cfg = config;
    state = running;
    fd = some 3;
    buffer_count = 1;
    frame_id = 8;
    buffers =
        record { start = at 4096; length = 4 } ∷ replicate 15 (record { start = at 1; length = 0 });
  };
  trace = [];
}

acquire_frame-taken_example :
    (s' : Session) × (acquire_frame (kernel readable) 77 streaming (pixel rgb888) ≡ (
      success,
      s',
      set_meta
          (record (pixel rgb888) { bytes = some (1 ∷ 2 ∷ 3 ∷ replicate 13 77) })
          8
          8
          77
          640
          480
          yuyv
          5
          0,
    ))
    × (s'.camera ≡ record streaming.camera { frame_id = 9 })
unfolding camera_ioctl
acquire_frame-taken_example =
    acquire_frame-taken (kernel readable) 77 streaming (pixel rgb888) 0 3 4096 (replicate 16 77)
      refl refl refl (omega arith) refl refl

abbrev unit_data : UnitData Session
unit_data = record { camera = streaming; current_fb = 0 }

abbrev world : World Config Session
world = record {
  frames = λ a. pixel rgb888;
  internal = ready unit_data;
  out_queue = some empty;
  pool = free_pool 1000;
  published = [];
}

ok : Works all_ok
ok = (refl, refl)

turn_missed-Delivered_example :
    (w' : World Config Session) × (turn
        (v4l2 (kernel timed_out) 77 [])
        all_ok
        []
        all_ok
        all_ok
        world
      ≡ ends success w')
    × Delivered
        (v4l2 (kernel timed_out) 77 [])
        world
        w'
        unit_data
        empty
        (watched streaming)
        (λ fb. fb)
turn_missed-Delivered_example =
    turn_missed-Delivered (kernel timed_out) 77 [] all_ok all_ok all_ok [] world unit_data empty
      refl free_pool-IsValid ok (omega arith) refl empty-IsValid ok (omega arith) refl (inr refl)
