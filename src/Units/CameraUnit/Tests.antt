-- ===== src/Units/CameraUnit/Tests.antt =====
-- The theorems of the camera unit at concrete inputs.
use vision_flow.Base.{ℕ, ◌≡◌, refl, some, [], arith}
use vision_flow.Error.{VfErr, success, rgb888}
use vision_flow.Framebuffer.{Framebuffer}
use vision_flow.Sync.{all_ok, Works}
use vision_flow.Units.{ends}
use vision_flow.Units.Samples.{free_pool, empty, pixel, free_pool-IsValid, empty-IsValid}
use vision_flow.Units.CameraUnit.{Camera, UnitData, World, ready}
use vision_flow.Units.CameraUnit.Capture.{turn, Delivered, turn-Delivered}

-- A camera that counts its frames and answers every capture with a code.
abbrev camera : VfErr → Camera ℕ ℕ
camera e = record {
  zero = 0;
  init = λ c k. (success, k);
  start = λ c. (success, c);
  stop = λ c. (success, c);
  deinit = λ c. (success, 0);
  acquire_frame = λ c fb. (e, 8, record fb { ref_count = 0 });
}

abbrev given : Framebuffer → Framebuffer
given fb = record fb { ref_count = 0 }

abbrev unit_data : UnitData ℕ
unit_data = record { camera = 7; current_fb = 0 }

abbrev world : World ℕ ℕ
world = record {
  frames = λ a. pixel rgb888;
  internal = ready unit_data;
  out_queue = some empty;
  pool = free_pool 1000;
  published = [];
}

ok : Works all_ok
ok = (refl, refl)

turn-Delivered_example :
    (w' : World ℕ ℕ) × (turn (camera success) all_ok [] all_ok all_ok world ≡ ends success w')
    × Delivered (camera success) world w' unit_data empty 8 given
turn-Delivered_example =
    turn-Delivered (camera success) all_ok all_ok all_ok [] world unit_data empty 8 given refl
      free_pool-IsValid ok (omega arith) refl empty-IsValid ok (omega arith) (λ fb. refl)
