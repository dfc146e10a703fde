-- ===== src/Units/StreamProvider/Tests.antt =====
-- The theorems of the stream provider at concrete inputs.
use vision_flow.Base.{ℕ, ◌≡◌, refl, some, [], arith}
use vision_flow.Error.{success, raw8}
use vision_flow.Sync.{all_ok, Works}
use vision_flow.BuffPool.Slots.{slot_at}
use vision_flow.BuffQueue.{Queue}
use vision_flow.Units.{Frames, ends}
use vision_flow.Units.Samples.{lent_pool, loaded, empty, pixel, loaded-IsValid, empty-IsValid}
use vision_flow.Units.StreamProvider.{UnitData, World, ready}
use vision_flow.Units.StreamProvider.Sharing.{turn, Passed, turn-Passed}

-- Every frame has this many references.
abbrev frames : ℕ → Frames
frames n a = record (pixel raw8) { ref_count = n }

abbrev unit_data : ℕ → UnitData
unit_data a = record { consumer_count = 2; current_fb = a }

abbrev world : ℕ → ℕ → Queue → World
world n a to = record {
  frames = frames n;
  internal = ready (unit_data a);
  in_queue = some (loaded 5000);
  out_queue = some to;
  src_pool = lent_pool 5000;
}

ok : Works all_ok
ok = (refl, refl)

placed : 5000 ≡ slot_at (lent_pool 5000).place 0
unfolding slot_at
placed = refl

turn-Passed_example :
    (w' : World) × (turn all_ok [] all_ok all_ok (world 0 0 empty) ≡ ends success w')
    × Passed (world 0 0 empty) w' (unit_data 0) (loaded 5000) empty 1
turn-Passed_example =
    turn-Passed all_ok all_ok all_ok [] (world 0 0 empty) (unit_data 0) (loaded 5000) empty 1 refl
      refl (omega arith) refl loaded-IsValid ok (omega arith) (omega arith) refl refl empty-IsValid
      ok (omega arith)
