-- ===== src/Units/ConversionUnit/Tests.antt =====
-- The theorems of the conversion unit at concrete inputs.
use vision_flow.Base.{
  ℕ, zero, suc, ◌<◌, ◌≡◌, ◌∙◌, refl, true, some, List, [], arith, ◌==◌, if◌then◌else◌, replicate,
}
use vision_flow.Error.{success, conv_processing_err, raw8, rgb888}
use vision_flow.Framebuffer.{Framebuffer, no_params}
use vision_flow.Sync.{all_ok, Works}
use vision_flow.BuffPool.Slots.{slot_at}
use vision_flow.BuffQueue.{Queue}
use vision_flow.Conversion.{Context, cleared, init_at, raw8_to_rgb888}
use vision_flow.Conversion.Pixels.{process}
use vision_flow.Conversion.Pixels.ToRgb.{raw8-Shown}
use vision_flow.Conversion.Pixels.Process.{process-init_at, process-cleared, lookup_raw8}
use vision_flow.Units.{Frames, ends, and_then}
use vision_flow.Units.Samples.{
  free_pool, lent_pool, loaded, empty, full, pixel, free_pool-IsValid, lent_pool-IsValid,
  loaded-IsValid, empty-IsValid,
}
use vision_flow.Units.ConversionUnit.{UnitData, World, ready, get_data, process_data}
use vision_flow.Units.ConversionUnit.Forward.{Calls, turn, Forwarded, IsFed, turn-Forwarded}
use vision_flow.Units.ConversionUnit.Lost.{failed_input-lost}

-- A grey frame at 5000; all others are RGB.
abbrev frames : Frames
frames a = if a == 5000 then pixel raw8 else pixel rgb888

abbrev unit_data : Context → ℕ → ℕ → UnitData
unit_data ctx a b = record {
  conv_ctx = ctx;
  has_src_pool = true;
  in_fb = a;
  out_fb = b;
  dst_params = no_params;
}

abbrev world : UnitData → Queue → World
world d to = record {
  frames = frames;
  internal = ready d;
  in_queue = some (loaded 5000);
  out_queue = some to;
  pool = free_pool 1000;
  src_pool = lent_pool 5000;
}

abbrev working : UnitData
working = unit_data (init_at raw8 rgb888).1 0 0

abbrev failing : UnitData
failing = unit_data cleared 5010 0

abbrev holding : UnitData
holding = unit_data cleared 5010 5000

abbrev left : UnitData
left = unit_data cleared 5000 0

abbrev blocked : World
blocked = record (world holding (full 7)) { pool = lent_pool 5000 }

abbrev all_calls : Calls
all_calls = record {
  pops = all_ok;
  acquires = all_ok;
  releases = all_ok;
  pushes = all_ok;
  gives_back = all_ok;
  pop_wakes = [];
  acquire_wakes = [];
}

ok : Works all_ok
ok = (refl, refl)

placed : 5000 ≡ slot_at (lent_pool 5000).place 0
unfolding slot_at
placed = refl

fed : IsFed (world working empty) working (loaded 5000) empty 0
unfolding slot_at
fed = record {
  set_up = refl;
  from = refl;
  from_valid = loaded-IsValid;
  held = omega arith;
  to = refl;
  to_valid = empty-IsValid;
  room = omega arith;
  pool_valid = free_pool-IsValid;
  free = omega arith;
  has_src = refl;
  src_valid = lent_pool-IsValid;
  in_src = omega arith;
  lent = omega arith;
  place = refl;
  given = omega arith;
  only = omega arith;
  apart = λ j h. omega arith;
}

-- A context that was not initialized refuses every frame.
fails :
    (j : ℕ)
    → j < 2
    → process cleared (frames 5010) (frames (slot_at (free_pool 1000).place j))
      ≡ some (conv_processing_err, pixel rgb888)
unfolding slot_at
fails zero h = process-cleared _ (pixel rgb888)
fails (suc zero) h = process-cleared _ (pixel rgb888)
fails (suc (suc j)) h = absurd (omega arith)

-- What the conversion of the grey pixel gives.
abbrev shown :
    (m' : List ℕ) × (process (init_at raw8 rgb888).1 (pixel raw8) (pixel rgb888)
      ≡ some (success, record (pixel rgb888) { bytes = some m' }))
shown =
    let s =
      raw8-Shown (pixel raw8) (pixel rgb888) (replicate 16 77) (replicate 16 77)
        (record { from = refl; to = refl; height = refl; width = refl }) (omega arith)
        (omega arith) in
    (s.0, process-init_at raw8_to_rgb888 (pixel raw8) (pixel rgb888) lookup_raw8 ∙ s.1)

abbrev made : ℕ → Framebuffer
made j = record (pixel rgb888) { bytes = some shown.0 }

converts :
    (j : ℕ)
    → j < 2
    → process (init_at raw8 rgb888).1 (frames 5000) (frames (slot_at (free_pool 1000).place j))
      ≡ some (success, made j)
unfolding slot_at
converts zero h = shown.1
converts (suc zero) h = shown.1
converts (suc (suc j)) h = absurd (omega arith)

turn-Forwarded_example :
    (w' : World) × (turn all_calls (world working empty) ≡ ends success w')
    × Forwarded (world working empty) w' working (loaded 5000) empty 0 made
turn-Forwarded_example =
    turn-Forwarded all_calls (world working empty) working (loaded 5000) empty 0 made
      (record { pops = ok; acquires = ok; pushes = ok; gives_back = ok }) fed converts

failed_input-lost_example :
    (w' : World) × (and_then
        (process_data all_ok [] all_ok (world failing empty))
        (get_data all_ok [])
      ≡ ends success w')
    × (w'.frames 5010 ≡ frames 5010)
    × (w'.src_pool ≡ lent_pool 5000)
    × (w'.pool ≡ free_pool 1000)
    × (w'.internal ≡ ready (record failing { in_fb = 5000; out_fb = 0 }))
unfolding slot_at
failed_input-lost_example =
    failed_input-lost all_ok all_ok all_ok [] [] (world failing empty) failing conv_processing_err
      (λ j. pixel rgb888) (loaded 5000) refl (omega arith) (λ j h. omega arith) free_pool-IsValid ok
      ok (omega arith) (λ e. ground arith) fails refl loaded-IsValid ok (omega arith)
