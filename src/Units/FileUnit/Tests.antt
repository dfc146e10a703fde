-- ===== src/Units/FileUnit/Tests.antt =====
-- The theorems of the file unit at concrete inputs.
use vision_flow.Base.{ℕ, ◌≡◌, ◌≢◌, refl, true, none, some, List, [], ◌∷◌, ◌++◌, arith}
use vision_flow.Error.{success, file_err, rgb888}
use vision_flow.Framebuffer.{no_params}
use vision_flow.Framebuffer.Files.{
  Done, load, store, each_line, each_plane, write_to_fptr, read_from_fptr,
}
use vision_flow.File.{file_open}
use vision_flow.Sync.{all_ok, Works}
use vision_flow.BuffPool.Slots.{slot_at}
use vision_flow.BuffPool.Invariant.{cleared}
use vision_flow.Units.{ends}
use vision_flow.Units.Samples.{free_pool, lent_pool, pixel, lent_pool-IsValid}
use vision_flow.Units.FileUnit.{
  Mode, mode_in, mode_out, UnitData, ready, Library, World, put_stream, reopen,
}
use vision_flow.Units.FileUnit.Operations.{send_data}
use vision_flow.Units.FileUnit.Slots.{send_out-frees}

-- A library whose streams take everything and give nothing.
abbrev lib : Library (List ℕ)
lib = record {
  io = record { fwrite = λ xs s. (1, s ++ xs); fread = λ n s. (0, [], s) };
  fopen = λ mode path. (700, []);
  fclose = λ fp. 0;
  decimal = λ n. n ∷ [];
  sec = 1;
  nsec = 0;
  frame_path = 9000;
}

abbrev unit_data : Mode → ℕ → ℕ → UnitData
unit_data mode fp fb = record {
  file = record { fp = fp; path = []; is_open = 0 };
  has_pool = true;
  current_fb = fb;
  fb_params = no_params;
  mode = mode;
  file_path = 97 ∷ [];
  output_dir = [];
  output_extension = [];
  frame_set = none;
  frame_idx = 4;
  split_output = 0;
}

abbrev writer : World (List ℕ)
writer = record {
  frames = λ a. pixel rgb888;
  streams = λ a. [];
  internal = ready (unit_data mode_out 700 5000);
  in_queue = none;
  out_queue = none;
  pool = lent_pool 5000;
  published = [];
}

abbrev reader : World (List ℕ)
reader = record writer { internal = ready (unit_data mode_in 0 0); pool = free_pool 1000 }

ok : Works all_ok
ok = (refl, refl)

placed : 5000 ≡ slot_at (lent_pool 5000).place 0
unfolding slot_at
placed = refl

abbrev line_written : Done (List ℕ)
line_written = record {
  err = success;
  count = some 3;
  stream = 77 ∷ 77 ∷ 77 ∷ [];
  fb = pixel rgb888;
}

writes : write_to_fptr lib.io (pixel rgb888) [] ≡ some line_written
unfolding write_to_fptr each_plane each_line load
writes = refl

abbrev nothing_read : Done (List ℕ)
nothing_read = record { err = file_err; count = some 0; stream = []; fb = pixel rgb888 }

reads : read_from_fptr lib.io (pixel rgb888) [] ≡ some nothing_read
unfolding read_from_fptr each_plane each_line store
reads = refl

opens :
    reopen lib mode_in (97 ∷ []) (unit_data mode_in 0 0).file
    ≡ (success, record { fp = 700; path = 97 ∷ []; is_open = 1 })
unfolding file_open
opens = refl

opened : (reopen lib mode_in (97 ∷ []) (unit_data mode_in 0 0).file).1.fp ≢ 0
unfolding file_open
opened = omega arith

send_out-frees_example :
    send_data lib all_ok all_ok writer
    ≡ ends success (record writer {
      streams = put_stream writer.streams 700 (77 ∷ 77 ∷ 77 ∷ []);
      pool = cleared (lent_pool 5000) 0;
      internal = ready (record (unit_data mode_out 700 0) { frame_idx = 5 });
    })
send_out-frees_example =
    send_out-frees lib all_ok all_ok writer (unit_data mode_out 700 5000) 0 line_written refl refl
      refl refl (omega arith) lent_pool-IsValid ok (omega arith) (omega arith) placed writes
