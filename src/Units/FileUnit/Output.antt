-- ===== src/Units/FileUnit/Output.antt =====
-- The frames that a file unit passes on: to its queue, or to a file.
use vision_flow.Base.{
  ℕ, ◌+◌, ◌%◌, ◌^◌, ◌||◌, Option, none, some, List, [], ◌∷◌, ◌++◌, ◌==◌, if◌then◌else◌,
}
use vision_flow.Error.{success, invalid_parameter, is_success}
use vision_flow.Framebuffer.Files.{Done, write_to_fptr}
use vision_flow.Sync.{Returned}
use vision_flow.BuffQueue.{Queue, push_at}
use vision_flow.Units.{Turn, ends, strays}
use vision_flow.Units.FileUnit.{
  mode_out, FrameInfo, UnitData, ready, Library, World, cut, frame_at, base_of, put_stream,
  drop_frame, reopen, with_stream, refused,
}

module _ {S : Type 0} (lib : Library S) where
  abbrev pub write_frame : World S → UnitData → Option (Done S)
  write_frame w d =
      if (d.current_fb == 0) || (d.file.fp == 0)
      then some (refused w d)
      else write_to_fptr lib.io (w.frames d.current_fb) (w.streams d.file.fp)

  unfoldable pub send_in : Returned → Returned → UnitData → World S → Option Queue → Turn (World S)
  send_in rc rc_rel d w none = ends invalid_parameter (drop_frame rc_rel d w)
  send_in rc rc_rel d w (some q) =
      let o = push_at rc q d.current_fb in
      let w' = record w { out_queue = some o.obj } in
      if is_success o.ret
      then ends success (record w' {
        published = w.published ++ (d.current_fb ∷ []);
        internal = ready (record d { current_fb = 0 });
      })
      else ends o.ret (drop_frame rc_rel d w')

  -- What follows the transfer of a frame to a file: whatever it gave, the frame goes back.
  unfoldable pub saved : Returned → UnitData → World S → Option (Done S) → Turn (World S)
  saved rc d w none = strays
  saved rc d w (some r) = ends r.err (
      drop_frame rc (record d { frame_idx = (d.frame_idx + 1) % 2 ^ 32 })
        (record w { streams = put_stream w.streams d.file.fp r.stream }))

  -- The path of a frame's own file, `none` being a place behind the frame set.
  abbrev pub output_path : UnitData → Option (List FrameInfo) → Option (List ℕ)
  output_path d none = some (
      cut 1024 (
        d.output_dir
        ++ (47 ∷ 102 ∷ 114 ∷ 97 ∷ 109 ∷ 101 ∷ 95 ∷ [])
        ++ lib.decimal ((d.frame_idx + 1) % 2 ^ 32)
        ++ d.output_extension))
  output_path d (some fs) = elim (frame_at fs d.frame_idx) [
    | none ↦ none
    | some f ↦ some (
        cut 1024 (d.output_dir ++ (47 ∷ []) ++ base_of (cut 128 f.file_name) ++ d.output_extension))
  ]

  unfoldable pub send_split : Returned → UnitData → World S → Option (List ℕ) → Turn (World S)
  send_split rc d w none = strays
  send_split rc d w (some path) =
      let r = reopen lib mode_out path d.file in
      let d' = record d { file = r.1 } in
      let w' = with_stream lib mode_out path r w in
      if is_success r.0 then saved rc d' w' (write_frame w' d') else ends r.0 (drop_frame rc d' w')

  unfoldable pub send_out : Returned → UnitData → World S → Turn (World S)
  send_out rc d w =
      if d.split_output == 1
      then send_split rc d w (output_path d d.frame_set)
      else saved rc d w (write_frame w d)
