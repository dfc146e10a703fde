-- ===== src/Units/FileUnit/Input.antt =====
-- The frames that a file unit takes: from a file, or from its queue.
use vision_flow.Base.{ℕ, ◌+◌, ◌%◌, ◌^◌, ◌||◌, Option, none, some, List, ◌==◌, if◌then◌else◌}
use vision_flow.Error.{success, invalid_parameter, is_success}
use vision_flow.Framebuffer.Ops.{set_meta}
use vision_flow.Framebuffer.Files.{Done, read_from_fptr}
use vision_flow.Sync.{Returned}
use vision_flow.Sync.Wait.{Wake, Blocking, returned, waiting}
use vision_flow.BuffPool.{Pool, release_at}
use vision_flow.BuffPool.Threads as PoolCalls
use vision_flow.BuffQueue.{Queue}
use vision_flow.BuffQueue.Threads as QueueCalls
use vision_flow.Units.{put_frame, Turn, ends, waits, strays, handed_out}
use vision_flow.Units.FileUnit.{
  mode_in, UnitData, ready, Library, World, put_stream, reopen, with_stream, refused,
}

module _ {S : Type 0} (lib : Library S) where
  -- vf_framebuffer_read_from_fptr of the current frame, NULL being refused.
  abbrev pub read_frame : World S → UnitData → Option (Done S)
  read_frame w d =
      if (d.current_fb == 0) || (d.file.fp == 0)
      then some (refused w d)
      else read_from_fptr lib.io (w.frames d.current_fb) (w.streams d.file.fp)

  -- What follows the transfer of a frame from a file.
  unfoldable pub loaded : Returned → World S → UnitData → Option (Done S) → Turn (World S)
  loaded rc w d none = strays
  loaded rc w d (some r) =
      let p = d.fb_params in
      let i = d.frame_idx in
      let w' = record w { streams = put_stream w.streams d.file.fp r.stream } in
      let tagged = set_meta r.fb i i lib.frame_path p.width p.height p.format lib.sec lib.nsec in
      if is_success r.err
      then ends success (record w' {
        frames = put_frame w.frames d.current_fb tagged;
        internal = ready (record d { frame_idx = (i + 1) % 2 ^ 32 });
      })
      else ends r.err (record w' {
        frames = put_frame w.frames d.current_fb r.fb;
        pool = (release_at rc w.pool d.current_fb).obj;
        internal = ready (record d { current_fb = 0 });
      })

  -- What follows the blocking acquire.
  unfoldable pub acquired : Returned → World S → UnitData → Blocking Pool → Turn (World S)
  acquired rc w d (returned o) =
      let d' = record d { current_fb = handed_out o.ret.out d.current_fb } in
      let w' = record w { pool = o.obj; internal = ready d' } in
      if is_success o.ret.err then loaded rc w' d' (read_frame w' d') else ends o.ret.err w'
  acquired rc w d (waiting p) =
      waits (record w { pool = p; internal = ready (record d { current_fb = 0 }) })

  -- A get of a frame from the file at a path, `none` being a place behind the frame set.
  unfoldable pub get_in :
      Returned
      → List (Wake PoolCalls.Op)
      → Returned
      → UnitData
      → World S
      → Option (List ℕ)
      → Turn (World S)
  get_in rc wakes rc_rel d w none = strays
  get_in rc wakes rc_rel d w (some path) =
      let r = reopen lib mode_in path d.file in
      let d' = record d { file = r.1 } in
      let w' = record (with_stream lib mode_in path r w) { internal = ready d' } in
      if is_success r.0
      then acquired rc_rel w' d' (PoolCalls.acquire_blocking_at rc w.pool wakes)
      else ends r.0 w'

  abbrev pub popped : World S → UnitData → Blocking Queue → Turn (World S)
  popped w d (returned o) = ends o.ret.err (record w {
    in_queue = some o.obj;
    internal = ready (record d { current_fb = handed_out o.ret.out d.current_fb });
  })
  popped w d (waiting q) =
      waits (record w { in_queue = some q; internal = ready (record d { current_fb = 0 }) })

  abbrev pub get_out :
      Returned → List (Wake QueueCalls.Op) → UnitData → World S → Option Queue → Turn (World S)
  get_out rc wakes d w none = ends invalid_parameter w
  get_out rc wakes d w (some q) = popped w d (QueueCalls.pop_blocking_at rc q wakes)
