-- ===== src/Units/FileUnit/Setup.antt =====
-- vf_file_unit_init and vf_file_unit_deinit.
use vision_flow.Base.{Bool, not, ◌&&◌, ◌==◌, if◌then◌else◌}
use vision_flow.Error.{success, invalid_parameter, oom, is_success}
use vision_flow.File.{file_open}
use vision_flow.Sync.{Returned}
use vision_flow.BuffPool.{release_at}
use vision_flow.Units.{Turn, ends, strays}
use vision_flow.Units.FileUnit.{
  Mode, mode_in, mode_out, Config, UnitData, absent, configured, ready, Library, World, with_stream,
  fresh, is_in,
}

module _ {S : Type 0} (lib : Library S) where
  -- The file that the unit opens at its init, by mode.
  abbrev pub init_open : Mode → UnitData → World S → Turn (World S)
  init_open mode d w =
      let r = file_open (lib.fopen mode d.file_path).0 d.file_path d.file in
      let w' = with_stream lib mode d.file_path r w in
      if is_success r.0
      then ends success (record w' { internal = ready (record d { file = r.1 }) })
      else ends r.0 w

  abbrev pub init_as : Mode → UnitData → World S → Turn (World S)
  init_as mode_in d w = init_open mode_in d w
  init_as mode_out d w =
      if d.split_output == 0
      then init_open mode_out d w
      else ends success (record w { internal = ready d })

  abbrev pub init_from : Bool → Config → World S → Turn (World S)
  init_from calloc c w =
      if not c.has_pool && is_in c.mode
      then ends invalid_parameter w
      else if calloc
      then init_as c.mode (fresh c) w
      else ends oom w

  -- `vf_file_unit_init`. The flag says whether calloc gives memory.
  unfoldable pub init : Bool → World S → Turn (World S)
  init calloc w = elim w.internal [
    | absent ↦ ends invalid_parameter w
    | configured c ↦ init_from calloc c w
    | ready d ↦ strays
  ]

  abbrev pub deinit_ready : Returned → UnitData → World S → Turn (World S)
  deinit_ready rc d w = ends success (record w {
    internal = absent;
    pool =
        if not (d.current_fb == 0) && d.has_pool
        then (release_at rc w.pool d.current_fb).obj
        else w.pool;
  })

  -- `vf_file_unit_deinit`. What fclose answers is not looked at.
  unfoldable pub deinit : Returned → World S → Turn (World S)
  deinit rc w = elim w.internal [
    | absent ↦ ends success w
    | configured c ↦ strays
    | ready d ↦ deinit_ready rc d w
  ]
