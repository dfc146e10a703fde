-- ===== src/Units/FileUnit/Operations.antt =====
-- The operations of a file unit on its data.
use vision_flow.Base.{List, ◌==◌, if◌then◌else◌}
use vision_flow.Error.{success, invalid_parameter}
use vision_flow.Sync.{Returned}
use vision_flow.Sync.Wait.{Wake}
use vision_flow.BuffPool.Threads as PoolCalls
use vision_flow.BuffQueue.Threads as QueueCalls
use vision_flow.Units.{Turn, ends, strays}
use vision_flow.Units.FileUnit.{
  Mode, mode_in, mode_out, UnitData, Internal, absent, configured, ready, Library, World,
  input_path,
}
use vision_flow.Units.FileUnit.Input.{get_in, get_out}
use vision_flow.Units.FileUnit.Output.{send_in, send_out}

module _ {S : Type 0} (lib : Library S) where
  abbrev pub get_as :
      Returned
      → List (Wake PoolCalls.Op)
      → Returned
      → List (Wake QueueCalls.Op)
      → UnitData
      → World S
      → Mode
      → Turn (World S)
  get_as rc wakes rc_rel pop_wakes d w mode_in =
      get_in lib rc wakes rc_rel d w (input_path d d.frame_set)
  get_as rc wakes rc_rel pop_wakes d w mode_out = get_out lib rc pop_wakes d w w.in_queue

  abbrev pub get_by :
      Returned
      → List (Wake PoolCalls.Op)
      → Returned
      → List (Wake QueueCalls.Op)
      → World S
      → Internal
      → Turn (World S)
  get_by rc wakes rc_rel pop_wakes w absent = ends invalid_parameter w
  get_by rc wakes rc_rel pop_wakes w (configured c) = strays
  get_by rc wakes rc_rel pop_wakes w (ready d) = get_as rc wakes rc_rel pop_wakes d w d.mode

  -- `vf_file_unit_get_data`, with the thread calls and the wakes of the acquire and of the pop.
  unfoldable pub get_data :
      Returned
      → List (Wake PoolCalls.Op)
      → Returned
      → List (Wake QueueCalls.Op)
      → World S
      → Turn (World S)
  get_data rc wakes rc_rel pop_wakes w = get_by rc wakes rc_rel pop_wakes w w.internal

  -- `vf_file_unit_process_data`.
  abbrev pub process_data : World S → Turn (World S)
  process_data w = ends success w

  abbrev pub send_as : Returned → Returned → UnitData → World S → Mode → Turn (World S)
  send_as rc rc_rel d w mode_in = send_in lib rc rc_rel d w w.out_queue
  send_as rc rc_rel d w mode_out = send_out lib rc_rel d w

  abbrev pub send_by : Returned → Returned → World S → Internal → Turn (World S)
  send_by rc rc_rel w absent = ends invalid_parameter w
  send_by rc rc_rel w (configured c) = strays
  send_by rc rc_rel w (ready d) =
      if d.current_fb == 0 then ends invalid_parameter w else send_as rc rc_rel d w d.mode

  -- `vf_file_unit_send_data`, with the thread calls of the push and of a release.
  unfoldable pub send_data : Returned → Returned → World S → Turn (World S)
  send_data rc rc_rel w = send_by rc rc_rel w w.internal
