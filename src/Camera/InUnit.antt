-- ===== src/Camera/InUnit.antt =====
-- The camera unit over vf_camera: service/src/units/camera with libraries/vf_camera.
use vision_flow.Base.{ℕ, ◌<◌, ◌≡◌, ◌≢◌, ◌⊎◌, some, List}
use vision_flow.Error.{success}
use vision_flow.Sync.{Returned, Works}
use vision_flow.Sync.Wait.{Wake}
use vision_flow.BuffPool.Invariant as PoolInvariant
use vision_flow.BuffPool.Threads.{Op}
use vision_flow.BuffQueue.{Queue}
use vision_flow.BuffQueue.Invariant as QueueInvariant
use vision_flow.Units.{ends}
use vision_flow.Units.CameraUnit.{Camera, UnitData, World, ready}
use vision_flow.Units.CameraUnit.Capture.{turn, Delivered, turn-Delivered}
use vision_flow.Camera.Calls.{Kernel, Trace, select_failed, timed_out}
use vision_flow.Camera.{Config, Session, running, zeroed}
use vision_flow.Camera.Setup.{init}
use vision_flow.Camera.Life.{start, stop, deinit}
use vision_flow.Camera.Capture.{acquire_frame}
use vision_flow.Camera.Frames.{watched, acquire_frame_missed}

module _ (kernel : Kernel) (name_at : ℕ) (t : Trace) where
  -- The functions of vf-camera.c, with a kernel and the calls that were made before.
  abbrev pub v4l2 : Camera Config Session
  v4l2 = record {
    zero = record { camera = zeroed; trace = t };
    init = init kernel;
    start = start kernel;
    stop = stop kernel;
    deinit = deinit kernel;
    acquire_frame = acquire_frame kernel name_at;
  }

  -- A turn of a unit with a slot available in its valid pool and room in its valid queue, whose locks succeed
  -- and whose running camera gets no frame because select fails or times out, returns VF_SUCCESS and has
  -- delivered the slot with the contents that it had before.
  pub turn_missed-Delivered :
      (rc rc_rel rc_push : Returned) (wakes : List (Wake Op)) (w : World Config Session)
      (d : UnitData Session) (q : Queue)
      → w.internal ≡ ready d
      → PoolInvariant.IsValid w.pool
      → Works rc
      → w.pool.available ≢ 0
      → w.out_queue ≡ some q
      → QueueInvariant.IsValid q
      → Works rc_push
      → q.count < q.capacity
      → d.camera.camera.state ≡ running
      → (kernel.select d.camera.trace ≡ select_failed) ⊎ (kernel.select d.camera.trace ≡ timed_out)
      → (w' : World Config Session) × (turn v4l2 rc wakes rc_rel rc_push w ≡ ends success w')
        × Delivered v4l2 w w' d q (watched d.camera) (λ fb. fb)
  turn_missed-Delivered rc rc_rel rc_push wakes w d q at v works free to qv qworks room run missed =
      turn-Delivered v4l2 rc rc_rel rc_push wakes w d q (watched d.camera) (λ fb. fb) at v works
        free to qv qworks room (λ fb. acquire_frame_missed kernel name_at d.camera fb run missed)
