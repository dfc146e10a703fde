-- ===== src/BuffPool/Threads.antt =====
-- The pool among threads: whole calls under the mutex, and the acquire that waits for a free slot. An
-- acquire of another thread that waited changes the pool as its last step does, which is an acquire.
use vision_flow.Base.{ℕ, Bool, none, some, List, [], ◌∷◌, ◌==◌, if◌then◌else◌}
use vision_flow.Error.{success, sync_error, init_failed}
use vision_flow.Sync.{
  mutex_lock, mutex_unlock, Returned, worked, FrameResult, result, Outcome, done, unlocked,
}
use vision_flow.Sync.Wait.{Wake, Blocking, returned, after_call, wait_loop}
use vision_flow.BuffPool.{Pool, grab, address, acquire_at, release_at, shutdown_at, reset_at}

-- One call on the pool, with what its thread calls return.
pub data Op : Type 0 where
  acquires : Returned → Op
  releases : Returned → ℕ → Op
  shuts_down : Returned → Op
  resets : Op

-- The pool's next state and the pointer that the call handed out, 0 if none.
unfoldable pub step : Pool → Op → ℕ × Pool
step p (acquires rc) = let o = acquire_at rc p in (address o.ret.out, o.obj)
step p (releases rc fb) = (0, (release_at rc p fb).obj)
step p (shuts_down rc) = (0, (shutdown_at rc p).obj)
step p resets = (0, reset_at p)

-- The pointers handed out by a sequence of calls, in order.
unfoldable pub run : Pool → List Op → List ℕ × Pool
run p [] = ([], p)
run p (op ∷ ops) = let (a, p') = step p op in let (as', p'') = run p' ops in (a ∷ as', p'')

abbrev pub run_others : Pool → List Op → Pool
run_others p ops = (run p ops).1

-- The test of the wait loop, `0U == pool->available`.
abbrev pub exhausted : Pool → Bool
exhausted p = p.available == 0

-- What follows the wait loop.
unfoldable pub take_slot : Returned → Pool → Outcome FrameResult Pool
take_slot rc p =
    done (result (unlocked rc success) (some (address (grab p).0))) (grab p).1 (mutex_unlock ∷ [])

-- `vf_buf_pool_acquire_blocking` at pointers that are not NULL.
unfoldable pub acquire_blocking_at : Returned → Pool → List (Wake Op) → Blocking Pool
acquire_blocking_at rc p ws =
    if p.initialized == 0
    then returned (done (result init_failed none) p [])
    else if worked rc mutex_lock
    then after_call mutex_lock (wait_loop run_others exhausted (λ q. q.shutdown) take_slot rc p ws)
    else returned (done (result sync_error (some 0)) p (mutex_lock ∷ []))
