-- ===== src/BuffQueue/Threads.antt =====
-- The queue among threads. Every call but `vf_buf_queue_reset` runs under the mutex, so what several
-- threads do to a queue is a sequence of whole calls. A blocking pop of another thread changes the
-- queue as its last step does, which is a pop.
use vision_flow.Base.{ℕ, Bool, none, some, List, [], ◌∷◌, ◌==◌, if◌then◌else◌}
use vision_flow.Error.{success, sync_error, init_failed}
use vision_flow.Sync.{
  mutex_lock, mutex_unlock, Returned, worked, FrameResult, result, Outcome, done, unlocked,
}
use vision_flow.Sync.Wait.{Wake, Blocking, returned, after_call, wait_loop}
use vision_flow.BuffQueue.{Queue, push_at, pop_at, shutdown_at, reset_at, drop_head, front}

-- One call on the queue, with what its thread calls return.
pub data Op : Type 0 where
  pushes : Returned → ℕ → Op
  pops : Returned → Op
  shuts_down : Returned → Op
  resets : Op

-- The code that a call returns, and what a pop hands out. A shutdown and a reset return nothing.
abbrev pub Reply : Type 0
Reply = FrameResult

unfoldable pub step : Queue → Op → Reply × Queue
step q (pushes rc fb) = let o = push_at rc q fb in (result o.ret none, o.obj)
step q (pops rc) = let o = pop_at rc q in (o.ret, o.obj)
step q (shuts_down rc) = (result success none, (shutdown_at rc q).obj)
step q resets = (result success none, reset_at q)

unfoldable pub run : Queue → List Op → List Reply × Queue
run q [] = ([], q)
run q (op ∷ ops) = let (r, q') = step q op in let (rs, q'') = run q' ops in (r ∷ rs, q'')

-- The calls of other threads during a wait, their answers aside.
abbrev pub run_others : Queue → List Op → Queue
run_others q ops = (run q ops).1

-- The test of the wait loop, `0U == queue->count`.
abbrev pub drained : Queue → Bool
drained q = q.count == 0

-- What follows the wait loop.
unfoldable pub take_front : Returned → Queue → Outcome FrameResult Queue
take_front rc q =
    done (result (unlocked rc success) (some (front q))) (drop_head q) (mutex_unlock ∷ [])

-- `vf_buf_queue_pop_blocking` at a queue and an `out_fb` that are not NULL.
unfoldable pub pop_blocking_at : Returned → Queue → List (Wake Op) → Blocking Queue
pop_blocking_at rc q ws =
    if q.initialized == 0
    then returned (done (result init_failed none) q [])
    else if worked rc mutex_lock
    then after_call mutex_lock (wait_loop run_others drained (λ p. p.shutdown) take_front rc q ws)
    else returned (done (result sync_error (some 0)) q (mutex_lock ∷ []))
