-- ===== src/BuffQueue/Locks.antt =====
-- The mutex and the error paths of the queue's calls.
use vision_flow.Base.{ℕ, ◌≡◌, refl, subst, List, [], ◌∷◌, arith, if_elim, ◌==◌}
use vision_flow.Sync.{
  Returned, FrameResult, Outcome, mutex_lock, mutex_unlock, worked, locks, unlocks, SyncCall,
}
use vision_flow.Sync.Wait.{Wake, Blocking, returned, waiting, after_call, Ends, wait_loop-Ends}
use vision_flow.BuffQueue.{Queue, push_at, pop_at, shutdown_at, count_at, is_full_at, is_empty_at}
use vision_flow.BuffQueue.Threads.{Op, run_others, drained, take_front, pop_blocking_at}

-- Every lock that the calls took they also gave back.
abbrev pub Balanced : List SyncCall → Type 0
Balanced cs = locks cs ≡ unlocks cs

abbrev Closes : Blocking Queue → Type 0
Closes (returned o) = Balanced o.calls
Closes (waiting q) = Unit {0}

Closes-lock : (b : Blocking Queue) → Ends b → Closes (after_call mutex_lock b)
Closes-lock (returned o) h = h
Closes-lock (waiting q) h = tt

take_front-calls : (rc : Returned) (q : Queue) → (take_front rc q).calls ≡ mutex_unlock ∷ []
unfolding take_front
take_front-calls rc q = refl

pop_blocking_at-Closes :
    (rc : Returned) (q : Queue) (ws : List (Wake Op))
    → rc mutex_lock ≡ 0
    → Closes (pop_blocking_at rc q ws)
unfolding pop_blocking_at
pop_blocking_at-Closes rc q ws h =
    if_elim Closes (q.initialized == 0) (λ _. refl)
      (λ _.
        if_elim Closes (worked rc mutex_lock)
          (λ _. Closes-lock _ (
            wait_loop-Ends run_others drained (λ p. p.shutdown) take_front take_front-calls rc ws
              q))
          (λ e. ground arith))

-- Where the mutex can be locked, a blocking pop that returns has made as many unlock calls as lock
-- calls, on every path through its wait loop, error paths included.
pub pop_blocking-Balanced :
    (rc : Returned) (q : Queue) (ws : List (Wake Op)) (o : Outcome FrameResult Queue)
    → rc mutex_lock ≡ 0
    → pop_blocking_at rc q ws ≡ returned o
    → Balanced o.calls
pop_blocking-Balanced rc q ws o h e = subst Closes e (pop_blocking_at-Closes rc q ws h)

-- Where the mutex can be locked, a push, a pop, a shutdown, a count and a test for full or empty each
-- make as many unlock calls as lock calls, on every path.
pub calls-Balanced :
    (rc : Returned) (q : Queue) (fb : ℕ)
    → rc mutex_lock ≡ 0
    → Balanced (push_at rc q fb).calls
      × Balanced (pop_at rc q).calls
      × Balanced (shutdown_at rc q).calls
      × Balanced (count_at rc q).calls
      × Balanced (is_full_at rc q).calls
      × Balanced (is_empty_at rc q).calls
unfolding push_at pop_at shutdown_at count_at is_full_at is_empty_at
calls-Balanced rc q fb h =
    (ground arith, ground arith, ground arith, ground arith, ground arith, ground arith)
