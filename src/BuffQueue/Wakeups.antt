-- ===== src/BuffQueue/Wakeups.antt =====
-- The signals and broadcasts of a queue's calls, and the blocking pop that waits for them.
use vision_flow.Base.{
  ℕ, ◌+◌, ◌≤◌, ◌≡◌, ◌≢◌, true, false, List, [], ◌∷◌, some, arith, ◌==◌, ◌⊎◌, inl, inr, Bool-cases,
}
use vision_flow.Error.{queue_shutdown}
use vision_flow.Sync.{
  SyncCall, cond_signal, cond_broadcast, cond_wait, mutex_lock, mutex_unlock, Returned, Works,
  FrameResult, result, Outcome, done, unlocked,
}
use vision_flow.Sync.Wait.{Wake, woken, failed, returned, wait_loop, take_or}
use vision_flow.BuffQueue.{Queue, push_at, put, pop_at, drop_head, shutdown_at, reset_at}
use vision_flow.BuffQueue.Invariant.{IsValid}
use vision_flow.BuffQueue.Refine.{run-IsValid}
use vision_flow.BuffQueue.Threads.{
  Op, pushes, pops, shuts_down, resets, step, run, run_others, take_front, pop_blocking_at,
}

-- The thread calls that a call on the queue makes.
abbrev pub calls_of : Queue → Op → List SyncCall
calls_of q (pushes rc fb) = (push_at rc q fb).calls
calls_of q (pops rc) = (pop_at rc q).calls
calls_of q (shuts_down rc) = (shutdown_at rc q).calls
calls_of q resets = []

abbrev pub signals : List SyncCall → ℕ
signals [] = 0
signals (cond_signal ∷ cs) = signals cs + 1
signals (_ ∷ cs) = signals cs

abbrev pub broadcasts : List SyncCall → ℕ
broadcasts [] = 0
broadcasts (cond_broadcast ∷ cs) = broadcasts cs + 1
broadcasts (_ ∷ cs) = broadcasts cs

-- How often `pthread_cond_signal` and `pthread_cond_broadcast` are called in a run.
abbrev pub signals_in : Queue → List Op → ℕ
signals_in q [] = 0
signals_in q (op ∷ ops) = signals (calls_of q op) + signals_in (step q op).1 ops

abbrev pub broadcasts_in : Queue → List Op → ℕ
broadcasts_in q [] = 0
broadcasts_in q (op ∷ ops) = broadcasts (calls_of q op) + broadcasts_in (step q op).1 ops

step-signals :
    (q : Queue) (op : Op) → IsValid q → (step q op).1.count ≤ q.count + signals (calls_of q op)
unfolding step push_at put pop_at drop_head shutdown_at reset_at
step-signals q (pushes rc fb) v = ground arith
step-signals q (pops rc) v = ground arith
step-signals q (shuts_down rc) v = ground arith
step-signals q resets v = ground arith

step-broadcasts :
    (q : Queue) (op : Op)
    → (step q op).1.shutdown ≡ true
    → (q.shutdown ≡ true) ⊎ (1 ≤ broadcasts (calls_of q op))
unfolding step push_at put pop_at drop_head shutdown_at reset_at
step-broadcasts q (pushes rc fb) h = ground arith
step-broadcasts q (pops rc) h = ground arith
step-broadcasts q (shuts_down rc) h = ground arith
step-broadcasts q resets h = ground arith

-- A run leaves no more frames than there were and were signalled.
run-signals :
    (ops : List Op) (q : Queue) → IsValid q → (run_others q ops).count ≤ q.count + signals_in q ops
unfolding run
run-signals [] q v = omega arith
run-signals (op ∷ ops) q v =
    omega (arith, step-signals q op v, run-signals ops (step q op).1 (run-IsValid (op ∷ []) v))

-- A run that shuts an open queue down has broadcast it.
run-broadcasts :
    (ops : List Op) (q : Queue)
    → (run_others q ops).shutdown ≡ true
    → (q.shutdown ≡ true) ⊎ (1 ≤ broadcasts_in q ops)
unfolding run
run-broadcasts [] q h = inl h
run-broadcasts (op ∷ ops) q h = elim (run-broadcasts ops (step q op).1 h) [
  | inl e ↦ elim (step-broadcasts q op e) [ inl t ↦ inl t | inr n ↦ inr (omega arith) ]
  | inr n ↦ inr (omega arith)
]

module _ (rc : Returned) (q : Queue) (ops : List Op) where
  -- The calls of a pop that waits once, after others made theirs.
  abbrev pub after_one_wait : Outcome FrameResult Queue → Outcome FrameResult Queue
  after_one_wait o = record o { calls = mutex_lock ∷ cond_wait ∷ mutex_unlock ∷ [] }

  woken_to_frame :
      (ws : List (Wake Op))
      → IsValid q
      → IsValid (run_others q ops)
      → Works rc
      → q.count ≡ 0
      → q.shutdown ≡ false
      → (run_others q ops).count ≢ 0
      → pop_blocking_at rc q (woken ops ∷ ws)
        ≡ returned (after_one_wait (pop_at rc (run_others q ops)))
  unfolding pop_blocking_at wait_loop take_or take_front pop_at unlocked
  woken_to_frame [] v v' w e o ne = ground arith
  woken_to_frame (woken more ∷ ws) v v' w e o ne = ground arith
  woken_to_frame (failed ∷ ws) v v' w e o ne = ground arith

  woken_to_shutdown :
      (ws : List (Wake Op))
      → IsValid q
      → Works rc
      → q.count ≡ 0
      → q.shutdown ≡ false
      → (run_others q ops).count ≡ 0
      → (run_others q ops).shutdown ≡ true
      → pop_blocking_at rc q (woken ops ∷ ws)
        ≡ returned (after_one_wait (done (result queue_shutdown (some 0)) (run_others q ops) []))
  unfolding pop_blocking_at wait_loop take_or unlocked
  woken_to_shutdown [] v w e o z c = ground arith
  woken_to_shutdown (woken more ∷ ws) v w e o z c = ground arith
  woken_to_shutdown (failed ∷ ws) v w e o z c = ground arith

  -- What other threads' calls mean to a pop that waits on a queue and is then woken.
  abbrev pub Told : List (Wake Op) → Type 0
  Told ws =
      let q' = run_others q ops in
      ((q'.count ≡ 0) × (q'.shutdown ≡ false))
      ⊎ ((q'.count ≢ 0)
          × (q'.count ≤ signals_in q ops)
          × (pop_blocking_at rc q (woken ops ∷ ws) ≡ returned (after_one_wait (pop_at rc q'))))
      ⊎ ((q'.count ≡ 0)
          × (q'.shutdown ≡ true)
          × (1 ≤ broadcasts_in q ops)
          × (pop_blocking_at rc q (woken ops ∷ ws)
              ≡ returned (after_one_wait (done (result queue_shutdown (some 0)) q' []))))

  -- Where a blocking pop finds a valid queue empty and open, and so waits, no wakeup is lost, whatever
  -- calls other threads make and whatever their thread calls return. Either these calls leave the queue
  -- empty and open; or they leave frames, at least as many `pthread_cond_signal` were called as there
  -- are frames now, and a pop woken then returns as `vf_buf_queue_pop` does; or they leave it empty and
  -- shut down, `pthread_cond_broadcast` was called, and a pop woken then returns VF_QUEUE_SHUTDOWN.
  -- The lock and the unlock of the pop itself succeed.
  pub no_lost_wakeup :
      (ws : List (Wake Op)) → IsValid q → Works rc → q.count ≡ 0 → q.shutdown ≡ false → Told ws
  no_lost_wakeup ws v w e o =
      let q' = run_others q ops in
      let v' = run-IsValid ops v in
      elim (Bool-cases (q'.count == 0)) [
        | inr held ↦
            let ne : q'.count ≢ 0 = ground arith in
            inr (inl (ne, omega (arith, run-signals ops q v), woken_to_frame ws v v' w e o ne))
        | inl none_left ↦
            let z : q'.count ≡ 0 = ground arith in
            elim (Bool-cases q'.shutdown) [
              | inr waits_on ↦ inl (z, waits_on)
              | inl shut ↦ inr (
                  inr (
                    z,
                    shut,
                    elim (run-broadcasts ops q shut) [ inl s ↦ absurd (cc) | inr n ↦ n ],
                    woken_to_shutdown ws v w e o z shut,
                  ))
            ]
      ]
