-- ===== src/BuffQueue/Blocking.antt =====
-- `vf_buf_queue_pop_blocking`: what it returns, and the calls that wake it.
use vision_flow.Base.{
  ℕ, ◌≡◌, ◌≢◌, refl, ◌∙◌, ap, sym, true, false, List, [], ◌∷◌, some, arith, take, subst, ◌==◌,
  if_elim,
}
use vision_flow.Error.{success, queue_shutdown}
use vision_flow.Sync.{
  Returned, Works, FrameResult, result, Outcome, mutex_lock, mutex_unlock, unlocked, done, worked,
}
use vision_flow.Sync.Wait
use vision_flow.Sync.Wait.{
  Wake, woken, failed, Blocking, returned, waiting, after_call, take_or, wait_loop, wait_loop-Fine,
  Fine-lock,
}
use vision_flow.BuffQueue.{Queue, pop_at, front}
use vision_flow.BuffQueue.Invariant.{IsValid, drop_head-IsValid}
use vision_flow.BuffQueue.Contents.{contents, contents-drop_head, NoNull}
use vision_flow.BuffQueue.Refine.{run-IsValid, run-NoNull}
use vision_flow.BuffQueue.Threads.{Op, run_others, drained, take_front, pop_blocking_at}

abbrev pub after_wakes : Queue → List (Wake Op) → Queue
after_wakes = Wait.after_wakes run_others

abbrev Fine : Returned → Queue → List (Wake Op) → Blocking Queue → Type 0
Fine = Wait.Fine run_others drained (λ p. p.shutdown) take_front

pop_blocking_at-Fine :
    (rc : Returned) (q : Queue) (ws : List (Wake Op)) → Fine rc q ws (pop_blocking_at rc q ws)
unfolding pop_blocking_at
pop_blocking_at-Fine rc q ws =
    if_elim (Fine rc q ws) (q.initialized == 0) (λ _ h. ground arith)
      (λ _.
        if_elim (Fine rc q ws) (worked rc mutex_lock)
          (λ _.
            Fine-lock run_others drained (λ p. p.shutdown) take_front mutex_lock rc q ws _
              (wait_loop-Fine run_others drained (λ p. p.shutdown) take_front rc ws q))
          (λ _ h. ground arith))

after_wakes-IsValid : (ws : List (Wake Op)) (q : Queue) → IsValid q → IsValid (after_wakes q ws)
after_wakes-IsValid [] q v = v
after_wakes-IsValid (failed ∷ ws) q v = v
after_wakes-IsValid (woken ops ∷ ws) q v =
    after_wakes-IsValid ws (run_others q ops) (run-IsValid ops v)

after_wakes-NoNull :
    (ws : List (Wake Op)) (q : Queue)
    → IsValid q
    → NoNull (contents q)
    → NoNull (contents (after_wakes q ws))
after_wakes-NoNull [] q v h = h
after_wakes-NoNull (failed ∷ ws) q v h = h
after_wakes-NoNull (woken ops ∷ ws) q v h =
    after_wakes-NoNull ws (run_others q ops) (run-IsValid ops v) (run-NoNull ops v h)

-- What a pop takes from a valid queue that holds a frame.
take_front_lem :
    (rc : Returned) (q : Queue)
    → IsValid q
    → drained q ≡ false
    → ((take_front rc q).ret.out ≡ some (front q))
      × (contents q ≡ front q ∷ contents (take_front rc q).obj)
      × IsValid (take_front rc q).obj
unfolding take_front
take_front_lem rc q v e =
    let ne : q.count ≢ 0 = ground arith in (refl, contents-drop_head v ne, drop_head-IsValid v ne)

-- On a valid queue that holds no NULL pointer, a `vf_buf_queue_pop_blocking` that returns VF_SUCCESS
-- hands out the oldest frame that the queue held after some number of its wakes. It has taken exactly
-- that frame away, the frame is not NULL, and the queue that it leaves is valid.
pub pop_blocking-took :
    (rc : Returned) (q : Queue) (ws : List (Wake Op)) (o : Outcome FrameResult Queue)
    → IsValid q
    → NoNull (contents q)
    → pop_blocking_at rc q ws ≡ returned o
    → o.ret.err ≡ success
    → (k : ℕ) × (fb : ℕ) × (fb ≢ 0)
      × (o.ret.out ≡ some fb)
      × (contents (after_wakes q (take k ws)) ≡ fb ∷ contents o.obj)
      × IsValid o.obj
pop_blocking-took rc q ws o v nn e ok =
    let t = subst (Fine rc q ws) e (pop_blocking_at-Fine rc q ws) ok in
    let s' = after_wakes q (take t.0 ws) in
    let got = take_front_lem rc s' (after_wakes-IsValid (take t.0 ws) q v) t.1.0 in
    let split : contents s' ≡ front s' ∷ contents o.obj =
      got.1 ∙ ap (λ p. front s' ∷ contents p) (sym t.1.2) in
    let loaded = subst NoNull split (after_wakes-NoNull (take t.0 ws) q v nn) in
    (t.0, front s', loaded.0, ap (λ r. r.out) t.1.1 ∙ got.0, split, subst IsValid (sym t.1.2) got.2)

-- A valid queue that is shut down while it holds no frame ends the wait at once: where lock and unlock
-- succeed, a blocking pop returns VF_QUEUE_SHUTDOWN with a NULL frame and without waiting, leaves the
-- queue as it was and gives the mutex back.
pub pop_blocking-closed :
    (rc : Returned) (q : Queue) (ws : List (Wake Op))
    → IsValid q
    → Works rc
    → q.count ≡ 0
    → q.shutdown ≡ true
    → pop_blocking_at rc q ws
      ≡ returned (done (result queue_shutdown (some 0)) q (mutex_lock ∷ mutex_unlock ∷ []))
unfolding pop_blocking_at wait_loop take_or unlocked
pop_blocking-closed rc q [] v w e o = ground arith
pop_blocking-closed rc q (woken ops ∷ ws) v w e o = ground arith
pop_blocking-closed rc q (failed ∷ ws) v w e o = ground arith

-- A blocking pop on a valid queue that holds a frame does not wait, shut down or not: where lock and
-- unlock succeed, it answers as `vf_buf_queue_pop` does, with the same queue and the same thread calls.
pub pop_blocking-eq-pop :
    (rc : Returned) (q : Queue) (ws : List (Wake Op))
    → IsValid q
    → Works rc
    → q.count ≢ 0
    → pop_blocking_at rc q ws ≡ returned (pop_at rc q)
unfolding pop_blocking_at wait_loop take_or take_front pop_at unlocked
pop_blocking-eq-pop rc q [] v w ne = ground arith
pop_blocking-eq-pop rc q (woken ops ∷ ws) v w ne = ground arith
pop_blocking-eq-pop rc q (failed ∷ ws) v w ne = ground arith
