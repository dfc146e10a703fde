-- ===== src/BuffPool/Blocking.antt =====
-- `vf_buf_pool_acquire_blocking`: when it returns, and what.
use vision_flow.Base.{
  ℕ, ◌≡◌, ◌≢◌, ◌<◌, sym, ap, subst, ◌∙◌, true, false, some, List, [], ◌∷◌, arith, take, get_or,
  ◌==◌, if_elim,
}
use vision_flow.Error.{success, queue_shutdown}
use vision_flow.Sync.{
  Returned, Works, FrameResult, result, Outcome, mutex_lock, mutex_unlock, unlocked, done, worked,
}
use vision_flow.Sync.Wait
use vision_flow.Sync.Wait.{
  Wake, woken, failed, Blocking, returned, waiting, after_call, take_or, wait_loop, wait_loop-Fine,
  wait_loop-Ends, Fine-lock, Ends,
}
use vision_flow.BuffPool.{Pool, address, acquire_at}
use vision_flow.BuffPool.Slots.{slot_at}
use vision_flow.BuffPool.Invariant.{IsValid, marked, grab_lem, marked-IsValid}
use vision_flow.BuffPool.Lending.{slot_at-ne-zero}
use vision_flow.BuffPool.Exclusive.{lending_run-IsValid}
use vision_flow.BuffPool.Threads.{Op, run_others, exhausted, take_slot, acquire_blocking_at}

abbrev pub after_wakes : Pool → List (Wake Op) → Pool
after_wakes = Wait.after_wakes run_others

abbrev Fine : Returned → Pool → List (Wake Op) → Blocking Pool → Type 0
Fine = Wait.Fine run_others exhausted (λ q. q.shutdown) take_slot

acquire_blocking_at-Fine :
    (rc : Returned) (p : Pool) (ws : List (Wake Op)) → Fine rc p ws (acquire_blocking_at rc p ws)
unfolding acquire_blocking_at
acquire_blocking_at-Fine rc p ws =
    if_elim (Fine rc p ws) (p.initialized == 0) (λ _ h. ground arith)
      (λ _.
        if_elim (Fine rc p ws) (worked rc mutex_lock)
          (λ _.
            Fine-lock run_others exhausted (λ q. q.shutdown) take_slot mutex_lock rc p ws _
              (wait_loop-Fine run_others exhausted (λ q. q.shutdown) take_slot rc ws p))
          (λ _ h. ground arith))

after_wakes-IsValid : (ws : List (Wake Op)) (p : Pool) → IsValid p → IsValid (after_wakes p ws)
after_wakes-IsValid [] p v = v
after_wakes-IsValid (failed ∷ ws) p v = v
after_wakes-IsValid (woken ops ∷ ws) p v =
    after_wakes-IsValid ws (run_others p ops) (lending_run-IsValid ops p v)

take_slot_lem :
    (rc : Returned) (p : Pool)
    → IsValid p
    → exhausted p ≡ false
    → (i : ℕ) × (i < p.capacity)
      × (get_or p.in_use i 0 ≡ 0)
      × ((take_slot rc p).ret.out ≡ some (slot_at p.place i))
      × ((take_slot rc p).obj ≡ marked p i)
unfolding take_slot
take_slot_lem rc p v e =
    let g = grab_lem v (ground arith) in
    (g.0, g.1, g.2, ap (λ r. some (address r.0)) g.3, ap (λ r. r.1) g.3)

-- A blocking acquire from a valid pool that returns VF_SUCCESS hands out a pointer that is not NULL: a
-- slot that was free after some number of its wakes. The pool that it leaves is the pool of that
-- moment with this slot marked, and it is valid.
pub acquire_blocking-took :
    (rc : Returned) (p : Pool) (ws : List (Wake Op)) (o : Outcome FrameResult Pool)
    → IsValid p
    → acquire_blocking_at rc p ws ≡ returned o
    → o.ret.err ≡ success
    → (k : ℕ) × (i : ℕ) × (let p' = after_wakes p (take k ws) in
        (i < p'.capacity)
        × (get_or p'.in_use i 0 ≡ 0)
        × (slot_at p'.place i ≢ 0)
        × (o.ret.out ≡ some (slot_at p'.place i))
        × (o.obj ≡ marked p' i)
        × IsValid o.obj)
acquire_blocking-took rc p ws o v e ok =
    let t = subst (Fine rc p ws) e (acquire_blocking_at-Fine rc p ws) ok in
    let p' = after_wakes p (take t.0 ws) in
    let valid = after_wakes-IsValid (take t.0 ws) p v in
    let got = take_slot_lem rc p' valid t.1.0 in
    let left : o.obj ≡ marked p' got.0 = t.1.2 ∙ got.4 in
    (
      t.0,
      got.0,
      (
        got.1,
        got.2,
        slot_at-ne-zero got.0 valid,
        ap (λ r. r.out) t.1.1 ∙ got.3,
        left,
        subst IsValid (sym left) (marked-IsValid got.0 valid got.1 got.2),
      ),
    )

-- A blocking acquire that has used up all its wakes and still waits does so on the pool that the calls
-- of those wakes left, with no slot available and not shut down.
pub acquire_blocking-waits :
    (rc : Returned) (p : Pool) (ws : List (Wake Op)) (p' : Pool)
    → acquire_blocking_at rc p ws ≡ waiting p'
    → (p' ≡ after_wakes p ws) × (p'.available ≡ 0) × (p'.shutdown ≡ false)
acquire_blocking-waits rc p ws p' e =
    let t = subst (Fine rc p ws) e (acquire_blocking_at-Fine rc p ws) in (t.0, ground arith, t.2)

-- A valid pool that is shut down while no slot is available ends the wait at once: where lock and
-- unlock succeed, a blocking acquire returns VF_QUEUE_SHUTDOWN with a NULL pointer and without waiting,
-- leaves the pool as it was and gives the mutex back.
pub acquire_blocking-closed :
    (rc : Returned) (p : Pool) (ws : List (Wake Op))
    → IsValid p
    → Works rc
    → p.available ≡ 0
    → p.shutdown ≡ true
    → acquire_blocking_at rc p ws
      ≡ returned (done (result queue_shutdown (some 0)) p (mutex_lock ∷ mutex_unlock ∷ []))
unfolding acquire_blocking_at wait_loop take_or unlocked
acquire_blocking-closed rc p [] v w e o = ground arith
acquire_blocking-closed rc p (woken ops ∷ ws) v w e o = ground arith
acquire_blocking-closed rc p (failed ∷ ws) v w e o = ground arith

-- A blocking acquire from a valid pool with a slot available does not wait, shut down or not: where
-- lock and unlock succeed, it answers as `vf_buf_pool_acquire` does.
pub acquire_blocking-eq-acquire :
    (rc : Returned) (p : Pool) (ws : List (Wake Op))
    → IsValid p
    → Works rc
    → p.available ≢ 0
    → acquire_blocking_at rc p ws ≡ returned (acquire_at rc p)
unfolding acquire_blocking_at wait_loop take_or take_slot acquire_at unlocked
acquire_blocking-eq-acquire rc p [] v w ne = ground arith
acquire_blocking-eq-acquire rc p (woken ops ∷ ws) v w ne = ground arith
acquire_blocking-eq-acquire rc p (failed ∷ ws) v w ne = ground arith
