-- ===== src/BuffQueue/Tests.antt =====
-- Runs of the queue, and its theorems at concrete inputs.
use vision_flow.Base.{
  ℕ, ◌≡◌, ◌≢◌, refl, true, false, some, none, List, [], ◌∷◌, arith, take, replicate,
}
use vision_flow.Error.{success, oom}
use vision_flow.Sync.{
  Returned, all_ok, FrameResult, Outcome, mutex_lock, mutex_unlock, cond_wait, unlocked, result,
}
use vision_flow.Sync.Wait.{Wake, woken, returned, wait_loop, take_or}
use vision_flow.BuffQueue.{Queue, fresh, push_at, pop_at, put, drop_head, shutdown_at}
use vision_flow.BuffQueue.Invariant.{IsValid, fresh-IsValid}
use vision_flow.BuffQueue.Contents.{contents, NoNull}
use vision_flow.BuffQueue.Threads.{
  Op, pushes, pops, shuts_down, run, step, take_front, pop_blocking_at,
}
use vision_flow.BuffQueue.Refine.{view, run-IsValid, run_refines, run-NoNull}
use vision_flow.BuffQueue.Fifo
use vision_flow.BuffQueue.Blocking.{after_wakes, pop_blocking-took}
use vision_flow.BuffQueue.Wakeups.{Told, no_lost_wakeup}

-- Frames 8 and 9 in a queue of three, round the end.
abbrev wrapped : Queue
wrapped = record {
  slots = 9 ∷ 0 ∷ 8 ∷ replicate 13 0;
  head = 2;
  tail = 1;
  count = 2;
  capacity = 3;
  initialized = 1;
  shutdown = false;
}

abbrev closed_queue : Queue
closed_queue = record (fresh 3) { shutdown = true }

abbrev unlock_fails : Returned
unlock_fails mutex_unlock = 1
unlock_fails _ = 0

abbrev script : List Op
script = pushes all_ok 5 ∷ pushes all_ok 6 ∷ pops all_ok ∷ shuts_down all_ok ∷ pops all_ok ∷ []

contents-wrapped : contents wrapped ≡ 8 ∷ 9 ∷ []
contents-wrapped = refl

run-wrapped :
    (run wrapped script).0
    ≡ result success none
      ∷ result oom none
      ∷ result success (some 8)
      ∷ result success none
      ∷ result success (some 9)
      ∷ []
unfolding run step push_at pop_at put drop_head unlocked shutdown_at
run-wrapped = refl

wrapped-IsValid : IsValid wrapped
wrapped-IsValid = omega arith

run-IsValid_example : IsValid (run wrapped script).1
run-IsValid_example = run-IsValid script wrapped-IsValid

run_refines_example :
    ((run wrapped script).0, view (run wrapped script).1) ≡ Fifo.run (view wrapped) script
run_refines_example = run_refines script wrapped-IsValid (omega arith)

run-NoNull_example : NoNull (contents (run wrapped script).1)
run-NoNull_example = run-NoNull script wrapped-IsValid (omega arith)

-- A pop that waits for another thread's push, on a queue of three.
abbrev wakes : List (Wake Op)
wakes = woken [] ∷ woken (pushes all_ok 7 ∷ pushes all_ok 4 ∷ []) ∷ []

abbrev after_wait : Outcome FrameResult Queue
after_wait = record {
  ret = result success (some 7);
  obj = drop_head (put (put (fresh 3) 7) 4);
  calls = mutex_lock ∷ cond_wait ∷ cond_wait ∷ mutex_unlock ∷ [];
}

after_wait_lem : pop_blocking_at all_ok (fresh 3) wakes ≡ returned after_wait
unfolding pop_blocking_at wait_loop take_or take_front unlocked run step push_at put drop_head
after_wait_lem = refl

fresh_three : IsValid (fresh 3)
fresh_three = fresh-IsValid 3 (omega arith) (omega arith)

pop_blocking-took_example :
    (k : ℕ) × (fb : ℕ) × (fb ≢ 0)
    × (after_wait.ret.out ≡ some fb)
    × (contents (after_wakes (fresh 3) (take k wakes)) ≡ fb ∷ contents after_wait.obj)
    × IsValid after_wait.obj
pop_blocking-took_example =
    pop_blocking-took all_ok (fresh 3) wakes after_wait fresh_three tt after_wait_lem refl

no_lost_wakeup_example : Told all_ok (fresh 3) (pushes all_ok 7 ∷ pushes all_ok 4 ∷ []) []
no_lost_wakeup_example =
    no_lost_wakeup all_ok (fresh 3) (pushes all_ok 7 ∷ pushes all_ok 4 ∷ []) [] fresh_three
      (refl, refl) refl refl
