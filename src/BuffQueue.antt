-- ===== src/BuffQueue.antt =====
-- service/src/buffer-mgr/vf-buff-queue.c: a circular FIFO of framebuffer pointers under a mutex.
-- A pointer is a number, 0 being NULL; `none` is a NULL queue pointer.
pub mod Invariant
pub mod Contents
pub mod Threads
pub mod Fifo
pub mod Refine
pub mod Blocking
pub mod Wakeups
pub mod Locks
pub mod Api
mod Tests
use vision_flow.Base.{
  ℕ, ◌+◌, ◌-◌, ◌%◌, ◌^◌, Bool, true, false, ◌||◌, Option, none, some, List, [], ◌∷◌, ltb, leb, ◌==◌,
  if◌then◌else◌, get_or, set, replicate,
}
use vision_flow.Error.{VfErr, success, invalid_parameter, oom, sync_error, init_failed, file_err}
use vision_flow.Sync.{
  mutex_init, mutex_destroy, mutex_lock, mutex_unlock, cond_init, cond_destroy, cond_signal,
  cond_broadcast, Returned, worked, FrameResult, Outcome, done, result, unlocked,
}

-- VF_BUF_QUEUE_MAX_CAPACITY.
abbrev pub max_capacity : ℕ
max_capacity = 16

-- `vf_buf_queue_t`, without the mutex and the condition variable.
pub record Queue : Type 0 where
  pub slots : List ℕ
  pub head : ℕ
  pub tail : ℕ
  pub count : ℕ
  pub capacity : ℕ
  pub initialized : ℕ
  pub shutdown : Bool

-- The object after `memset(queue, 0, sizeof(*queue))`.
abbrev pub zeroed : Queue
zeroed = record {
  slots = replicate 16 0;
  head = 0;
  tail = 0;
  count = 0;
  capacity = 0;
  initialized = 0;
  shutdown = false;
}

-- The fields that a successful `vf_buf_queue_init` sets over the zeroed object.
abbrev pub fresh : ℕ → Queue
fresh capacity = record zeroed { capacity = capacity; initialized = 1 }

-- `vf_buf_queue_init` at a queue that is not NULL.
pub init_at : Returned → Queue → ℕ → Outcome VfErr Queue
init_at rc q capacity =
    if (capacity == 0) || ltb max_capacity capacity
    then done invalid_parameter q []
    else if worked rc mutex_init
    then if worked rc cond_init
      then done success (fresh capacity) (mutex_init ∷ cond_init ∷ [])
      else done sync_error zeroed (mutex_init ∷ cond_init ∷ mutex_destroy ∷ [])
    else done sync_error zeroed (mutex_init ∷ [])

-- The writes of a push: slot, tail and count.
pub put : Queue → ℕ → Queue
put q fb = record q {
  slots = set q.slots q.tail fb;
  tail = ((q.tail + 1) % 2 ^ 32) % q.capacity;
  count = (q.count + 1) % 2 ^ 32;
}

-- `vf_buf_queue_push` at a queue that is not NULL.
pub push_at : Returned → Queue → ℕ → Outcome VfErr Queue
push_at rc q fb =
    if fb == 0
    then done invalid_parameter q []
    else if q.initialized == 0
    then done init_failed q []
    else if worked rc mutex_lock
    then if leb q.capacity q.count
      then done (unlocked rc oom) q (mutex_lock ∷ mutex_unlock ∷ [])
      else done (unlocked rc success) (put q fb) (mutex_lock ∷ cond_signal ∷ mutex_unlock ∷ [])
    else done sync_error q (mutex_lock ∷ [])

-- The writes of a pop: the slot is cleared, head and count move. The frame is `slots[head]`.
pub drop_head : Queue → Queue
drop_head q = record q {
  slots = set q.slots q.head 0;
  head = ((q.head + 1) % 2 ^ 32) % q.capacity;
  count = (q.count + 2 ^ 32 - 1) % 2 ^ 32;
}

abbrev pub front : Queue → ℕ
front q = get_or q.slots q.head 0

-- `vf_buf_queue_pop` at a queue and an `out_fb` that are not NULL.
pub pop_at : Returned → Queue → Outcome FrameResult Queue
pop_at rc q =
    if q.initialized == 0
    then done (result init_failed none) q []
    else if worked rc mutex_lock
    then if q.count == 0
      then done (result (unlocked rc file_err) (some 0)) q (mutex_lock ∷ mutex_unlock ∷ [])
      else done (result (unlocked rc success) (some (front q))) (drop_head q)
          (mutex_lock ∷ mutex_unlock ∷ [])
    else done (result sync_error (some 0)) q (mutex_lock ∷ [])

-- `vf_buf_queue_shutdown` at a queue that is not NULL.
pub shutdown_at : Returned → Queue → Outcome (Unit {0}) Queue
shutdown_at rc q =
    if worked rc mutex_lock
    then done tt (record q { shutdown = true }) (mutex_lock ∷ cond_broadcast ∷ mutex_unlock ∷ [])
    else done tt q (mutex_lock ∷ [])

-- `vf_buf_queue_reset` at a queue that is not NULL: it takes no lock.
pub reset_at : Queue → Queue
reset_at q = record q { shutdown = false }

-- `vf_buf_queue_deinit` at a queue that is not NULL.
pub deinit_at : Returned → Queue → Outcome (Unit {0}) Queue
deinit_at rc q =
    if q.initialized == 0
    then done tt q []
    else if worked rc mutex_destroy
    then done tt zeroed (mutex_destroy ∷ cond_destroy ∷ [])
    else done tt q (mutex_destroy ∷ [])

-- `vf_buf_queue_count` at a queue that is not NULL: it reads on after a failed lock.
pub count_at : Returned → Queue → Outcome ℕ Queue
count_at rc q =
    if q.initialized == 0 then done 0 q [] else done q.count q (mutex_lock ∷ mutex_unlock ∷ [])

-- `vf_buf_queue_is_full` at a queue that is not NULL: a failed lock gives VF_SYNC_ERROR, that is 3.
pub is_full_at : Returned → Queue → Outcome ℕ Queue
is_full_at rc q =
    if q.initialized == 0
    then done 0 q []
    else if worked rc mutex_lock
    then done (if leb q.capacity q.count then 1 else 0) q (mutex_lock ∷ mutex_unlock ∷ [])
    else done 3 q (mutex_lock ∷ [])

-- `vf_buf_queue_is_empty` at a queue that is not NULL: it reads on after a failed lock.
pub is_empty_at : Returned → Queue → Outcome ℕ Queue
is_empty_at rc q =
    if q.initialized == 0
    then done 1 q []
    else done (if q.count == 0 then 1 else 0) q (mutex_lock ∷ mutex_unlock ∷ [])
