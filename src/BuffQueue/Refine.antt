-- ===== src/BuffQueue/Refine.antt =====
-- The queue against its specification, a bounded list of frames.
use vision_flow.Base.{
  sym, subst, ℕ, ◌<◌, ◌≡◌, ◌≢◌, refl, List, [], ◌∷◌, ◌++◌, none, some, arith, ◌==◌, Bool-cases, inl,
  inr,
}
use vision_flow.Error.{success, sync_error, file_err, oom}
use vision_flow.Sync.{
  Returned, Works, mutex_lock, mutex_unlock, cond_signal, result, unlocked, done,
}
use vision_flow.BuffQueue.{Queue, push_at, pop_at, shutdown_at, reset_at, put, drop_head, front}
use vision_flow.BuffQueue.Invariant.{
  IsValid, push-IsValid, pop-IsValid, shutdown-IsValid, reset-IsValid,
}
use vision_flow.BuffQueue.Contents.{
  contents, contents-put, contents-drop_head, length-contents, NoNull, NoNull-append,
}
use vision_flow.BuffQueue.Threads
use vision_flow.BuffQueue.Threads.{Op, pushes, pops, shuts_down, resets}
use vision_flow.BuffQueue.Fifo
use vision_flow.BuffQueue.Fifo.{Fifo}

abbrev pub view : Queue → Fifo
view q = record { frames = contents q; bound = q.capacity; closed = q.shutdown }

abbrev pub OpWorks : Op → Type 0
OpWorks (pushes rc fb) = Works rc
OpWorks (pops rc) = Works rc
OpWorks (shuts_down rc) = Works rc
OpWorks resets = Unit {0}

abbrev pub AllWork : List Op → Type 0
AllWork [] = Unit {0}
AllWork (op ∷ ops) = OpWorks op × AllWork ops

-- A push and a pop leave the capacity and the shutdown flag.
view-put :
    {q : Queue} (fb : ℕ)
    → IsValid q
    → q.count < q.capacity
    → view (put q fb) ≡ record (view q) { frames = contents q ++ (fb ∷ []) }
unfolding put
view-put {q} fb v room =
    λ i. record { frames = contents-put fb v room i; bound = q.capacity; closed = q.shutdown }

push_refines :
    (rc : Returned) {q : Queue} (fb : ℕ)
    → IsValid q
    → Works rc
    → (result (push_at rc q fb).ret none, view (push_at rc q fb).obj) ≡ Fifo.offer (view q) fb
unfolding push_at Fifo.offer unlocked
push_refines rc {q} fb v w = ground (arith, length-contents q, view-put fb v)

poll-cons :
    (f : Fifo) (x : ℕ) (xs : List ℕ)
    → f.frames ≡ x ∷ xs
    → Fifo.poll f ≡ (result success (some x), record f { frames = xs })
unfolding Fifo.poll
poll-cons f x xs e = ground arith

poll-nil : (f : Fifo) → f.frames ≡ [] → Fifo.poll f ≡ (result file_err (some 0), f)
unfolding Fifo.poll
poll-nil f e = ground arith

view-drop_head :
    {q : Queue}
    → IsValid q
    → q.count ≢ 0
    → Fifo.poll (view q) ≡ (result success (some (front q)), view (drop_head q))
unfolding drop_head
view-drop_head {q} v some_left =
    poll-cons (view q) (front q) (contents (drop_head q)) (contents-drop_head v some_left)

pop_refines :
    (rc : Returned) {q : Queue}
    → IsValid q
    → Works rc
    → ((pop_at rc q).ret, view (pop_at rc q).obj) ≡ Fifo.poll (view q)
unfolding pop_at unlocked
pop_refines rc {q} v w = elim (Bool-cases (q.count == 0)) [
  | inl none_left ↦ ground (arith, poll-nil (view q), length-contents q)
  | inr some_left ↦ let h : q.count ≢ 0 = ground arith in ground (arith, view-drop_head v h)
]

-- One call on a valid queue answers as the bounded list does, and leaves the queue holding the
-- list's new state.
step_refines :
    {q : Queue} (op : Op)
    → IsValid q
    → OpWorks op
    → ((Threads.step q op).0, view (Threads.step q op).1) ≡ Fifo.step (view q) op
unfolding Threads.step Fifo.step
step_refines (pushes rc fb) v w = push_refines rc fb v w
step_refines (pops rc) v w = pop_refines rc v w
step_refines (shuts_down rc) v w = unfold shutdown_at in ground arith
step_refines resets v w = unfold reset_at in refl

pub step-IsValid : {q : Queue} (op : Op) → IsValid q → IsValid (Threads.step q op).1
unfolding Threads.step
step-IsValid (pushes rc fb) v = push-IsValid rc v fb
step-IsValid (pops rc) v = pop-IsValid rc v
step-IsValid (shuts_down rc) v = shutdown-IsValid rc v
step-IsValid resets v = reset-IsValid v

-- Any calls on a valid queue leave a valid queue, whatever the thread calls return.
pub run-IsValid : (ops : List Op) {q : Queue} → IsValid q → IsValid (Threads.run q ops).1
unfolding Threads.run
run-IsValid [] v = v
run-IsValid (op ∷ ops) v = run-IsValid ops (step-IsValid op v)

-- Whatever calls the threads make on a valid queue, in whatever order the mutex lets them in, if the
-- locks and unlocks succeed then every answer is that of the bounded first-in first-out list of the
-- frames held, and the queue ends up holding that list's frames, with its bound and its closed flag.
pub run_refines :
    (ops : List Op) {q : Queue}
    → IsValid q
    → AllWork ops
    → ((Threads.run q ops).0, view (Threads.run q ops).1) ≡ Fifo.run (view q) ops
unfolding Threads.run Fifo.run
run_refines [] v w = refl
run_refines (op ∷ ops) {q} v w =
    rw (← step_refines op v w.0, ← run_refines ops (step-IsValid op v) w.1)

put-NoNull :
    {q : Queue} (fb : ℕ)
    → IsValid q
    → q.count < q.capacity
    → fb ≢ 0
    → NoNull (contents q)
    → NoNull (contents (put q fb))
put-NoNull {q} fb v room ne h =
    subst NoNull (sym (contents-put fb v room)) (NoNull-append (contents q) fb h ne)

drop_head-NoNull :
    {q : Queue} → IsValid q → q.count ≢ 0 → NoNull (contents q) → NoNull (contents (drop_head q))
drop_head-NoNull v ne h = (subst NoNull (contents-drop_head v ne) h).1

pub step-NoNull :
    {q : Queue} (op : Op)
    → IsValid q
    → NoNull (contents q)
    → NoNull (contents (Threads.step q op).1)
unfolding Threads.step push_at pop_at shutdown_at reset_at
step-NoNull (pushes rc fb) v h = ground (arith, put-NoNull fb v)
step-NoNull (pops rc) v h = ground (arith, drop_head-NoNull v)
step-NoNull (shuts_down rc) v h = ground arith
step-NoNull resets v h = h

-- A valid queue that holds no NULL pointer holds none after any calls, whatever the thread calls
-- return.
pub run-NoNull :
    (ops : List Op) {q : Queue}
    → IsValid q
    → NoNull (contents q)
    → NoNull (contents (Threads.run q ops).1)
unfolding Threads.run
run-NoNull [] v h = h
run-NoNull (op ∷ ops) v h = run-NoNull ops (step-IsValid op v) (step-NoNull op v h)

-- A push into a valid queue with room, whose lock succeeds and whose unlock fails, reports
-- VF_SYNC_ERROR and still leaves the frame in the queue, behind the others.
pub push-sync_error :
    (rc : Returned) {q : Queue} (fb : ℕ)
    → IsValid q
    → rc mutex_lock ≡ 0
    → rc mutex_unlock ≢ 0
    → fb ≢ 0
    → q.count < q.capacity
    → ((push_at rc q fb).ret ≡ sync_error)
      × (contents (push_at rc q fb).obj ≡ contents q ++ (fb ∷ []))
unfolding push_at unlocked
push-sync_error rc {q} fb v l u ne room = (ground arith, ground (arith, contents-put fb v room))

-- The calls where lock and unlock succeed, on a valid queue.
pub push_success :
    (rc : Returned) {q : Queue} (fb : ℕ)
    → IsValid q
    → Works rc
    → fb ≢ 0
    → q.count < q.capacity
    → push_at rc q fb ≡ done success (put q fb) (mutex_lock ∷ cond_signal ∷ mutex_unlock ∷ [])
unfolding push_at unlocked
push_success rc {q} fb v w ne room = ground arith

pub push_full :
    (rc : Returned) {q : Queue} (fb : ℕ)
    → IsValid q
    → Works rc
    → fb ≢ 0
    → q.count ≡ q.capacity
    → push_at rc q fb ≡ done oom q (mutex_lock ∷ mutex_unlock ∷ [])
unfolding push_at unlocked
push_full rc {q} fb v w ne full = ground arith

pub pop_success :
    (rc : Returned) {q : Queue}
    → IsValid q
    → Works rc
    → q.count ≢ 0
    → pop_at rc q
      ≡ done (result success (some (front q))) (drop_head q) (mutex_lock ∷ mutex_unlock ∷ [])
unfolding pop_at unlocked
pop_success rc {q} v w ne = ground arith
