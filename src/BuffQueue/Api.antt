-- ===== src/BuffQueue/Api.antt =====
-- The public functions of vf-buff-queue.h at any pointers: `none` is a NULL queue, and the flag of a
-- pop says whether `out_fb` is given.
use vision_flow.Base.{ℕ, Bool, Option, none, some, List, [], if◌then◌else◌}
use vision_flow.Error.{VfErr, invalid_parameter}
use vision_flow.Sync.{Returned, FrameResult, result, Outcome, done}
use vision_flow.Sync.Wait.{Wake, returned, waiting}
use vision_flow.BuffQueue.{
  Queue, init_at, push_at, pop_at, shutdown_at, reset_at, deinit_at, count_at, is_full_at,
  is_empty_at,
}
use vision_flow.BuffQueue.Threads.{Op, pop_blocking_at}

-- The NULL check in front of an operation.
abbrev pub checked :
    {A : Type 0} → A → (Queue → Outcome A Queue) → Option Queue → Outcome A (Option Queue)
checked a f none = done a none []
checked a f (some q) = let o = f q in done o.ret (some o.obj) o.calls

pub init : Returned → Option Queue → ℕ → Outcome VfErr (Option Queue)
init rc q capacity = checked invalid_parameter (λ p. init_at rc p capacity) q

pub push : Returned → Option Queue → ℕ → Outcome VfErr (Option Queue)
push rc q fb = checked invalid_parameter (λ p. push_at rc p fb) q

pub pop : Returned → Option Queue → Bool → Outcome FrameResult (Option Queue)
pop rc q given =
    if given
    then checked (result invalid_parameter none) (pop_at rc) q
    else done (result invalid_parameter none) q []

-- `none` is a pop that still waits.
pub pop_blocking :
    Returned → Option Queue → Bool → List (Wake Op) → Option (Outcome FrameResult (Option Queue))
pop_blocking rc none given ws = some (done (result invalid_parameter none) none [])
pop_blocking rc (some q) given ws =
    if given
    then elim (pop_blocking_at rc q ws) [
      | returned o ↦ some (done o.ret (some o.obj) o.calls)
      | waiting _ ↦ none
    ]
    else some (done (result invalid_parameter none) (some q) [])

pub shutdown : Returned → Option Queue → Outcome (Unit {0}) (Option Queue)
shutdown rc = checked tt (shutdown_at rc)

pub reset : Option Queue → Outcome (Unit {0}) (Option Queue)
reset = checked tt (λ p. done tt (reset_at p) [])

pub deinit : Returned → Option Queue → Outcome (Unit {0}) (Option Queue)
deinit rc = checked tt (deinit_at rc)

pub count : Returned → Option Queue → Outcome ℕ (Option Queue)
count rc = checked 0 (count_at rc)

pub is_full : Returned → Option Queue → Outcome ℕ (Option Queue)
is_full rc = checked 0 (is_full_at rc)

pub is_empty : Returned → Option Queue → Outcome ℕ (Option Queue)
is_empty rc = checked 1 (is_empty_at rc)
