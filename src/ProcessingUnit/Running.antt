-- ===== src/ProcessingUnit/Running.antt =====
-- One run of a unit, and the loop of its thread.
use vision_flow.Base.{
  ◌+◌, ◌%◌, ◌^◌, ◌≡◌, ◌≢◌, ◌↔◌, ◌⊎◌, inl, inr, refl, Bool, true, not, List, [], ◌∷◌, arith, if_elim,
  ◌==◌, Bool-cases,
}
use vision_flow.Error.{VfErr, success, queue_shutdown, is_success, code}
use vision_flow.ProcessingUnit.{
  ProcessingUnit, Stats, Clock, Ran, run_at, tally, call_or_skip, Turn, Thread, stopped, in_loop,
  next, thread_fn, Operations,
}

-- The total of the statistics is the sum of the totals of the three stages, modulo 2^64.
abbrev pub IsConsistent : Stats → Type 0
IsConsistent s =
    s.total_ms ≡ (s.total_get_data_ms + s.total_process_data_ms + s.total_send_data_ms) % 2 ^ 64

tally-IsConsistent :
    {W : Type 0} (ops : Operations W) (t : Clock) (s : Stats)
    → IsConsistent s
    → IsConsistent (tally ops t s)
unfolding tally
tally-IsConsistent ops t s h = omega (arith, h)

-- A run keeps the statistics consistent, whatever its callbacks do and whatever the clock shows: the
-- total time is the sum of the times of the three stages.
pub run-IsConsistent :
    {W : Type 0} (t : Clock) (u : ProcessingUnit W) (w : W)
    → IsConsistent u.stats
    → IsConsistent (run_at t u w).unit.stats
unfolding run_at
run-IsConsistent {W} t u w h =
    let g = call_or_skip u.operations.get_data w in
    let p = call_or_skip u.operations.process_data g.1 in
    let s = call_or_skip u.operations.send_data p.1 in
    if_elim Keeps (u.initialized == 0) (λ _. h)
      (λ _.
        if_elim Keeps (not (is_success g.0)) (λ _. h)
          (λ _.
            if_elim Keeps (not (is_success p.0)) (λ _. h)
              (λ _.
                if_elim Keeps (not (is_success s.0)) (λ _. h)
                  (λ _. tally-IsConsistent u.operations t u.stats h))))
  where
    Keeps : Ran W → Type 0
    Keeps r = IsConsistent r.unit.stats

abbrev pub IsInLoop : {W : Type 0} → Thread W → Type 0
IsInLoop (stopped u w) = ⊥
IsInLoop (in_loop u w) = Unit {0}

-- The turns through which a thread goes on: each finds the flag set, and its run either succeeds, or
-- fails with something other than VF_QUEUE_SHUTDOWN while the flag is still set.
pub Lives : {W : Type 0} → List (Turn W) → ProcessingUnit W → W → Type 0
Lives [] u w = Unit {0}
Lives (t ∷ ts) u w =
    let r = run_at t.clock u (t.others w) in
    (t.go ≡ true)
    × ((r.ret ≡ success) ⊎ ((r.ret ≢ success) × (r.ret ≢ queue_shutdown) × (t.still ≡ true)))
    × Lives ts r.unit r.world

next_lem :
    {W : Type 0} (e : VfErr) (still : Bool) (u : ProcessingUnit W) (w : W) (rest : Thread W)
    → IsInLoop (next e still (stopped u w) rest)
      ↔ (((e ≡ success) ⊎ ((e ≢ success) × (e ≢ queue_shutdown) × (still ≡ true))) × IsInLoop rest)
unfolding next code
next_lem e still u w rest = ground arith

-- A thread is still in its loop after a sequence of turns exactly when each turn found the running
-- flag set, no run returned VF_QUEUE_SHUTDOWN, and after every other failure the flag was still set.
-- In all other cases it has left the loop.
pub thread_fn-Lives :
    {W : Type 0} (ts : List (Turn W)) (u : ProcessingUnit W) (w : W)
    → IsInLoop (thread_fn ts u w) ↔ Lives ts u w
unfolding thread_fn Lives
thread_fn-Lives [] u w = (λ h. h, λ h. h)
thread_fn-Lives {W} (t ∷ ts) u w =
    let r = run_at t.clock u (t.others w) in
    let rest = thread_fn-Lives ts r.unit r.world in
    let turn = next_lem r.ret t.still r.unit r.world (thread_fn ts r.unit r.world) in
    elim (Bool-cases t.go) [
      | inl e ↦
          rw e (λ h. let x = turn.0 h in (refl, x.0, rest.0 x.1), λ l. turn.1 (l.1, rest.1 l.2))
      | inr e ↦ rw e (λ h. absurd h, λ l. cc)
    ]
