-- ===== src/Sync/Wait.antt =====
-- The wait loop that vf_buf_queue_pop_blocking and vf_buf_pool_acquire_blocking share: under the
-- mutex, `while (nothing there) { if (shutdown) ...; pthread_cond_wait(...); }`, then take and unlock.
-- The wait gives the mutex up: the calls that other threads make meanwhile are part of each wake.
use vision_flow.Base.{
  ℕ, suc, ◌+◌, ◌≡◌, refl, Bool, true, false, some, List, [], ◌∷◌, arith, take, if_elim,
  if◌then◌else◌,
}
use vision_flow.Error.{success, sync_error, queue_shutdown}
use vision_flow.Sync.{
  SyncCall, mutex_unlock, cond_wait, Returned, FrameResult, result, Outcome, done, unlocked, locks,
  unlocks,
}

-- How one `pthread_cond_wait` ends: woken, after calls of other threads, or with an error.
pub data Wake (Op : Type 0) : Type 0 where
  woken : List Op → Wake Op
  failed : Wake Op

-- How a blocking call ends, or that it still waits when no further wake comes.
pub data Blocking (S : Type 0) : Type 0 where
  returned : Outcome FrameResult S → Blocking S
  waiting : S → Blocking S

abbrev pub after_call : {S : Type 0} → SyncCall → Blocking S → Blocking S
after_call c (returned o) = returned (record o { calls = c ∷ o.calls })
after_call c (waiting s) = waiting s

-- The object after the calls of all these wakes.
abbrev pub after_wakes : {Op S : Type 0} → (S → List Op → S) → S → List (Wake Op) → S
after_wakes run s [] = s
after_wakes run s (woken ops ∷ ws) = after_wakes run (run s ops) ws
after_wakes run s (failed ∷ ws) = s

-- `run` is what calls of other threads do, `nothing` the loop's test, `shut` the shutdown flag, and
-- `take_one` what follows the loop.
module _ {Op S : Type 0} (run : S → List Op → S) (nothing shut : S → Bool)
    (take_one : Returned → S → Outcome FrameResult S) where
  -- One test of the loop, which goes on with `rest`.
  unfoldable pub take_or : Returned → S → Blocking S → Blocking S
  take_or rc s rest =
      if nothing s
      then if shut s
        then returned (done (result (unlocked rc queue_shutdown) (some 0)) s (mutex_unlock ∷ []))
        else rest
      else returned (take_one rc s)

  unfoldable pub wait_loop : Returned → S → List (Wake Op) → Blocking S
  wait_loop rc s [] = take_or rc s (waiting s)
  wait_loop rc s (failed ∷ ws) =
      take_or rc s (returned (done (result sync_error (some 0)) s (cond_wait ∷ mutex_unlock ∷ [])))
  wait_loop rc s (woken ops ∷ ws) =
      take_or rc s (after_call cond_wait (wait_loop rc (run s ops) ws))

  -- What the loop guarantees of its result.
  abbrev pub Fine : Returned → S → List (Wake Op) → Blocking S → Type 0
  Fine rc s ws (returned o) =
      o.ret.err ≡ success
      → (k : ℕ) × (let s' = after_wakes run s (take k ws) in
          (nothing s' ≡ false) × (o.ret ≡ (take_one rc s').ret) × (o.obj ≡ (take_one rc s').obj))
  Fine rc s ws (waiting s') = (s' ≡ after_wakes run s ws) × (nothing s' ≡ true) × (shut s' ≡ false)

  Fine-after_call :
      (rc : Returned) (s : S) (ops : List Op) (ws : List (Wake Op)) (b : Blocking S)
      → Fine rc (run s ops) ws b
      → Fine rc s (woken ops ∷ ws) (after_call cond_wait b)
  Fine-after_call rc s ops ws (returned o) f = λ e. let t = f e in (suc t.0, t.1)
  Fine-after_call rc s ops ws (waiting s') f = f

  Fine-take_or :
      (rc : Returned) (s : S) (ws : List (Wake Op)) (rest : Blocking S)
      → (nothing s ≡ true → shut s ≡ false → Fine rc s ws rest)
      → Fine rc s ws (take_or rc s rest)
  unfolding take_or
  Fine-take_or rc s ws rest go =
      if_elim (Fine rc s ws) (nothing s)
        (λ e. if_elim (Fine rc s ws) (shut s) (λ _ h. absurd (closed h)) (λ o. go e o))
        (λ e _. (0, (e, refl, refl)))
    where
      closed : unlocked rc queue_shutdown ≡ success → ⊥
      closed h = unfold unlocked in ground arith

  pub wait_loop-Fine :
      (rc : Returned) (ws : List (Wake Op)) (s : S) → Fine rc s ws (wait_loop rc s ws)
  unfolding wait_loop
  wait_loop-Fine rc [] s = Fine-take_or rc s [] _ (λ e o. (refl, e, o))
  wait_loop-Fine rc (failed ∷ ws) s = Fine-take_or rc s (failed ∷ ws) _ (λ e o h. ground arith)
  wait_loop-Fine rc (woken ops ∷ ws) s =
      Fine-take_or rc s (woken ops ∷ ws) _
        (λ e o. Fine-after_call rc s ops ws _ (wait_loop-Fine rc ws (run s ops)))

  pub Fine-lock :
      (c : SyncCall) (rc : Returned) (s : S) (ws : List (Wake Op)) (b : Blocking S)
      → Fine rc s ws b
      → Fine rc s ws (after_call c b)
  Fine-lock c rc s ws (returned o) f = f
  Fine-lock c rc s ws (waiting s') f = f

-- The loop is entered with the mutex held once and gives it back.
abbrev pub Ends : {S : Type 0} → Blocking S → Type 0
Ends (returned o) = locks o.calls + 1 ≡ unlocks o.calls
Ends (waiting s) = Unit {0}

Ends-cond_wait : {S : Type 0} (b : Blocking S) → Ends b → Ends (after_call cond_wait b)
Ends-cond_wait (returned o) h = h
Ends-cond_wait (waiting q) h = tt

module _ {Op S : Type 0} (run : S → List Op → S) (nothing shut : S → Bool)
    (take_one : Returned → S → Outcome FrameResult S)
    (takes : (rc : Returned) (s : S) → (take_one rc s).calls ≡ mutex_unlock ∷ []) where
  Ends-take_or :
      (rc : Returned) (s : S) (b : Blocking S)
      → Ends b
      → Ends (take_or run nothing shut take_one rc s b)
  unfolding take_or
  Ends-take_or rc s b h =
      if_elim Ends (nothing s) (λ _. if_elim Ends (shut s) (λ _. omega arith) (λ _. h))
        (λ _. rw (takes rc s) (omega arith))

  pub wait_loop-Ends :
      (rc : Returned) (ws : List (Wake Op)) (s : S)
      → Ends (wait_loop run nothing shut take_one rc s ws)
  unfolding wait_loop
  wait_loop-Ends rc [] s = Ends-take_or rc s _ tt
  wait_loop-Ends rc (failed ∷ ws) s = Ends-take_or rc s _ (omega arith)
  wait_loop-Ends rc (woken ops ∷ ws) s =
      Ends-take_or rc s _ (Ends-cond_wait _ (wait_loop-Ends rc ws (run s ops)))
