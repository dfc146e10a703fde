-- ===== src/Sync.antt =====
-- The POSIX thread calls that the buffer manager makes. They are not part of the repository: what
-- each call returns is an argument of an operation, and the calls that an operation made are part
-- of its result, in order.
pub mod Wait
use vision_flow.Base.{ℕ, ◌+◌, Bool, Option, List, [], ◌∷◌, ◌≡◌, ◌==◌, if◌then◌else◌}
use vision_flow.Error.{VfErr, sync_error}

pub data SyncCall : Type 0 where
  mutex_init mutex_destroy mutex_lock mutex_unlock : SyncCall
  cond_init cond_destroy cond_wait cond_signal cond_broadcast : SyncCall

-- What each call returns in one operation: 0 is EOK, anything else an error number.
abbrev pub Returned : Type 0
Returned = SyncCall → ℕ

-- Every call succeeds.
abbrev pub all_ok : Returned
all_ok c = 0

abbrev pub worked : Returned → SyncCall → Bool
worked rc c = rc c == 0

-- An operation's result: what it returns, the object afterwards, and the calls it made.
pub record Outcome (A S : Type 0) : Type 0 where
  pub ret : A
  pub obj : S
  pub calls : List SyncCall

abbrev pub done : {A S : Type 0} → A → S → List SyncCall → Outcome A S
done a s cs = record { ret = a; obj = s; calls = cs }

-- What a call that hands out a frame returns, and what `*out_fb` holds afterwards: `none` if it was
-- not written.
pub record FrameResult : Type 0 where
  pub err : VfErr
  pub out : Option ℕ

abbrev pub result : VfErr → Option ℕ → FrameResult
result e o = record { err = e; out = o }

-- The unlock at the end of a path: its failure replaces the result by VF_SYNC_ERROR.
unfoldable pub unlocked : Returned → VfErr → VfErr
unlocked rc e = if worked rc mutex_unlock then e else sync_error

-- How many locks the calls leave held, an attempted unlock counting as an unlock.
abbrev pub locks : List SyncCall → ℕ
locks [] = 0
locks (mutex_lock ∷ cs) = locks cs + 1
locks (_ ∷ cs) = locks cs

abbrev pub unlocks : List SyncCall → ℕ
unlocks [] = 0
unlocks (mutex_unlock ∷ cs) = unlocks cs + 1
unlocks (_ ∷ cs) = unlocks cs

-- The lock and the unlock succeed. A signal or a broadcast may fail.
abbrev pub Works : Returned → Type 0
Works rc = (rc mutex_lock ≡ 0) × (rc mutex_unlock ≡ 0)
