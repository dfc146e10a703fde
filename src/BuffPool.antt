-- ===== src/BuffPool.antt =====
-- service/src/buffer-mgr/vf-buff-pool.c: up to sixteen framebuffers that are allocated once and lent
-- out under a mutex. `Slots` has the loops over the slots, `Threads` the blocking call.
pub mod Slots
pub mod Counting
pub mod Invariant
pub mod Lending
pub mod Threads
pub mod Exclusive
pub mod Blocking
pub mod Init
mod Tests
use vision_flow.Base.{
  ℕ, suc, ◌+◌, ◌-◌, ◌*◌, ◌%◌, ◌^◌, Bool, true, false, ◌||◌, Option, none, some, List, [], ◌∷◌, ◌++◌,
  ltb, leb, ◌==◌, if◌then◌else◌, get_or, set, replicate,
}
use vision_flow.Error.{VfErr, success, invalid_parameter, oom, sync_error, init_failed}
use vision_flow.Sync.{
  SyncCall, mutex_init, mutex_destroy, mutex_lock, mutex_unlock, cond_init, cond_destroy,
  cond_signal, cond_broadcast, Returned, worked, FrameResult, Outcome, done, result, unlocked,
}
use vision_flow.Framebuffer
use vision_flow.Framebuffer.{Framebuffer, Params}
use Slots.{first_free, find_slot, slot_at, Memory, alloc_slots, free_slots}

-- VF_BUF_POOL_MAX_SLOTS.
abbrev pub max_slots : ℕ
max_slots = 16

-- `vf_buf_pool_t`, without the mutex and the condition variable. `place` is where the slots lie.
pub record Pool : Type 0 where
  pub place : Memory
  pub slots : List Framebuffer
  pub in_use : List ℕ
  pub capacity : ℕ
  pub available : ℕ
  pub initialized : ℕ
  pub shutdown : Bool

-- The object after `memset(pool, 0, sizeof(*pool))`.
unfoldable pub zeroed : Memory → Pool
zeroed place = record {
  place = place;
  slots = replicate 16 Framebuffer.zeroed;
  in_use = replicate 16 0;
  capacity = 0;
  available = 0;
  initialized = 0;
  shutdown = false;
}

-- `vf_buf_pool_init` at pointers that are not NULL. `malloc` answers the allocation of each slot.
unfoldable pub init_at :
    Returned → (ℕ → ℕ → Option (List ℕ)) → Pool → Params → ℕ → Outcome VfErr Pool
init_at rc malloc pool params slot_count =
    let empty = zeroed pool.place in
    let filled = alloc_slots malloc params slot_count 0 empty.slots in
    let begun = record empty { slots = filled.1 } in
    let ready = record begun { capacity = slot_count; available = slot_count; initialized = 1 } in
    if slot_count == 0 || ltb max_slots slot_count
    then done invalid_parameter pool []
    else if worked rc mutex_init
    then if worked rc cond_init
      then elim filled.0 [
        | success ↦ done success ready (mutex_init ∷ cond_init ∷ [])
        | e ↦ done e begun (mutex_init ∷ cond_init ∷ mutex_destroy ∷ [])
      ]
      else done sync_error empty (mutex_init ∷ cond_init ∷ mutex_destroy ∷ [])
    else done sync_error empty (mutex_init ∷ [])

-- The search loop that both acquires run under the mutex: the first free slot is marked, and its
-- address is what `*out_fb` then holds. Without a free slot nothing changes.
unfoldable pub grab : Pool → Option ℕ × Pool
grab p = elim (first_free p.capacity p.in_use) [
  | none ↦ (none, p)
  | some i ↦ (
    some (slot_at p.place i),
    record p { in_use = set p.in_use i 1; available = (p.available + 2 ^ 32 - 1) % 2 ^ 32 },
  )
]

-- `*out_fb` after the search, NULL being 0.
abbrev pub address : Option ℕ → ℕ
address none = 0
address (some a) = a

-- `vf_buf_pool_acquire` at pointers that are not NULL.
unfoldable pub acquire_at : Returned → Pool → Outcome FrameResult Pool
acquire_at rc p =
    if p.initialized == 0
    then done (result init_failed none) p []
    else if worked rc mutex_lock
    then if p.available == 0
      then done (result (unlocked rc oom) (some 0)) p (mutex_lock ∷ mutex_unlock ∷ [])
      else done (result (unlocked rc success) (some (address (grab p).0))) (grab p).1
          (mutex_lock ∷ mutex_unlock ∷ [])
    else done (result sync_error (some 0)) p (mutex_lock ∷ [])

-- The writes of a release of slot `i`.
unfoldable pub give_back : Pool → ℕ → Pool
give_back p i = record p { in_use = set p.in_use i 0; available = (p.available + 1) % 2 ^ 32 }

-- The part of `vf_buf_pool_release` behind its search, by what the search found. A slot that is free
-- already stays so, and the call still succeeds.
unfoldable pub release_found : Returned → Pool → Option ℕ → Outcome VfErr Pool
release_found rc p none = done (unlocked rc invalid_parameter) p (mutex_lock ∷ mutex_unlock ∷ [])
release_found rc p (some i) =
    if get_or p.in_use i 0 == 0
    then done (unlocked rc success) p (mutex_lock ∷ mutex_unlock ∷ [])
    else done (unlocked rc success) (give_back p i) (mutex_lock ∷ cond_signal ∷ mutex_unlock ∷ [])

-- `vf_buf_pool_release` at pointers that are not NULL.
unfoldable pub release_at : Returned → Pool → ℕ → Outcome VfErr Pool
unfolding release_found
release_at rc p fb =
    if fb == 0
    then done invalid_parameter p []
    else if p.initialized == 0
    then done init_failed p []
    else if worked rc mutex_lock
    then release_found rc p (find_slot p.place p.capacity 0 fb)
    else done sync_error p (mutex_lock ∷ [])

-- `vf_buf_pool_shutdown` at a pool that is not NULL.
unfoldable pub shutdown_at : Returned → Pool → Outcome (Unit {0}) Pool
shutdown_at rc p =
    if worked rc mutex_lock
    then done tt (record p { shutdown = true }) (mutex_lock ∷ cond_broadcast ∷ mutex_unlock ∷ [])
    else done tt p (mutex_lock ∷ [])

-- `vf_buf_pool_reset` at a pool that is not NULL: it takes no lock.
unfoldable pub reset_at : Pool → Pool
reset_at p = record p { shutdown = false }

-- `vf_buf_pool_deinit` at a pool that is not NULL: the slots are freed, and then all is zeroed.
unfoldable pub deinit_at : Pool → Outcome (Unit {0}) Pool
deinit_at p =
    if p.initialized == 0
    then done tt p []
    else done tt (zeroed p.place) (mutex_destroy ∷ cond_destroy ∷ [])

-- `vf_buf_pool_available` at a pool that is not NULL: a failed lock or unlock gives VF_SYNC_ERROR,
-- that is 3.
unfoldable pub available_at : Returned → Pool → Outcome ℕ Pool
available_at rc p =
    if p.initialized == 0
    then done 0 p []
    else if worked rc mutex_lock
    then done (if worked rc mutex_unlock then p.available else 3) p (mutex_lock ∷ mutex_unlock ∷ [])
    else done 3 p (mutex_lock ∷ [])
