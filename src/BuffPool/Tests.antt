-- ===== src/BuffPool/Tests.antt =====
-- Runs of the pool, and its theorems at concrete inputs.
use vision_flow.Base.{
  ℕ, zero, suc, ◌<◌, ◌≡◌, ◌≢◌, refl, true, false, some, none, Option, List, [], ◌∷◌, arith, take,
  replicate, get_or,
}
use vision_flow.Error.{success, oom, raw8, fmt_eq}
use vision_flow.Sync.{
  all_ok, FrameResult, Outcome, mutex_lock, mutex_unlock, cond_wait, unlocked, result,
}
use vision_flow.Sync.Wait.{Wake, woken, returned, waiting, wait_loop, take_or}
use vision_flow.Framebuffer
use vision_flow.Framebuffer.{Params}
use vision_flow.Framebuffer.Format.{bpp}
use vision_flow.BuffPool.{Pool, zeroed, init_at, grab, give_back, release_at}
use vision_flow.BuffPool.Slots.{Memory, slot_at, first_free, find_slot, alloc_slots}
use vision_flow.BuffPool.Invariant.{IsValid, IsLent, marked}
use vision_flow.BuffPool.Threads.{Op, acquires, releases, step, run, take_slot, acquire_blocking_at}
use vision_flow.BuffPool.Exclusive.{Keeps, NotAmong, IsLent-exclusive}
use vision_flow.BuffPool.Blocking.{after_wakes, acquire_blocking-took}

abbrev place : Memory
place = record { base = 4096; sizeof = 168 }

-- Two slots, the first lent.
abbrev half_used : Pool
half_used = record {
  place = place;
  slots = replicate 16 Framebuffer.zeroed;
  in_use = 1 ∷ 0 ∷ replicate 14 0;
  capacity = 2;
  available = 1;
  initialized = 1;
  shutdown = false;
}

abbrev used_up : Pool
used_up = marked half_used 1

abbrev params : Params
params = record { width = 4; height = 2; format = raw8 }

-- The second allocation fails.
malloc_once : ℕ → ℕ → Option (List ℕ)
malloc_once zero n = some (replicate n 7)
malloc_once (suc i) n = none

malloc_ok : ℕ → ℕ → Option (List ℕ)
malloc_ok i n = some (replicate n 7)

init_works : (init_at all_ok malloc_ok (zeroed place) params 2).ret ≡ success
unfolding init_at zeroed alloc_slots Framebuffer.alloc Framebuffer.alloc_data
    Framebuffer.init_planes Framebuffer.init_planes_for Framebuffer.init_planes_packed
    Framebuffer.plane_of Framebuffer.align16 malloc_ok bpp fmt_eq
init_works = refl

runs_out : (alloc_slots malloc_once params 2 0 (zeroed place).slots).0 ≡ oom
unfolding zeroed alloc_slots Framebuffer.alloc Framebuffer.alloc_data Framebuffer.init_planes
    Framebuffer.init_planes_for Framebuffer.init_planes_packed Framebuffer.plane_of
    Framebuffer.align16 malloc_once bpp fmt_eq
runs_out = refl

half_used-IsValid : IsValid half_used
half_used-IsValid = omega arith

used_up-IsValid : IsValid used_up
used_up-IsValid = omega arith

not_a_slot : (i : ℕ) → i < 2 → 4100 ≢ slot_at place i
unfolding slot_at
not_a_slot i h = omega arith

-- The second slot is lent and given back; the first stays out.
script : List Op
script = acquires all_ok ∷ releases all_ok (slot_at place 1) ∷ acquires all_ok ∷ []

script-Keeps : Keeps (slot_at place 0) script
unfolding script slot_at
script-Keeps = omega arith

IsLent-exclusive_example :
    NotAmong (slot_at place 0) (run half_used script).0 × IsLent (run half_used script).1 0
IsLent-exclusive_example =
    IsLent-exclusive script half_used 0 half_used-IsValid (omega arith) script-Keeps

-- A blocking acquire that waits for a release.
abbrev wakes : List (Wake Op)
wakes = woken (releases all_ok 4264 ∷ []) ∷ []

abbrev after_wait : Outcome FrameResult Pool
after_wait = record {
  ret = result success (some 4264);
  obj = used_up;
  calls = mutex_lock ∷ cond_wait ∷ mutex_unlock ∷ [];
}

after_wait_lem : acquire_blocking_at all_ok used_up wakes ≡ returned after_wait
unfolding acquire_blocking_at wait_loop take_or take_slot unlocked run step release_at find_slot
    slot_at give_back grab first_free
after_wait_lem = refl

acquire_blocking-took_example :
    (k : ℕ) × (i : ℕ) × (let p' = after_wakes used_up (take k wakes) in
      (i < p'.capacity)
      × (get_or p'.in_use i 0 ≡ 0)
      × (slot_at p'.place i ≢ 0)
      × (after_wait.ret.out ≡ some (slot_at p'.place i))
      × (after_wait.obj ≡ marked p' i)
      × IsValid after_wait.obj)
acquire_blocking-took_example =
    acquire_blocking-took all_ok used_up wakes after_wait used_up-IsValid after_wait_lem refl

still_waits : acquire_blocking_at all_ok used_up (woken [] ∷ []) ≡ waiting used_up
unfolding acquire_blocking_at wait_loop take_or run
still_waits = refl

abbrev closed_pool : Pool
closed_pool = record used_up { shutdown = true }

closed_pool-IsValid : IsValid closed_pool
closed_pool-IsValid = omega arith
