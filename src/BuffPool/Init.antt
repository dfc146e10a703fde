-- ===== src/BuffPool/Init.antt =====
-- `vf_buf_pool_init`: what it leaves, and which thread calls it makes.
use vision_flow.Base.{
  ℕ, zero, suc, ◌≤◌, ◌<◌, ◌≡◌, ◌≢◌, refl, sym, ap, ap₂, subst, ◌∙◌, Option, List, [], ◌∷◌, arith,
  replicate, length,
}
use vision_flow.Error.{success}
use vision_flow.Sync.{Returned, mutex_init, mutex_destroy, cond_init}
use vision_flow.Framebuffer.{Params}
use vision_flow.BuffPool.{Pool, init_at, zeroed}
use vision_flow.BuffPool.Slots.{Memory, alloc_slots}
use vision_flow.BuffPool.Counting.{free_count}
use vision_flow.BuffPool.Invariant.{IsValid}

free_count-replicate : (n m : ℕ) → n ≤ m → free_count n (replicate m 0) ≡ n
free_count-replicate zero m h = refl
free_count-replicate (suc n) zero h = absurd (omega arith)
free_count-replicate (suc n) (suc m) h = omega (arith, free_count-replicate n m (omega arith))

-- The pool that a successful init leaves, but for its framebuffers.
abbrev Ready : Pool → ℕ → Pool → Type 0
Ready p n q =
    (1 ≤ n)
    × (n ≤ 16)
    × (q.capacity ≡ n)
    × (q.available ≡ n)
    × (q.initialized ≡ 1)
    × (q.in_use ≡ replicate 16 0)
    × (q.place ≡ p.place)

init_at-Ready :
    (rc : Returned) (malloc : ℕ → ℕ → Option (List ℕ)) (p : Pool) (params : Params) (n : ℕ)
    → (init_at rc malloc p params n).ret ≡ success
    → Ready p n (init_at rc malloc p params n).obj
unfolding init_at zeroed
init_at-Ready rc malloc p params n ok = ground arith

-- A `vf_buf_pool_init` that succeeds, of a pool at an address that is not NULL, was asked for 1 to 16
-- slots and leaves a valid pool of that capacity with every slot available.
pub pool_init-IsValid :
    (rc : Returned) (malloc : ℕ → ℕ → Option (List ℕ)) (p : Pool) (params : Params) (n : ℕ)
    → 0 < p.place.base
    → 0 < p.place.sizeof
    → (init_at rc malloc p params n).ret ≡ success
    → (1 ≤ n)
      × (n ≤ 16)
      × ((init_at rc malloc p params n).obj.capacity ≡ n)
      × ((init_at rc malloc p params n).obj.available ≡ n)
      × IsValid (init_at rc malloc p params n).obj
pool_init-IsValid rc malloc p params n hb hs ok =
    let r = init_at-Ready rc malloc p params n ok in
    (
      r.0,
      r.1,
      r.2,
      r.3,
      record {
        ready = r.4;
        storage = ap length r.5;
        nonempty = omega (arith, r.0);
        small = omega (arith, r.1);
        counted = r.3 ∙ sym (free_count-replicate n 16 r.1) ∙ sym (ap₂ free_count r.2 r.5);
        sized = subst (λ (m : Memory). 0 < m.sizeof) (sym r.6) hs;
        placed = subst (λ (m : Memory). 0 < m.base) (sym r.6) hb;
      },
    )

-- Where both thread objects could be set up and the allocation of some slot then fails, the init
-- returns that failure and leaves the pool not initialized. It destroys the mutex; the condition
-- variable that it has set up is not destroyed.
pub pool_init_alloc_failure :
    (rc : Returned) (malloc : ℕ → ℕ → Option (List ℕ)) (p : Pool) (params : Params) (n : ℕ)
    → 1 ≤ n
    → n ≤ 16
    → rc mutex_init ≡ 0
    → rc cond_init ≡ 0
    → (alloc_slots malloc params n 0 (zeroed p.place).slots).0 ≢ success
    → ((init_at rc malloc p params n).ret
        ≡ (alloc_slots malloc params n 0 (zeroed p.place).slots).0)
      × ((init_at rc malloc p params n).obj.initialized ≡ 0)
      × ((init_at rc malloc p params n).calls ≡ mutex_init ∷ cond_init ∷ mutex_destroy ∷ [])
unfolding init_at zeroed
pool_init_alloc_failure rc malloc p params n lo hi m c e = ground arith
