-- ===== src/BuffPool/Lending.antt =====
-- What an acquire and a release do to a valid pool, on every branch.
use vision_flow.Base.{
  ℕ, zero, suc, ◌+◌, ◌-◌, ◌≤◌, ◌<◌, ◌≡◌, ◌≢◌, refl, sym, ap, ◌∙◌, inl, inr, true, false, some, List,
  [], ◌∷◌, arith, ◌==◌, if◌then◌else◌, get_or, set, length, get_or-set_self, Option-cases,
}
use vision_flow.Error.{success, invalid_parameter, oom}
use vision_flow.Sync.{
  Returned, Works, done, result, unlocked, worked, mutex_lock, mutex_unlock, cond_signal,
}
use vision_flow.BuffPool.{Pool, acquire_at, release_at}
use vision_flow.BuffPool.Slots.{slot_at, find_slot}
use vision_flow.BuffPool.Counting.{free_count, find_slot-some, find_slot-slot_at}
use vision_flow.BuffPool.Invariant.{
  IsValid, IsLent, marked, cleared, grab_lem, give_back_lem, marked-IsValid,
}

pub slot_at-ne-zero : {p : Pool} (i : ℕ) → IsValid p → slot_at p.place i ≢ 0
unfolding slot_at
slot_at-ne-zero i v = omega arith

-- Where lock and unlock succeed, an acquire from a valid pool with a slot available succeeds. The
-- pointer that it hands out is not NULL and is a slot of the pool that was not lent, and the pool
-- differs only in that this slot is marked and one slot fewer is available.
pub acquire_success :
    (rc : Returned) (p : Pool)
    → IsValid p
    → Works rc
    → p.available ≢ 0
    → (i : ℕ) × (i < p.capacity)
      × (get_or p.in_use i 0 ≡ 0)
      × (slot_at p.place i ≢ 0)
      × (acquire_at rc p
          ≡ done
              (result success (some (slot_at p.place i)))
              (marked p i)
              (mutex_lock ∷ mutex_unlock ∷ []))
unfolding acquire_at unlocked
acquire_success rc p v w ne =
    let g = grab_lem v ne in
    let ready : (p.initialized == 0) ≡ false = ground arith in
    let left : (p.available == 0) ≡ false = ground arith in
    let lock : worked rc mutex_lock ≡ true = ground arith in
    let unlock : worked rc mutex_unlock ≡ true = ground arith in
    (g.0, g.1, g.2, slot_at-ne-zero g.0 v, rw (ready, lock, left, unlock, g.3))

all_lent_of_zero :
    (n : ℕ) (us : List ℕ) (i : ℕ) → n ≤ length us → free_count n us ≡ 0 → i < n → get_or us i 0 ≢ 0
all_lent_of_zero zero us i h z k = absurd (omega arith)
all_lent_of_zero (suc n) [] i h z k = absurd (omega arith)
all_lent_of_zero (suc n) (u ∷ us) zero h z k = ground arith
all_lent_of_zero (suc n) (u ∷ us) (suc i) h z k =
    all_lent_of_zero n us i (omega arith) (ground arith) (omega arith)

-- Where lock and unlock succeed, an acquire from a valid pool with nothing available returns VF_OOM
-- with a NULL pointer and changes nothing, and every slot of the pool is in fact lent.
pub acquire_exhausted :
    (rc : Returned) (p : Pool)
    → IsValid p
    → Works rc
    → p.available ≡ 0
    → (acquire_at rc p ≡ done (result oom (some 0)) p (mutex_lock ∷ mutex_unlock ∷ []))
      × ((i : ℕ) → i < p.capacity → IsLent p i)
unfolding acquire_at unlocked
acquire_exhausted rc p v w z = (
  ground arith,
  λ i h. all_lent_of_zero p.capacity p.in_use i (omega arith) (sym v.counted ∙ z) h,
)

-- A release of a slot of the pool goes by that slot's mark.
release_slot :
    (rc : Returned) (p : Pool) (i : ℕ)
    → IsValid p
    → Works rc
    → i < p.capacity
    → release_at rc p (slot_at p.place i) ≡ (
        if get_or p.in_use i 0 == 0
        then done success p (mutex_lock ∷ mutex_unlock ∷ [])
        else done success (cleared p i) (mutex_lock ∷ cond_signal ∷ mutex_unlock ∷ []))
unfolding release_at unlocked
release_slot rc p i v w h =
    let ready : (p.initialized == 0) ≡ false = ground arith in
    let given : (slot_at p.place i == 0) ≡ false = ground (arith, slot_at-ne-zero i v) in
    let lock : worked rc mutex_lock ≡ true = ground arith in
    let unlock : worked rc mutex_unlock ≡ true = ground arith in
    let found = find_slot-slot_at p.place p.capacity 0 i v.sized (omega arith) (omega arith) in
    rw (given, ready, lock, found, unlock, give_back_lem i v)

-- Where lock and unlock succeed, a release of a lent slot of a valid pool clears its mark, makes one
-- slot more available and wakes a waiter, and changes nothing else.
pub release_lent :
    (rc : Returned) (p : Pool) (i : ℕ)
    → IsValid p
    → Works rc
    → i < p.capacity
    → IsLent p i
    → release_at rc p (slot_at p.place i)
      ≡ done success (cleared p i) (mutex_lock ∷ cond_signal ∷ mutex_unlock ∷ [])
release_lent rc p i v w h lent =
    let held : (get_or p.in_use i 0 == 0) ≡ false = ground arith in
    rw (release_slot rc p i v w h, held)

-- Where lock and unlock succeed, a pointer that is no slot of a valid pool is refused with VF_INVALID_PARAMETER, and nothing changes.
pub release_foreign :
    (rc : Returned) (p : Pool) (fb : ℕ)
    → IsValid p
    → Works rc
    → ((i : ℕ) → i < p.capacity → fb ≢ slot_at p.place i)
    → ((release_at rc p fb).ret ≡ invalid_parameter) × ((release_at rc p fb).obj ≡ p)
unfolding release_at unlocked
release_foreign rc p fb v w foreign = elim (Option-cases (find_slot p.place p.capacity 0 fb)) [
  | inl e ↦ (ground arith, ground arith)
  | inr (i, e) ↦
      let at = find_slot-some p.place p.capacity 0 fb i e in
      absurd (foreign i (omega (arith, at.1)) at.2)
]

set_back : (us : List ℕ) (i : ℕ) → get_or us i 0 ≡ 0 → set (set us i 1) i 0 ≡ us
set_back [] i e = refl
set_back (u ∷ us) zero e = ap (λ x. x ∷ us) (sym e)
set_back (u ∷ us) (suc i) e = ap (◌∷◌ u) (set_back us i e)

-- The slot that an acquire took goes back: the pool is what it was.
pub release_marked :
    (rc : Returned) (p : Pool) (i : ℕ)
    → IsValid p
    → Works rc
    → p.available ≢ 0
    → i < p.capacity
    → get_or p.in_use i 0 ≡ 0
    → (release_at rc (marked p i) (slot_at p.place i)).obj ≡ p
release_marked rc p i v works ne h free =
    let lent : IsLent (marked p i) i =
      rw (get_or-set_self p.in_use i 1 0 (omega arith)) (omega arith) in
    let same : p.available - 1 + 1 ≡ p.available = omega arith in
    ap (λ o. o.obj) (release_lent rc (marked p i) i (marked-IsValid i v h free) works h lent)
    ∙ (λ k. record p { in_use = set_back p.in_use i free k; available = same k })

-- Where lock and unlock succeed, a pointer that is acquired from a valid pool and then released brings
-- the pool back to where it was.
pub release-acquire :
    (rc rc' : Returned) (p : Pool)
    → IsValid p
    → Works rc
    → Works rc'
    → p.available ≢ 0
    → (fb : ℕ) × ((acquire_at rc p).ret ≡ result success (some fb))
      × ((release_at rc' (acquire_at rc p).obj fb).ret ≡ success)
      × ((release_at rc' (acquire_at rc p).obj fb).obj ≡ p)
release-acquire rc rc' p v w w' ne =
    let a = acquire_success rc p v w ne in
    let i = a.0 in
    let lent : IsLent (marked p i) i =
      rw (get_or-set_self p.in_use i 1 0 (omega (arith, a.1))) (omega arith) in
    let back = release_lent rc' (marked p i) i (marked-IsValid i v a.1 a.2) w' a.1 lent in
    (
      slot_at p.place i,
      ap (λ o. o.ret) a.4,
      ap (λ o. (release_at rc' o.obj (slot_at p.place i)).ret) a.4 ∙ ap (λ o. o.ret) back,
      ap (λ o. (release_at rc' o.obj (slot_at p.place i)).obj) a.4
          ∙ release_marked rc' p i v w' ne a.1 a.2,
    )
