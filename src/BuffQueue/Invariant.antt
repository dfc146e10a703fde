-- ===== src/BuffQueue/Invariant.antt =====
-- The representation invariant of `vf_buf_queue_t`, and the operations that keep it.
use native.Mathlib.Nat.{mod-eq_of_lt, mod-add-mod}
use vision_flow.Base.{ℕ, ◌+◌, ◌-◌, ◌%◌, ◌^◌, ◌≤◌, ◌<◌, ◌≡◌, ◌≢◌, ◌∙◌, ap, arith, length, length-set}
use vision_flow.Error.{success}
use vision_flow.Sync.{Returned}
use vision_flow.BuffQueue.{
  Queue, fresh, init_at, put, push_at, drop_head, pop_at, shutdown_at, reset_at,
}

-- An initialized queue: the sixteen slots, indices inside the capacity, and the tail `count`
-- places behind the head.
pub record IsValid (q : Queue) : Type 0 where
  pub ready : q.initialized ≡ 1
  pub storage : length q.slots ≡ 16
  pub nonempty : 1 ≤ q.capacity
  pub small : q.capacity ≤ 16
  pub head_in : q.head < q.capacity
  pub count_in : q.count ≤ q.capacity
  pub tail_at : q.tail ≡ (q.head + q.count) % q.capacity

pub fresh-IsValid : (c : ℕ) → 1 ≤ c → c ≤ 16 → IsValid (fresh c)
fresh-IsValid c h k = ground arith

-- `vf_buf_queue_init` that succeeds was given a capacity from 1 to 16 and leaves a valid, empty,
-- open queue of that capacity.
pub init-IsValid :
    (rc : Returned) (q : Queue) (c : ℕ)
    → (init_at rc q c).ret ≡ success
    → (1 ≤ c) × (c ≤ 16) × ((init_at rc q c).obj ≡ fresh c) × IsValid (init_at rc q c).obj
unfolding init_at
init-IsValid rc q c h = ground arith

-- Where an index goes: one place on, round the capacity, with no wrap of the 32-bit sum.
pub index_step : (h n c : ℕ) → c ≤ 16 → n < c → (((h + n) % c + 1) % 2 ^ 32) % c ≡ (h + (n + 1)) % c
index_step h n c p q =
    let small : (h + n) % c + 1 < 2 ^ 32 = omega arith in
    rw (mod-eq_of_lt small, mod-add-mod) (ap (λ k. k % c) (omega arith))

pub put-IsValid : {q : Queue} (fb : ℕ) → IsValid q → q.count < q.capacity → IsValid (put q fb)
unfolding put
put-IsValid {q} fb v room = record {
  ready = v.ready;
  storage = length-set q.slots q.tail fb ∙ v.storage;
  nonempty = v.nonempty;
  small = v.small;
  head_in = v.head_in;
  count_in = omega arith;
  tail_at =
      let count_fits : (q.count + 1) % 2 ^ 32 ≡ q.count + 1 = omega arith in
      rw (v.tail_at, count_fits) (index_step q.head q.count q.capacity v.small room);
}

pub drop_head-IsValid : {q : Queue} → IsValid q → q.count ≢ 0 → IsValid (drop_head q)
unfolding drop_head
drop_head-IsValid {q} v some_left = record {
  ready = v.ready;
  storage = length-set q.slots q.head 0 ∙ v.storage;
  nonempty = v.nonempty;
  small = v.small;
  head_in = omega arith;
  count_in = omega arith;
  tail_at =
      let one_on : (q.head + 1) % 2 ^ 32 ≡ q.head + 1 = omega arith in
      let one_less : (q.count + 2 ^ 32 - 1) % 2 ^ 32 ≡ q.count - 1 = omega arith in
      rw (v.tail_at, one_on, one_less, mod-add-mod) (ap (λ k. k % q.capacity) (omega arith));
}

module _ (rc : Returned) {q : Queue} (v : IsValid q) where
  -- `vf_buf_queue_push` keeps the invariant, whatever the thread calls return.
  pub push-IsValid : (fb : ℕ) → IsValid (push_at rc q fb).obj
  unfolding push_at
  push-IsValid fb = ground (arith, put-IsValid fb v)

  -- `vf_buf_queue_pop` keeps the invariant, whatever the thread calls return.
  pub pop-IsValid : IsValid (pop_at rc q).obj
  unfolding pop_at
  pop-IsValid = ground (arith, drop_head-IsValid v)

  pub shutdown-IsValid : IsValid (shutdown_at rc q).obj
  unfolding shutdown_at
  shutdown-IsValid = ground arith

pub reset-IsValid : {q : Queue} → IsValid q → IsValid (reset_at q)
unfolding reset_at
reset-IsValid v = ground arith

-- A push writes and a pop reads inside the sixteen slots.
pub in_bounds : {q : Queue} → IsValid q → (q.tail < length q.slots) × (q.head < length q.slots)
in_bounds v = omega arith
