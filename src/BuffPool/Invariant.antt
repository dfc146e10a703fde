-- ===== src/BuffPool/Invariant.antt =====
-- The invariant of `vf_buf_pool_t`, and what each operation does to a valid pool.
use vision_flow.Base.{
  ℕ, ◌+◌, ◌-◌, ◌%◌, ◌^◌, ◌≤◌, ◌<◌, ◌≡◌, ◌≢◌, ◌∙◌, inl, inr, some, arith, get_or, set, length,
  length-set, Option-cases,
}
use vision_flow.BuffPool.{Pool, grab, give_back}
use vision_flow.BuffPool.Slots.{slot_at, first_free}
use vision_flow.BuffPool.Counting.{
  free_count, first_free-some, first_free-none, free_count-mark, free_count-clear, free_count-le,
}

-- An initialized pool: sixteen marks, a capacity from 1 to 16, `available` free slots among the first
-- `capacity`, and slots of some size at an address that is not NULL.
pub record IsValid (p : Pool) : Type 0 where
  pub ready : p.initialized ≡ 1
  pub storage : length p.in_use ≡ 16
  pub nonempty : 1 ≤ p.capacity
  pub small : p.capacity ≤ 16
  pub counted : p.available ≡ free_count p.capacity p.in_use
  pub sized : 0 < p.place.sizeof
  pub placed : 0 < p.place.base

-- Slot `i` is lent out.
abbrev pub IsLent : Pool → ℕ → Type 0
IsLent p i = get_or p.in_use i 0 ≢ 0

-- The pool with slot `i` marked and one slot fewer available.
abbrev pub marked : Pool → ℕ → Pool
marked p i = record p { in_use = set p.in_use i 1; available = p.available - 1 }

abbrev pub cleared : Pool → ℕ → Pool
cleared p i = record p { in_use = set p.in_use i 0; available = p.available + 1 }

pub grab_lem :
    {p : Pool}
    → IsValid p
    → p.available ≢ 0
    → (i : ℕ) × (i < p.capacity)
      × (get_or p.in_use i 0 ≡ 0)
      × (grab p ≡ (some (slot_at p.place i), marked p i))
unfolding grab
grab_lem {p} v ne = elim (Option-cases (first_free p.capacity p.in_use)) [
  | inl e ↦ absurd (ne (v.counted ∙ first_free-none p.capacity p.in_use (omega arith) e))
  | inr (i, e) ↦
      let found = first_free-some p.capacity p.in_use i e in
      let one_less : (p.available + 2 ^ 32 - 1) % 2 ^ 32 ≡ p.available - 1 =
        omega (arith, free_count-le p.capacity p.in_use) in
      (i, found.0, found.2, rw (e, one_less, grab))
]

pub marked-IsValid :
    {p : Pool} (i : ℕ) → IsValid p → i < p.capacity → get_or p.in_use i 0 ≡ 0 → IsValid (marked p i)
marked-IsValid {p} i v h z = record {
  ready = v.ready;
  storage = length-set p.in_use i 1 ∙ v.storage;
  nonempty = v.nonempty;
  small = v.small;
  counted = omega (arith, free_count-mark p.capacity p.in_use i 1 h (omega arith) z (omega arith));
  sized = v.sized;
  placed = v.placed;
}

pub give_back_lem : {p : Pool} (i : ℕ) → IsValid p → give_back p i ≡ cleared p i
unfolding give_back
give_back_lem {p} i v =
    let one_more : (p.available + 1) % 2 ^ 32 ≡ p.available + 1 =
      omega (arith, free_count-le p.capacity p.in_use) in
    rw one_more

pub cleared-IsValid :
    {p : Pool} (i : ℕ) → IsValid p → i < p.capacity → IsLent p i → IsValid (cleared p i)
cleared-IsValid {p} i v h lent = record {
  ready = v.ready;
  storage = length-set p.in_use i 0 ∙ v.storage;
  nonempty = v.nonempty;
  small = v.small;
  counted = omega (arith, free_count-clear p.capacity p.in_use i h (omega arith) lent);
  sized = v.sized;
  placed = v.placed;
}
