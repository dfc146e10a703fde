-- ===== src/BuffPool/Slots.antt =====
-- The loops of vf-buff-pool.c over the slots.
use vision_flow.Base.{
  ℕ, zero, suc, ◌+◌, ◌*◌, Option, none, some, List, [], ◌∷◌, ◌==◌, if◌then◌else◌, get_or, set,
}
use vision_flow.Error.{VfErr, success}
use vision_flow.Framebuffer
use vision_flow.Framebuffer.{Framebuffer, Params}

-- Where the array `slots` lies: its address, and `sizeof(vf_framebuffer_t)`, which the compiler sets.
pub record Memory : Type 0 where
  pub base : ℕ
  pub sizeof : ℕ

-- `&pool->slots[i]`.
unfoldable pub slot_at : Memory → ℕ → ℕ
slot_at m i = m.base + i * m.sizeof

-- The index of the first entry that is 0 among the first `n`.
unfoldable pub first_free : ℕ → List ℕ → Option ℕ
first_free zero used = none
first_free (suc n) [] = none
first_free (suc n) (u ∷ used) =
    if u == 0 then some 0 else elim (first_free n used) [ none ↦ none | some i ↦ some (suc i) ]

-- The loop of `vf_buf_pool_release`: the index, from `i` on, of the slot at address `fb`.
unfoldable pub find_slot : Memory → ℕ → ℕ → ℕ → Option ℕ
find_slot m zero i fb = none
find_slot m (suc n) i fb =
    let rest = find_slot m n (i + 1) fb in if fb == slot_at m i then some i else rest

-- The clean-up loop of `vf_buf_pool_init`: the slots below `i` are freed.
unfoldable pub free_slots : ℕ → List Framebuffer → List Framebuffer
free_slots zero slots = slots
free_slots (suc i) slots =
    free_slots i (set slots i (Framebuffer.free (get_or slots i Framebuffer.zeroed)))

-- The allocation loop of `vf_buf_pool_init`, from slot `i` on for `n` rounds. A failure frees what was
-- allocated and ends the loop. `malloc i` answers the allocation of slot `i`.
unfoldable pub alloc_slots :
    (ℕ → ℕ → Option (List ℕ)) → Params → ℕ → ℕ → List Framebuffer → VfErr × List Framebuffer
alloc_slots malloc p zero i slots = (success, slots)
alloc_slots malloc p (suc n) i slots =
    let r = Framebuffer.alloc (malloc i) (get_or slots i Framebuffer.zeroed) p in
    let rest = alloc_slots malloc p n (i + 1) (set slots i r.1) in
    elim r.0 [ success ↦ rest | e ↦ (e, free_slots i (set slots i r.1)) ]
