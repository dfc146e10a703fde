-- ===== src/BuffQueue/Contents.antt =====
-- The frames that a queue holds, oldest first, and what a push and a pop do to them.
use native.Mathlib.Nat.{mod-eq_of_lt, mod-add-mod, mod-eq-sub-mod}
use native.Mathlib.Decide.{dec_lt}
use vision_flow.Base.{
  ℕ, zero, suc, ◌+◌, ◌-◌, ◌%◌, ◌^◌, ◌≤◌, ◌<◌, ◌≡◌, refl, sym, ap, ap₂, ◌∙◌, ◌≢◌, List, [], ◌∷◌,
  ◌++◌, arith, get_or, set, length, get_or-set_self, get_or-set_ne,
}
use vision_flow.BuffQueue.{Queue, put, drop_head, front}
use vision_flow.BuffQueue.Invariant.{IsValid}

-- The `n` slots from `h` on, round at `c`.
abbrev pub ring : List ℕ → ℕ → ℕ → ℕ → List ℕ
ring slots c h zero = []
ring slots c h (suc n) = get_or slots h 0 ∷ ring slots c ((h + 1) % c) n

abbrev pub contents : Queue → List ℕ
contents q = ring q.slots q.capacity q.head q.count

pub length-ring : (slots : List ℕ) (c h n : ℕ) → length (ring slots c h n) ≡ n
length-ring slots c h zero = refl
length-ring slots c h (suc n) = ap suc (length-ring slots c ((h + 1) % c) n)

-- Round a ring of `c` places one is back at the start after `c` steps, not before.
not_back : (c h k : ℕ) → h < c → 0 < k → k < c → (h + k) % c ≢ h
not_back c h k hh pos hk = elim (dec_lt (h + k) c) [
  | yes p ↦ rw (mod-eq_of_lt p) (omega arith)
  | no p ↦
      let less : h + k - c < c = omega arith in
      rw (mod-eq-sub-mod {n = h + k} {m = c} (omega arith), mod-eq_of_lt less) (omega arith)
]

-- A write to a slot that the ring does not reach leaves what it reads.
ring-set_outside :
    (slots : List ℕ) (c h n d x : ℕ)
    → h < c
    → 0 < d
    → d + n ≤ c
    → ring (set slots h x) c ((h + d) % c) n ≡ ring slots c ((h + d) % c) n
ring-set_outside slots c h zero d x hh pos fit = refl
ring-set_outside slots c h (suc n) d x hh pos fit =
    ap₂ ◌∷◌
      (get_or-set_ne slots h ((h + d) % c) x 0 (λ e. not_back c h d hh pos (omega arith) (sym e)))
      (rw next (ring-set_outside slots c h n (d + 1) x hh (omega arith) (omega arith)))
  where
    next : ((h + d) % c + 1) % c ≡ (h + (d + 1)) % c
    next = rw mod-add-mod (ap (λ k. k % c) (omega arith))

-- A write just behind the ring makes it one longer.
ring-set_end :
    (slots : List ℕ) (c h n t x : ℕ)
    → c ≤ length slots
    → h < c
    → n < c
    → t ≡ (h + n) % c
    → ring (set slots t x) c h (suc n) ≡ ring slots c h n ++ (x ∷ [])
ring-set_end slots c h zero t x room hh hn e =
    let here : t ≡ h = omega (arith, mod-eq_of_lt {n = h + 0} {m = c} (omega arith)) in
    rw (here, get_or-set_self slots h x 0 (omega arith))
ring-set_end slots c h (suc n) t x room hh hn e =
    ap₂ ◌∷◌ (get_or-set_ne slots t h x 0 (rw e (not_back c h (suc n) hh (omega arith) hn)))
      (ring-set_end slots c ((h + 1) % c) n t x room (omega arith) (omega arith) (e ∙ next))
  where
    next : (h + suc n) % c ≡ ((h + 1) % c + n) % c
    next = rw mod-add-mod (ap (λ k. k % c) (omega arith))

-- The first of the ring may be overwritten once it has been read.
ring-set_start :
    (slots : List ℕ) (c h n x : ℕ)
    → h < c
    → n ≤ c
    → n ≢ 0
    → ring slots c h n ≡ get_or slots h 0 ∷ ring (set slots h x) c ((h + 1) % c) (n - 1)
ring-set_start slots c h zero x hh fit pos = absurd (pos refl)
ring-set_start slots c h (suc n) x hh fit pos =
    let same : suc n - 1 ≡ n = omega arith in
    rw same (
      ap (λ t. get_or slots h 0 ∷ t)
        (sym (ring-set_outside slots c h n 1 x hh (omega arith) (omega arith))))

pub contents-put :
    {q : Queue} (fb : ℕ)
    → IsValid q
    → q.count < q.capacity
    → contents (put q fb) ≡ contents q ++ (fb ∷ [])
unfolding put
contents-put {q} fb v room =
    let one_more : (q.count + 1) % 2 ^ 32 ≡ suc q.count = omega arith in
    rw one_more (
      ring-set_end q.slots q.capacity q.head q.count q.tail fb (omega arith) v.head_in room
        v.tail_at)

pub contents-drop_head :
    {q : Queue} → IsValid q → q.count ≢ 0 → contents q ≡ front q ∷ contents (drop_head q)
unfolding drop_head
contents-drop_head {q} v some_left =
    let one_on : (q.head + 1) % 2 ^ 32 ≡ q.head + 1 = omega arith in
    let one_less : (q.count + 2 ^ 32 - 1) % 2 ^ 32 ≡ q.count - 1 = omega arith in
    rw (one_on, one_less)
      (ring-set_start q.slots q.capacity q.head q.count 0 v.head_in v.count_in some_left)

-- `count` is the number of frames held.
pub length-contents : (q : Queue) → length (contents q) ≡ q.count
length-contents q = length-ring q.slots q.capacity q.head q.count

-- No entry is a NULL pointer.
abbrev pub NoNull : List ℕ → Type 0
NoNull [] = Unit {0}
NoNull (x ∷ xs) = (x ≢ 0) × NoNull xs

pub NoNull-append : (xs : List ℕ) (x : ℕ) → NoNull xs → x ≢ 0 → NoNull (xs ++ (x ∷ []))
NoNull-append [] x h p = (p, tt)
NoNull-append (y ∷ xs) x h p = (h.0, NoNull-append xs x h.1 p)
