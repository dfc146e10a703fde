-- ===== src/Notifier/Invariant.antt =====
-- The subscriber table: its invariant, and what it lists.
use vision_flow.Base.{
  ℕ, ◌≢◌, ◌⊎◌, inl, inr, ==_iff, false, suc, ◌+◌, ◌≤◌, ◌<◌, ◌≡◌, refl, List, [], ◌∷◌, ◌++◌, arith,
  length, take, set, length-set, if_elim, zero, ap, ◌%◌, ◌^◌, ◌==◌, leb, not,
}
use vision_flow.Sync.{Returned, Outcome, worked, mutex_init, mutex_lock}
use vision_flow.Error.{VfErr, success, sync_error}
use vision_flow.Notifier.{
  Notifier, Subscriber, init_at, subscribe_at, add, bidirectional, deinit_at, is_mode, is_receiver,
  max_subscribers,
}

pub record IsValid (n : Notifier) : Type 0 where
  pub table : length n.subscribers ≡ 8
  pub bounded : n.subscriber_count ≤ 8

-- The subscriptions, in the order they were made.
abbrev pub listed : Notifier → List Subscriber
listed n = take n.subscriber_count n.subscribers

take-set :
    {A : Type 0} (xs : List A) (i : ℕ) (v : A)
    → i < length xs
    → take (suc i) (set xs i v) ≡ take i xs ++ (v ∷ [])
take-set [] i v h = elim h [ ]
take-set (x ∷ xs) zero v h = refl
take-set (x ∷ xs) (suc i) v h = ap (λ t. x ∷ t) (take-set xs i v (omega arith))

pub listed-add :
    (n : Notifier) (s : Subscriber)
    → IsValid n
    → n.subscriber_count < 8
    → listed (add n s) ≡ listed n ++ (s ∷ [])
unfolding add
listed-add n s v h =
    let count : (n.subscriber_count + 1) % 2 ^ 32 ≡ suc n.subscriber_count = omega arith in
    rw (count, take-set n.subscribers n.subscriber_count s (omega (arith, v.table))) refl

pub add-IsValid :
    (n : Notifier) (s : Subscriber) → IsValid n → n.subscriber_count < 8 → IsValid (add n s)
unfolding add
add-IsValid n s v h = record {
  table = omega (arith, v.table, length-set n.subscribers n.subscriber_count s);
  bounded = omega arith;
}

abbrev Kept : Outcome VfErr Notifier → Type 0
Kept o = IsValid o.obj

-- Whatever the POSIX calls return and whatever the arguments, a subscription keeps a valid notifier
-- valid: its table has eight entries and its count is at most 8.
pub subscribe-IsValid :
    (rc : Returned) (n : Notifier) (s : Subscriber) → IsValid n → IsValid (subscribe_at rc n s).obj
unfolding subscribe_at
subscribe-IsValid rc n s v =
    if_elim Kept (s.cb == 0) (λ _. v)
      (λ _.
        if_elim Kept (n.initialized == 0) (λ _. v)
          (λ _.
            if_elim Kept (not (is_receiver n.mode)) (λ _. v)
              (λ _.
                if_elim Kept (worked rc mutex_lock)
                  (λ _.
                    if_elim Kept (leb max_subscribers n.subscriber_count) (λ _. v)
                      (λ e. add-IsValid n s v (ground arith)))
                  (λ _. v))))

-- What `vf_notifier_init` as bidirectional leaves behind.
pub init-bidirectional :
    (rc : Returned) (n : Notifier) (id : List ℕ)
    → (((init_at rc n id bidirectional).ret ≡ success)
        × ((init_at rc n id bidirectional).obj.initialized ≡ 1)
        × ((init_at rc n id bidirectional).obj.mode ≡ bidirectional))
      ⊎ (((init_at rc n id bidirectional).ret ≡ sync_error)
          × ((init_at rc n id bidirectional).obj.initialized ≡ 0)
          × (rc mutex_init ≢ 0))
unfolding init_at is_mode
init-bidirectional rc n id =
    if_elim Left (worked rc mutex_init) (λ _. inl (refl, refl, refl))
      (λ e. inr (refl, refl, λ z. absurd (wrong z e)))
  where
    Left : Outcome VfErr Notifier → Type 0
    Left o =
        ((o.ret ≡ success) × (o.obj.initialized ≡ 1) × (o.obj.mode ≡ bidirectional))
        ⊎ ((o.ret ≡ sync_error) × (o.obj.initialized ≡ 0) × (rc mutex_init ≢ 0))

    wrong : rc mutex_init ≡ 0 → worked rc mutex_init ≡ false → ⊥
    wrong z e = ground arith

pub deinit_at-off : (rc : Returned) (n : Notifier) → (deinit_at rc n).obj.initialized ≡ 0
unfolding deinit_at
deinit_at-off rc n =
    if_elim (λ (o : Outcome VfErr Notifier). o.obj.initialized ≡ 0) (n.initialized == 0)
      (λ e. (==_iff _ _).0 e) (λ _. refl)
