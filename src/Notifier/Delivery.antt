-- ===== src/Notifier/Delivery.antt =====
-- What publish and broadcast deliver: to whom, and in which order.
use vision_flow.Base.{
  ℕ, zero, suc, ◌+◌, ◌≤◌, ◌<◌, ◌≡◌, refl, List, [], ◌∷◌, ◌++◌, arith, length, take, drop, if_elim,
  map, ap, ◌==◌, if◌then◌else◌, get_or, true, false, ◌∙◌, sym, subst, leb, ==_iff, Bool-cases, inl,
  inr, ◌≢◌,
}
use vision_flow.Sync.{Returned, mutex_lock, mutex_unlock, unlocked, mutex_init}
use vision_flow.Error.{success}
use vision_flow.Notifier.{
  Notifier, Subscriber, bidirectional, init_at, subscribe_at, add, Event, event_eq, Action, deliver,
  posix, publish_from, broadcast_from, publish_at, broadcast_at, send, no_subscriber, is_sender,
  is_receiver, sent, is_mode, max_subscribers,
}
use vision_flow.Notifier.Invariant.{IsValid, listed, listed-add, add-IsValid}

-- The subscriptions to an event, in order.
unfoldable pub wanting : Event → List Subscriber → List Subscriber
wanting event [] = []
wanting event (s ∷ ss) =
    let rest = wanting event ss in if event_eq s.event event then s ∷ rest else rest

abbrev pub told : Event → ℕ → Subscriber → Action
told event payload s = deliver s.cb event payload s.ctx

drop_step :
    {A : Type 0} (xs : List A) (i : ℕ) (d : A)
    → i < length xs
    → drop i xs ≡ get_or xs i d ∷ drop (suc i) xs
drop_step [] i d h = elim h [ ]
drop_step (x ∷ xs) zero d h = refl
drop_step (x ∷ xs) (suc i) d h = drop_step xs i d (omega arith)

wanting_cons :
    (event : Event) (payload : ℕ) (s : Subscriber) (ss : List Subscriber)
    → map (told event payload) (wanting event (s ∷ ss)) ≡ (
        if event_eq s.event event
        then told event payload s ∷ map (told event payload) (wanting event ss)
        else map (told event payload) (wanting event ss))
unfolding wanting
wanting_cons event payload s ss = elim (Bool-cases (event_eq s.event event)) [
  | inl e ↦ rw e refl
  | inr e ↦ rw e refl
]

publish_from_lem :
    (subs : List Subscriber) (event : Event) (payload : ℕ) (left i : ℕ)
    → i + left ≤ length subs
    → publish_from subs event payload left i
      ≡ map (told event payload) (wanting event (take left (drop i subs)))
unfolding publish_from wanting
publish_from_lem subs event payload zero i h = refl
publish_from_lem subs event payload (suc left) i h =
    let s = get_or subs i no_subscriber in
    let rest = publish_from_lem subs event payload left (suc i) (omega arith) in
    rw (drop_step subs i no_subscriber (omega arith), rest)
      (sym (wanting_cons event payload s (take left (drop (suc i) subs))))

broadcast_from_lem :
    (subs : List Subscriber) (event : Event) (payload : ℕ) (left i : ℕ)
    → i + left ≤ length subs
    → broadcast_from subs event payload left i ≡ map (told event payload) (take left (drop i subs))
unfolding broadcast_from
broadcast_from_lem subs event payload zero i h = refl
broadcast_from_lem subs event payload (suc left) i h =
    rw
      (
        drop_step subs i no_subscriber (omega arith),
        broadcast_from_lem subs event payload left (suc i) (omega arith),
      )
      refl

-- The notifier is initialized, may publish, and its lock works.
pub record IsReady (rc : Returned) (n : Notifier) : Type 0 where
  pub valid : IsValid n
  pub on : n.initialized ≡ 1
  pub may_send : is_sender n.mode ≡ true
  pub locks : rc mutex_lock ≡ 0

-- The lock, the deliveries and the unlock.
abbrev pub under_lock : List Action → List Action
under_lock acts = posix mutex_lock ∷ (acts ++ (posix mutex_unlock ∷ []))

send_lem :
    (rc : Returned) (n : Notifier) (loop : List Action)
    → IsReady rc n
    → (n.subscriber_count ≡ 0 → loop ≡ [])
    → send rc n loop ≡ sent (unlocked rc success) (under_lock loop)
unfolding send
send_lem rc n loop r none =
    rw (r.on, r.may_send, r.locks)
      (if_elim (λ x. x ≡ sent (unlocked rc success) (under_lock loop)) (n.subscriber_count == 0)
        (λ e. rw (none ((==_iff _ _).0 e)) refl) (λ _. refl))

-- On an initialized notifier in a sending mode whose mutex can be locked, a publish calls exactly the
-- subscribers of the event, each once, in the order they subscribed, all of them between the lock and
-- the unlock. A broadcast calls every subscriber, also in that order.
pub publish-IsReady :
    (rc : Returned) (n : Notifier) (event : Event) (payload : ℕ)
    → IsReady rc n
    → (publish_at rc n event payload
        ≡ sent
            (unlocked rc success)
            (under_lock (map (told event payload) (wanting event (listed n)))))
      × (broadcast_at rc n event payload
          ≡ sent (unlocked rc success) (under_lock (map (told event payload) (listed n))))
unfolding publish_at broadcast_at publish_from broadcast_from
publish-IsReady rc n event payload r =
    let fits : 0 + n.subscriber_count ≤ length n.subscribers =
      omega (arith, r.valid.table, r.valid.bounded) in
    (
      send_lem rc n _ r (λ e. rw e refl)
          ∙ ap (λ acts. sent (unlocked rc success) (under_lock acts))
              (publish_from_lem n.subscribers event payload n.subscriber_count 0 fits),
      send_lem rc n _ r (λ e. rw e refl)
          ∙ ap (λ acts. sent (unlocked rc success) (under_lock acts))
              (broadcast_from_lem n.subscribers event payload n.subscriber_count 0 fits),
    )

-- A sequence of subscriptions.
pub subscribe_all : Returned → Notifier → List Subscriber → Notifier
subscribe_all rc n [] = n
subscribe_all rc n (s ∷ ss) = subscribe_all rc (subscribe_at rc n s).obj ss

abbrev pub AllCalled : List Subscriber → Type 0
AllCalled [] = Unit {0}
AllCalled (s ∷ ss) = (s.cb ≢ 0) × AllCalled ss

-- A valid notifier that was initialized as bidirectional.
pub record IsOpen (n : Notifier) : Type 0 where
  pub valid : IsValid n
  pub on : n.initialized ≡ 1
  pub both : n.mode ≡ bidirectional

subscribe_added :
    (rc : Returned) (n : Notifier) (s : Subscriber)
    → IsOpen n
    → rc mutex_lock ≡ 0
    → s.cb ≢ 0
    → n.subscriber_count < 8
    → (subscribe_at rc n s).obj ≡ add n s
unfolding subscribe_at is_receiver
subscribe_added rc n s o l c h =
    let called : (s.cb == 0) ≡ false = ground arith in
    let room : leb max_subscribers n.subscriber_count ≡ false = ground arith in
    rw (called, o.on, o.both, l, room) refl

add-IsOpen : (n : Notifier) (s : Subscriber) → IsOpen n → n.subscriber_count < 8 → IsOpen (add n s)
unfolding add
add-IsOpen n s o h = record { valid = add-IsValid n s o.valid h; on = o.on; both = o.both }

add-count :
    (n : Notifier) (s : Subscriber)
    → n.subscriber_count < 8
    → (add n s).subscriber_count ≡ suc n.subscriber_count
unfolding add
add-count n s h = omega arith

append_snoc :
    {A : Type 0} (xs : List A) (y : A) (ys : List A) → (xs ++ (y ∷ [])) ++ ys ≡ xs ++ (y ∷ ys)
append_snoc [] y ys = refl
append_snoc (x ∷ xs) y ys = ap (λ t. x ∷ t) (append_snoc xs y ys)

subscribe_all_lem :
    (rc : Returned) (ss : List Subscriber) (n : Notifier)
    → IsOpen n
    → rc mutex_lock ≡ 0
    → AllCalled ss
    → n.subscriber_count + length ss ≤ 8
    → IsOpen (subscribe_all rc n ss) × (listed (subscribe_all rc n ss) ≡ listed n ++ ss)
unfolding subscribe_all
subscribe_all_lem rc [] n o l c h = (o, sym (append_nil (listed n)))
  where
    append_nil : (xs : List Subscriber) → xs ++ [] ≡ xs
    append_nil [] = refl
    append_nil (x ∷ xs) = ap (λ t. x ∷ t) (append_nil xs)
subscribe_all_lem rc (s ∷ ss) n o l c h =
    let room : n.subscriber_count < 8 = omega arith in
    let rest =
      subscribe_all_lem rc ss (add n s) (add-IsOpen n s o room) l c.1
        (omega (arith, add-count n s room)) in
    let step = subscribe_added rc n s o l c.0 room in
    subst
      (λ m.
        IsOpen (subscribe_all rc m ss) × (listed (subscribe_all rc m ss) ≡ listed n ++ (s ∷ ss)))
      (sym step)
      (
        rest.0,
        rest.1 ∙ ap (λ t. t ++ ss) (listed-add n s o.valid room) ∙ append_snoc (listed n) s ss,
      )

init-IsOpen :
    (rc : Returned) (n : Notifier) (id : List ℕ)
    → rc mutex_init ≡ 0
    → IsOpen (init_at rc n id bidirectional).obj
      × (listed (init_at rc n id bidirectional).obj ≡ [])
      × ((init_at rc n id bidirectional).obj.subscriber_count ≡ 0)
unfolding init_at is_mode
init-IsOpen rc n id h = rw h (
  record { valid = record { table = refl; bounded = omega arith }; on = refl; both = refl },
  refl,
  refl,
)

-- After vf_notifier_init as bidirectional and at most eight subscriptions with callbacks that are not
-- NULL, where the mutex can be set up and locked, a publish calls exactly those subscriptions that
-- name its event, each once with its own context, in the order they were made, and nothing else.
pub publish-subscribe_all :
    (rc : Returned) (n : Notifier) (id : List ℕ) (ss : List Subscriber) (event : Event)
    (payload : ℕ)
    → rc mutex_init ≡ 0
    → rc mutex_lock ≡ 0
    → AllCalled ss
    → length ss ≤ 8
    → (publish_at rc
        (subscribe_all rc (init_at rc n id bidirectional).obj ss)
        event
        payload).actions
      ≡ under_lock (map (told event payload) (wanting event ss))
publish-subscribe_all rc n id ss event payload i l c h =
    let open_ = init-IsOpen rc n id i in
    let all = subscribe_all_lem rc ss _ open_.0 l c (omega (arith, open_.2)) in
    let ready : IsReady rc (subscribe_all rc (init_at rc n id bidirectional).obj ss) = record {
      valid = all.0.valid;
      on = all.0.on;
      may_send = ap is_sender all.0.both ∙ unfold is_sender in refl;
      locks = l;
    } in
    let heard = all.1 ∙ ap (λ t. t ++ ss) open_.1 in
    ap (λ x. x.actions) (publish-IsReady rc _ event payload ready).0
    ∙ ap (λ t. under_lock (map (told event payload) (wanting event t))) heard
