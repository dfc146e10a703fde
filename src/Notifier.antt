-- ===== src/Notifier.antt =====
-- service/src/notifier/vf-notifier.c: events between pipeline units. A callback, its context and its
-- data are addresses, 0 being NULL; what a callback does is not part of the notifier.
pub mod Invariant
pub mod Delivery
mod Tests
use Prim.Native.String.{String}
use vision_flow.Base.{
  ℕ, zero, suc, ◌+◌, ◌%◌, ◌^◌, Bool, true, false, not, ◌||◌, List, [], ◌∷◌, ◌++◌, leb, ◌==◌,
  if◌then◌else◌, get_or, set, replicate, take,
}
use vision_flow.Error.{VfErr, success, invalid_parameter, oom, sync_error, init_failed}
use vision_flow.Sync.{
  SyncCall, mutex_init, mutex_destroy, mutex_lock, mutex_unlock, Returned, worked, Outcome, done,
  unlocked,
}

-- VF_NOTIFIER_MAX_SUBSCRIBERS.
abbrev pub max_subscribers : ℕ
max_subscribers = 8

-- VF_NOTIFIER_ID_MAX_LEN.
abbrev pub id_max_len : ℕ
id_max_len = 64

-- `vf_notifier_mode_t`; `other` is a value that is none of the enumerators.
pub data Mode : Type 0 where
  receiver sender bidirectional : Mode
  other : ℕ → Mode

-- `vf_notifier_event_t`.
pub data Event : Type 0 where
  frame_ready frame_received unknown_event : Event

pub event_eq : Event → Event → Bool
event_eq frame_ready frame_ready = true
event_eq frame_received frame_received = true
event_eq unknown_event unknown_event = true
event_eq _ _ = false

-- `vf_notifier_subscriber_t`.
pub record Subscriber : Type 0 where
  pub event : Event
  pub cb : ℕ
  pub ctx : ℕ

abbrev pub no_subscriber : Subscriber
no_subscriber = record { event = frame_ready; cb = 0; ctx = 0 }

-- `vf_notifier_t`, without the mutex.
pub record Notifier : Type 0 where
  pub id : List ℕ
  pub mode : Mode
  pub subscribers : List Subscriber
  pub subscriber_count : ℕ
  pub initialized : ℕ

-- What a notifier does for a publisher: POSIX calls, and calls of subscribed callbacks.
pub data Action : Type 0 where
  posix : SyncCall → Action
  deliver : ℕ → Event → ℕ → ℕ → Action

pub record Sent : Type 0 where
  pub err : VfErr
  pub actions : List Action

abbrev pub sent : VfErr → List Action → Sent
sent e acts = record { err = e; actions = acts }

-- `vf_notifier_event2str`.
pub event2str : Event → String
event2str frame_ready = "VF_NOTIFIER_EVENT_FRAME_READY"
event2str frame_received = "VF_NOTIFIER_EVENT_FRAME_RECEIVED"
event2str unknown_event = "VF_NOTIFIER_EVENT_UNKNOWN"

-- `vf_notifier_is_sender`.
pub is_sender : Mode → Bool
is_sender sender = true
is_sender bidirectional = true
is_sender _ = false

-- `vf_notifier_is_receiver`.
pub is_receiver : Mode → Bool
is_receiver receiver = true
is_receiver bidirectional = true
is_receiver _ = false

-- The mode check of `vf_notifier_init`.
unfoldable pub is_mode : Mode → Bool
is_mode (other n) = false
is_mode _ = true

-- The object after `memset`, the copy of the id and the assignment of the mode.
abbrev pub prepared : List ℕ → Mode → Notifier
prepared id mode = record {
  id = take 63 id;
  mode = mode;
  subscribers = replicate 8 no_subscriber;
  subscriber_count = 0;
  initialized = 0;
}

-- `vf_notifier_init` at pointers that are not NULL.
unfoldable pub init_at : Returned → Notifier → List ℕ → Mode → Outcome VfErr Notifier
init_at rc n id mode =
    if not (is_mode mode)
    then done invalid_parameter n []
    else if worked rc mutex_init
    then done success (record (prepared id mode) { initialized = 1 }) (mutex_init ∷ [])
    else done sync_error (prepared id mode) (mutex_init ∷ [])

-- `vf_notifier_deinit` at a notifier that is not NULL: a failed destroy is only logged.
pub deinit_at : Returned → Notifier → Outcome VfErr Notifier
deinit_at rc n =
    if n.initialized == 0
    then done success n []
    else done success (record n { initialized = 0; subscriber_count = 0 }) (mutex_destroy ∷ [])

-- The writes of a subscription.
pub add : Notifier → Subscriber → Notifier
add n s = record n {
  subscribers = set n.subscribers n.subscriber_count s;
  subscriber_count = (n.subscriber_count + 1) % 2 ^ 32;
}

-- `vf_notifier_subscribe` at a notifier that is not NULL.
pub subscribe_at : Returned → Notifier → Subscriber → Outcome VfErr Notifier
subscribe_at rc n s =
    if s.cb == 0
    then done invalid_parameter n []
    else if n.initialized == 0
    then done init_failed n []
    else if not (is_receiver n.mode)
    then done invalid_parameter n []
    else if worked rc mutex_lock
    then if leb max_subscribers n.subscriber_count
      then done (unlocked rc oom) n (mutex_lock ∷ mutex_unlock ∷ [])
      else done (unlocked rc success) (add n s) (mutex_lock ∷ mutex_unlock ∷ [])
    else done sync_error n (mutex_lock ∷ [])

-- The loops of publish and of broadcast, from index i with `left` subscribers to go.
pub publish_from : List Subscriber → Event → ℕ → ℕ → ℕ → List Action
publish_from subs event payload zero i = []
publish_from subs event payload (suc left) i =
    let s = get_or subs i no_subscriber in
    let rest = publish_from subs event payload left (suc i) in
    if event_eq s.event event then deliver s.cb event payload s.ctx ∷ rest else rest

pub broadcast_from : List Subscriber → Event → ℕ → ℕ → ℕ → List Action
broadcast_from subs event payload zero i = []
broadcast_from subs event payload (suc left) i =
    let s = get_or subs i no_subscriber in
    deliver s.cb event payload s.ctx ∷ broadcast_from subs event payload left (suc i)

-- The checks and the lock that publish and broadcast have in common, around `loop`.
pub send : Returned → Notifier → List Action → Sent
send rc n loop =
    if n.initialized == 0
    then sent init_failed []
    else if not (is_sender n.mode)
    then sent invalid_parameter []
    else if worked rc mutex_lock
    then if n.subscriber_count == 0
      then sent (unlocked rc success) (posix mutex_lock ∷ posix mutex_unlock ∷ [])
      else sent (unlocked rc success) (posix mutex_lock ∷ (loop ++ (posix mutex_unlock ∷ [])))
    else sent sync_error (posix mutex_lock ∷ [])

-- `vf_notifier_publish` at a notifier that is not NULL. The notifier stays as it is.
pub publish_at : Returned → Notifier → Event → ℕ → Sent
publish_at rc n event payload =
    send rc n (publish_from n.subscribers event payload n.subscriber_count 0)

-- `vf_notifier_broadcast` at a notifier that is not NULL. The notifier stays as it is.
pub broadcast_at : Returned → Notifier → Event → ℕ → Sent
broadcast_at rc n event payload =
    send rc n (broadcast_from n.subscribers event payload n.subscriber_count 0)
