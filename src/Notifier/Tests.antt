-- ===== src/Notifier/Tests.antt =====
-- The notifier's theorems at concrete inputs.
use vision_flow.Base.{ℕ, true, ◌+◌, ◌≡◌, refl, List, [], ◌∷◌, map, arith, replicate}
use vision_flow.Error.{success}
use vision_flow.Sync.{all_ok, unlocked}
use vision_flow.Notifier.{
  Notifier, Subscriber, bidirectional, prepared, init_at, frame_ready, frame_received, event_eq,
  publish_at, broadcast_at, sent, no_subscriber, is_sender,
}
use vision_flow.Notifier.Invariant.{IsValid, listed}
use vision_flow.Notifier.Delivery.{
  publish-IsReady, publish-subscribe_all, subscribe_all, told, wanting, under_lock, IsReady,
}

abbrev heard_by : ℕ → Subscriber
heard_by cb = record { event = frame_ready; cb = cb; ctx = cb + 100 }

abbrev three : List Subscriber
three = heard_by 1 ∷ record { event = frame_received; cb = 2; ctx = 0 } ∷ heard_by 3 ∷ []

abbrev hub : Notifier
hub = record (prepared [] bidirectional) {
  subscribers = heard_by 1 ∷ heard_by 2 ∷ replicate 6 no_subscriber;
  subscriber_count = 2;
  initialized = 1;
}

wanting-three : wanting frame_ready three ≡ heard_by 1 ∷ heard_by 3 ∷ []
unfolding wanting event_eq
wanting-three = refl

hub-IsValid : IsValid hub
hub-IsValid = record { table = refl; bounded = omega arith }

hub-may_send : is_sender hub.mode ≡ true
unfolding is_sender
hub-may_send = refl

hub-IsReady : IsReady all_ok hub
hub-IsReady = record { valid = hub-IsValid; on = refl; may_send = hub-may_send; locks = refl }

publish-IsReady_example :
    (publish_at all_ok hub frame_ready 7
      ≡ sent
          (unlocked all_ok success)
          (under_lock (map (told frame_ready 7) (wanting frame_ready (listed hub)))))
    × (broadcast_at all_ok hub frame_ready 7
        ≡ sent (unlocked all_ok success) (under_lock (map (told frame_ready 7) (listed hub))))
publish-IsReady_example = publish-IsReady all_ok hub frame_ready 7 hub-IsReady

publish-subscribe_all_example :
    (publish_at all_ok
      (subscribe_all all_ok (init_at all_ok hub [] bidirectional).obj three)
      frame_ready
      7).actions
    ≡ under_lock (map (told frame_ready 7) (wanting frame_ready three))
publish-subscribe_all_example =
    publish-subscribe_all all_ok hub [] three frame_ready 7 refl refl
      ((λ e. ground arith), ((λ e. ground arith), ((λ e. ground arith), tt))) (omega arith)
