-- ===== src/Tests/Events.antt =====
-- internal/event/event.go on small data.
use p2p_storage.Base.{
  ℕ, String, ◌≡◌, refl, ◌≢◌, inl, inr, false, List, [], ◌∷◌, arith, ℕ_discrete, string_discrete,
  string_key, nat_key, bytes_key,
}
use p2p_storage.Base.Dict.{get, put, remove}
use p2p_storage.EventBus.{
  Event, Bus, done, blocked, panicked, System, do_subscribe, do_unsubscribe, do_publish, do_send,
  new_bus, subscribed, subscribe, publish, step, Reach, start, next,
}
use p2p_storage.EventBus.Distinct.{In}
use p2p_storage.EventBus.Open.{IsSound}
use p2p_storage.EventBus.Safety.{IsSafe, step-Reach-IsSafe}
use p2p_storage.EventBus.Delivery.{HasRoom, IsDelivered, publish-IsDelivered}
use p2p_storage.EventBus.Blocked.{Waits, Unread, here, step_on, unsubscribe_blocked}

abbrev found : Event ℕ
found = record { kind = "found"; content = 7 }

-- One subscriber, whose channel is 0.
abbrev one : System ℕ
one = record {
  bus = record {
    subscribers = ("found", 0 ∷ []) ∷ [];
    channels = (0, record { buffer = []; closed = false }) ∷ [];
    next = 1;
  };
  publishing = [];
}

-- A goroutine that is about to send to it.
abbrev sending_one : System ℕ
sending_one = record one { publishing = (4, (found, 0 ∷ [])) ∷ [] }

subscribes : step (do_subscribe "found") (record { bus = new_bus; publishing = [] }) ≡ done one
unfolding step subscribe subscribed put get remove
subscribes = refl

publishes : step (do_publish 4 found) one ≡ done sending_one
unfolding step subscribed put get remove string_discrete
publishes = refl

one_reached : Reach one
one_reached = next start (do_subscribe "found") subscribes

sending_reached : Reach sending_one
sending_reached = next one_reached (do_publish 4 found) publishes

step-Reach-IsSafe_example : IsSafe sending_one × (step (do_send 4) sending_one ≢ panicked)
step-Reach-IsSafe_example = step-Reach-IsSafe sending_one (do_send 4) sending_reached

room : (ch : ℕ) → In ch (subscribed "found" one.bus) → HasRoom ch one.bus
unfolding subscribed get string_discrete ℕ_discrete
room ch (inl e) = rw (← e) (record { buffer = []; closed = false }, refl, refl, omega arith)
room ch (inr m) = absurd m

sound : IsSound one.bus
sound = (step-Reach-IsSafe one (do_send 4) one_reached).0.bus

publish-IsDelivered_example :
    (t : Bus ℕ) × (publish found one.bus ≡ done t)
    × IsDelivered (subscribed "found" one.bus) found one.bus t
publish-IsDelivered_example = publish-IsDelivered found one.bus sound room

abbrev ten : List (Event ℕ)
ten = found ∷ found ∷ found ∷ found ∷ found ∷ found ∷ found ∷ found ∷ found ∷ found ∷ []

abbrev full : System ℕ
full = record {
  bus = record {
    subscribers = ("found", 0 ∷ []) ∷ [];
    channels = (0, record { buffer = ten; closed = false }) ∷ [];
    next = 1;
  };
  publishing = (4, (found, 0 ∷ [])) ∷ [];
}

-- Another goroutine publishes something that nobody has subscribed to.
abbrev lost : Event ℕ
lost = record { kind = "lost"; content = 8 }

abbrev fuller : System ℕ
fuller = record full { publishing = (5, (lost, [])) ∷ (4, (found, 0 ∷ [])) ∷ [] }

waits : Waits 4 found 0 [] full
unfolding get ℕ_discrete
waits = record {
  channel = record { buffer = ten; closed = false };
  publisher = refl;
  there = refl;
  is_open = refl;
  full = refl;
}

publishes_lost : step (do_publish 5 lost) full ≡ done fuller
unfolding step subscribed put get remove string_discrete ℕ_discrete
publishes_lost = refl

unread : Unread 0 full fuller
unread = step_on here (do_publish 5 lost) (λ e. absurd (cc e)) publishes_lost

unsubscribe_blocked_example :
    Waits 4 found 0 [] fuller
    × (fuller.bus.subscribers ≡ full.bus.subscribers)
    × ((ty : String) (x : ℕ) → step (do_unsubscribe ty x) fuller ≡ blocked)
unsubscribe_blocked_example = unsubscribe_blocked 4 found 0 [] full fuller waits unread
