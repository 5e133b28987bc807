-- ===== src/Events/Examples.antt =====
-- A bus with one subscriber, and the theorems on it.
use u.Base.{
  ◌⊎◌, true, nat_key, ◌≡◌, refl, false, none, some, List, [], ◌∷◌, ◌++◌, ok, ◌≤◌, length, All,
  string_key, ◌==◌,
}
use u.Base.Map
use u.Json.{Document, null, is_json_value, estimate_json_bytes}
use u.Events.{
  Bus, dequeued, positive, SubscriptionRecord, QueuedEvent, called, create_event_bus, empty_bus,
  subscribe, publish, unsubscribe_all,
}
use u.Events.Drain.{
  Input, subscribes, publishes, settles, drains, advances, run, advance, step, drain,
}
use u.Events.Facts.{IsPublishable}
use u.Events.Queue.{published_of, dequeued_of}
use u.Events.Owed.{calls_of}
use u.Events.Once.{tokens_left, expected, delivered_once}
use u.Events.Live.{called_live, queue_bounded}
use u.Events.Silence.{revoked_silent}

abbrev payload : Document
payload = record { heap = []; root = null }

abbrev bus : Bus
bus = empty_bus 1024 1048576 false

creates : create_event_bus none none none ≡ ok bus
unfolding create_event_bus
creates = refl

abbrev inputs : List Input
inputs =
    subscribes (some "news") (some 7) (some "p")
    ∷ subscribes (some "news") (some 8) (some "q")
    ∷ publishes (some "news") payload
    ∷ drains (positive 5)
    ∷ advances
    ∷ []

abbrev subscription : SubscriptionRecord
subscription = record { name = "news"; sink = 7; owner_id = "p" }

abbrev other : SubscriptionRecord
other = record { name = "news"; sink = 8; owner_id = "q" }

abbrev event : QueuedEvent
event = record { name = "news"; payload = payload }

calls_first : (advance (run bus inputs).0).1 ≡ called 1 subscription event ∷ []
unfolding run advance step drain publish is_json_value subscribe estimate_json_bytes Map.insert
calls_first = refl

called_live_example :
    (Map.lookup 1 (run bus inputs).0.subscriptions ≡ some subscription)
    × (subscription.name ≡ event.name)
called_live_example = called_live none none none bus inputs 1 subscription event creates calls_first

abbrev first_inputs : List Input
first_inputs =
    subscribes (some "news") (some 7) (some "p")
    ∷ subscribes (some "news") (some 8) (some "q")
    ∷ publishes (some "news") payload
    ∷ drains (positive 5)
    ∷ []

-- A sink throws, and another subscriber comes too late for the event.
abbrev delivery : List Input
delivery =
    advances
    ∷ subscribes (some "news") (some 9) (some "r")
    ∷ settles true
    ∷ advances
    ∷ settles false
    ∷ []

takes_event : (advance (run bus first_inputs).0).1 ≡ dequeued event ∷ []
unfolding run advance step drain publish is_json_value subscribe estimate_json_bytes Map.insert
takes_event = refl

takes_no_other : dequeued_of (run (advance (run bus first_inputs).0).0 delivery).1 ≡ []
unfolding run advance step drain publish is_json_value subscribe estimate_json_bytes Map.insert
    u.Events.Drain.settle
takes_no_other = refl

leaves_none : tokens_left (run (advance (run bus first_inputs).0).0 delivery).0 ≡ []
unfolding run advance step drain publish is_json_value subscribe estimate_json_bytes Map.insert
    u.Events.Drain.settle
leaves_none = refl

delivered_once_example :
    let now = (run bus first_inputs).0 in
    let last = run (advance now).0 delivery in
    (published_of (run bus first_inputs).1
      ≡ dequeued_of (run bus first_inputs).1 ++ event ∷ (advance now).0.queue)
    × ((calls_of 2 last.1 ≡ expected event 2 now)
        ⊎ ((calls_of 2 last.1 ≡ []) × (Map.lookup 2 last.0.subscriptions ≡ none)))
delivered_once_example =
    delivered_once none none none bus first_inputs delivery event 2 creates takes_event
      takes_no_other leaves_none

queue_bounded_example :
    (length (run bus inputs).0.queue ≤ (run bus inputs).0.capacity)
    × All (IsPublishable (run bus inputs).0.payload_limit) (run bus inputs).0.queue
queue_bounded_example = queue_bounded none none none bus inputs creates

-- The first owner is revoked after the snapshot of the tokens.
calls_second :
    (advance (run (unsubscribe_all (run bus inputs).0 "p") (advances ∷ [])).0).1
    ≡ called 2 other event ∷ []
unfolding run advance step drain publish is_json_value subscribe estimate_json_bytes Map.insert
    unsubscribe_all Map.retain
calls_second = refl

revoked_silent_example : (other.owner_id == "p") ≡ false
revoked_silent_example =
    revoked_silent none none none bus inputs (advances ∷ []) "p" 2 other event creates refl
      calls_second
