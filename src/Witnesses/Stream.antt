-- ===== src/Witnesses/Stream.antt =====
-- The theorems on the event bus, at two subscribers and three events.
use schedulator.Prelude.{◌≡◌, refl, ℕ, ◌≤◌, List, [], ◌∷◌, ◌++◌, length, arith, some}
use schedulator.EventBus.{
  Event, EventBus, capacity, new_event_bus, subscribe, Step, subscribing, unsubscribing, publishing,
  receiving, run, received, waiting_events, published,
}
use schedulator.EventBus.Delivery.{IsPart}
use schedulator.EventBus.Delivery

abbrev cycle_event : ℕ → Event ℕ
cycle_event n = record { type = "cycle_summary"; timestamp = n; payload = n }

abbrev one_subscriber : EventBus ℕ
one_subscriber = subscribe new_event_bus

abbrev stream : List (Step ℕ)
stream =
    publishing (cycle_event 1)
    ∷ subscribing
    ∷ publishing (cycle_event 2)
    ∷ receiving 0
    ∷ unsubscribing 1
    ∷ publishing (cycle_event 3)
    ∷ []

abbrev after_stream : EventBus ℕ
after_stream = record { subscribers = (0, cycle_event 2 ∷ cycle_event 3 ∷ []) ∷ []; next_id = 2 }

run-stream : run stream one_subscriber ≡ some after_stream
unfolding run
run-stream = refl

run-IsPart_example :
    IsPart
      (received 0 stream one_subscriber ++ waiting_events 0 after_stream)
      ([] ++ published stream)
    × (length (waiting_events 0 after_stream) ≤ capacity)
run-IsPart_example =
    Delivery.run-IsPart 0 stream one_subscriber after_stream [] refl (omega arith) (omega arith)
      (refl, tt) run-stream

run-published_example :
    received 0 stream one_subscriber ++ waiting_events 0 after_stream ≡ [] ++ published stream
run-published_example =
    Delivery.run-published 0 stream one_subscriber after_stream [] refl (omega arith) (omega arith)
      (refl, tt) run-stream
