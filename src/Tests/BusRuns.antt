-- ===== src/Tests/BusRuns.antt =====
-- bus/: agent "a" gets two messages; agent "b" leaves the sensor events.
use anp_edge_swarm.Base.{◌≡◌, refl, not, true, List, [], ◌∷◌, ◌++◌, some, All, ◌==◌}
use anp_edge_swarm.Base.Json.{Json}
use anp_edge_swarm.Dict
use anp_edge_swarm.Bus.MessageBus.{MessageBus}
use anp_edge_swarm.Bus.MessageBus.Fifo.{Call, queue_of, sent_to, run, run-fifo}
use anp_edge_swarm.Bus.EventBus.{EventBus, Event, subscribers_of, get_events}
use anp_edge_swarm.Bus.EventBus.Delivery.{IsLatest, get_events-IsLatest}

abbrev empty_bus : MessageBus
empty_bus = record { queues = []; log = [] }

abbrev calls : List Call
calls =
    Call.subscribed "a"
    ∷ Call.published 1 "a" (Json.num 1) "b"
    ∷ Call.published 2 "c" Json.null "b"
    ∷ Call.published 3 "a" (Json.num 2) "b"
    ∷ Call.received "a"
    ∷ []

nothing_yet : [] ++ queue_of "a" empty_bus ≡ sent_to "a" empty_bus
unfolding Dict.get
nothing_yet = refl

run-fifo_example :
    ([] ++ (run "a" calls empty_bus).0) ++ queue_of "a" (run "a" calls empty_bus).1
    ≡ sent_to "a" (run "a" calls empty_bus).1
run-fifo_example = run-fifo "a" calls empty_bus [] nothing_yet

abbrev event : Event
event = record {
  event_id = "e1";
  event_type = "sensor.reading";
  data_of = Json.null;
  sender_id = "s";
  priority = "LOW";
  timestamp = 4;
  delivered_to = [];
}

abbrev events : EventBus
events = record {
  subscribers =
      ("sensor.reading", record { callback = 0; agent_id = "b"; subscribed_at = 1 } ∷ [])
      ∷ ("*", record { callback = 1; agent_id = "c"; subscribed_at = 2 } ∷ [])
      ∷ [];
  event_log = event ∷ [];
}

nobody_else : All (λ s. not (s.agent_id == "b") ≡ true) (subscribers_of "*" events)
unfolding subscribers_of Dict.get
nobody_else = (refl, tt)

get_events-IsLatest_example :
    IsLatest (some "sensor.reading") 0 5 events (get_events (some "sensor.reading") 0 5 events)
get_events-IsLatest_example = get_events-IsLatest (some "sensor.reading") 0 5 events
