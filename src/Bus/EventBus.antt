-- ===== src/Bus/EventBus.antt =====
-- bus/event_bus.py: `EventBus`. A delivery is the agent's id with the event: each of them is run
-- in a thread of its own, and what a callback does is not under the bus's control: a critical event
-- only waits for the threads. The log holds
-- the `_max_log` most recent events.
pub mod Delivery
use anp_edge_swarm.Base.{
  ℕ, zero, suc, ◌+◌, ◌-◌, ltb, String, ◌==◌, ◌≡◌, ◌≤◌, refl, Bool, true, false, not, Option, none,
  some, List, [], ◌∷◌, ◌++◌, if◌then◌else◌, length, keep, take, last_n, count_if, length-append,
  length-last_n, arith,
}
use mathlib.Core.List.{map}
use anp_edge_swarm.Base.Sort.{sort, by_key_reverse}
use anp_edge_swarm.Base.Json.{Json}
use anp_edge_swarm.Dict
use anp_edge_swarm.Dict.{Dict, or_default}

abbrev pub max_log : ℕ
max_log = 1000

pub record Event : Type 0 where
  pub event_id : String
  pub event_type : String
  pub data_of : Json
  pub sender_id : String
  pub priority : String
  pub timestamp : ℕ
  pub delivered_to : List String

pub record Subscriber : Type 0 where
  pub callback : ℕ
  pub agent_id : String
  pub subscribed_at : ℕ

pub record EventBus : Type 0 where
  pub subscribers : Dict (List Subscriber)
  pub event_log : List Event

unfoldable pub subscribers_of : String → EventBus → List Subscriber
subscribers_of event_type b = or_default [] (Dict.get event_type b.subscribers)

-- `fresh` is the generated id, for a subscriber without one.
unfoldable pub subscribe :
    (now : ℕ) (fresh : String) → String → ℕ → Option String → EventBus → EventBus
unfolding subscribers_of
subscribe now fresh event_type callback agent_id b =
    let given = or_default fresh agent_id in
    let aid = if given == "" then fresh else given in
    record b {
      subscribers =
          Dict.put event_type
            (subscribers_of event_type b
              ++ record { callback = callback; agent_id = aid; subscribed_at = now } ∷ [])
            b.subscribers;
    }

unfoldable pub unsubscribe : String → String → EventBus → EventBus
unfolding subscribers_of
unsubscribe event_type agent_id b = record b {
  subscribers =
      Dict.put event_type (keep (λ s. not (s.agent_id == agent_id)) (subscribers_of event_type b))
        b.subscribers;
}

-- What a publication reaches, in the order the threads are started.
unfoldable pub receivers : String → EventBus → List Subscriber
unfolding subscribers_of
receivers event_type b = subscribers_of event_type b ++ subscribers_of "*" b

unfoldable pub append_log : Event → EventBus → EventBus
append_log e b =
    let log = b.event_log ++ e ∷ [] in
    record b { event_log = if ltb max_log (length log) then last_n max_log log else log }

-- The event with the ids it was delivered to; the log holds the same object.
unfoldable pub new_event :
    (now : ℕ) (event_id : String) → String → Json → String → String → EventBus → Event
unfolding receivers
new_event now event_id event_type info sender_id priority b = record {
  event_id = event_id;
  event_type = event_type;
  data_of = info;
  sender_id = sender_id;
  priority = priority;
  timestamp = now;
  delivered_to = map (λ s. s.agent_id) (receivers event_type b);
}

-- Gives the deliveries that are started.
unfoldable pub publish :
    (now : ℕ) (event_id : String)
    → String
    → Json
    → String
    → String
    → EventBus
    → List (Subscriber × Event) × EventBus
unfolding receivers new_event append_log
publish now event_id event_type info sender_id priority b =
    let event = new_event now event_id event_type info sender_id priority b in
    (map (λ s. (s, event)) (receivers event_type b), append_log event b)

abbrev pub of_type : Option String → Event → Bool
of_type none e = true
of_type (some t) e = if t == "" then true else e.event_type == t

abbrev pub after : ℕ → Event → Bool
after since e = if ltb 0 since then ltb since e.timestamp else true

unfoldable pub get_events : Option String → (since limit : ℕ) → EventBus → List Event
get_events event_type since limit b = take limit (
    sort (by_key_reverse (λ e. e.timestamp))
      (keep (after since) (keep (of_type event_type) b.event_log)))

pub record Stats : Type 0 where
  pub total_events : ℕ
  pub event_types : List String
  pub subscriber_count : ℕ
  pub recent_events : ℕ

unfoldable pub sum_subscribers : List (List Subscriber) → ℕ
sum_subscribers [] = 0
sum_subscribers (v ∷ vs) = length v + sum_subscribers vs

unfoldable pub get_stats : (now : ℕ) → EventBus → Stats
unfolding sum_subscribers
get_stats now b = record {
  total_events = length b.event_log;
  event_types = Dict.keys b.subscribers;
  subscriber_count = sum_subscribers (Dict.values b.subscribers);
  recent_events = count_if (λ e. ltb (now - e.timestamp) 60) b.event_log;
}
