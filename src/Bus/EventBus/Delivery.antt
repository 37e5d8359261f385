-- ===== src/Bus/EventBus/Delivery.antt =====
-- bus/event_bus.py: who gets a published event, and what the log holds.
use anp_edge_swarm.Base.{
  ℕ, leb, min, String, ◌==◌, eq_iff, ◌≡◌, ◌≤◌, ◌∙◌, ap, refl, sym, subst, true, false, not, Option,
  List, [], ◌∷◌, ◌++◌, length, keep, drop, length-last_n, length-take, take-append-drop, arith, All,
  All-append, All-keep_test, Bool-cases, inl, inr,
}
use mathlib.Core.List.{map, Perm}
use anp_edge_swarm.Base.Sort.{
  sort, sort-IsSorted, IsSorted, take-IsSorted, sort-length, sort-perm, take-drop-IsSorted,
  by_key_reverse, by_key_reverse-IsOrder,
}
use anp_edge_swarm.Base.Json.{Json}
use anp_edge_swarm.Dict
use anp_edge_swarm.Dict.{Dict, or_default, get-put, get-put_self}
use anp_edge_swarm.Bus.EventBus.{
  EventBus, Event, Subscriber, max_log, publish, unsubscribe, receivers, subscribers_of, new_event,
  append_log, get_events, of_type, after,
}

-- The log has at most `max_log` events.
abbrev pub IsBounded : EventBus → Type 0
IsBounded b = length b.event_log ≤ max_log

-- The log of a bus that has at most `max_log` events has no more after a publication.
pub publish-IsBounded :
    (now : ℕ) (event_id event_type : String) (info : Json) (sender priority : String) (b : EventBus)
    → IsBounded b
    → IsBounded (publish now event_id event_type info sender priority b).1
unfolding publish append_log
publish-IsBounded now event_id event_type info sender priority b h =
    let event = new_event now event_id event_type info sender priority b in
    let log = b.event_log ++ event ∷ [] in ground (arith, length-last_n max_log log)

-- No receiver is the agent.
abbrev pub Excludes : String → List (Subscriber × Event) → Type 0
Excludes agent_id ds = All (λ (s, e). not (s.agent_id == agent_id) ≡ true) ds

map-Excludes :
    (agent_id : String) (e : Event) (subs : List Subscriber)
    → All (λ s. not (s.agent_id == agent_id) ≡ true) subs
    → Excludes agent_id (map (λ s. (s, e)) subs)
map-Excludes agent_id e [] h = tt
map-Excludes agent_id e (s ∷ subs) h = (h.0, map-Excludes agent_id e subs h.1)

unsubscribe-own :
    (event_type agent_id : String) (b : EventBus)
    → subscribers_of event_type (unsubscribe event_type agent_id b)
      ≡ keep (λ s. not (s.agent_id == agent_id)) (subscribers_of event_type b)
unfolding subscribers_of unsubscribe
unsubscribe-own event_type agent_id b =
    rw
      (get-put_self event_type
        (keep (λ s. not (s.agent_id == agent_id))
          (or_default [] (Dict.get event_type b.subscribers)))
        b.subscribers)
      refl

unsubscribe-other :
    (other event_type agent_id : String) (b : EventBus)
    → (event_type == other) ≡ false
    → subscribers_of other (unsubscribe event_type agent_id b) ≡ subscribers_of other b
unfolding subscribers_of unsubscribe
unsubscribe-other other event_type agent_id b differ = grind (arith, get-put)

unsubscribe-All :
    (other event_type agent_id : String) (b : EventBus)
    → All (λ s. not (s.agent_id == agent_id) ≡ true) (subscribers_of other b)
    → All
        (λ s. not (s.agent_id == agent_id) ≡ true)
        (subscribers_of other (unsubscribe event_type agent_id b))
unsubscribe-All other event_type agent_id b h = elim (Bool-cases (event_type == other)) [
  | inl e ↦
      subst
        (λ t.
          All (λ s. not (s.agent_id == agent_id) ≡ true)
            (subscribers_of t (unsubscribe event_type agent_id b)))
        ((eq_iff event_type other).0 e)
        (rw (unsubscribe-own event_type agent_id b)
          (All-keep_test (λ s. not (s.agent_id == agent_id)) (subscribers_of event_type b)))
  | inr e ↦
      subst (All (λ s. not (s.agent_id == agent_id) ≡ true))
        (sym (unsubscribe-other other event_type agent_id b e)) h
]

-- After an agent has unsubscribed from an event type, and if it has no subscription to "*", no
-- publication of that type is delivered to it.
pub publish-unsubscribe :
    (now : ℕ) (event_id event_type agent_id : String) (info : Json) (sender priority : String)
    (b : EventBus)
    → All (λ s. not (s.agent_id == agent_id) ≡ true) (subscribers_of "*" b)
    → Excludes agent_id
        (publish now event_id event_type info sender priority (unsubscribe event_type agent_id b)).0
unfolding publish unsubscribe receivers subscribers_of
publish-unsubscribe now event_id event_type agent_id info sender priority b others =
    map-Excludes agent_id _ _ (
      All-append _ (subscribers_of event_type (unsubscribe event_type agent_id b))
        (subscribers_of "*" (unsubscribe event_type agent_id b))
        (rw (unsubscribe-own event_type agent_id b)
          (All-keep_test (λ s. not (s.agent_id == agent_id)) (subscribers_of event_type b)))
        (unsubscribe-All "*" event_type agent_id b others))

-- The events that match both filters.
abbrev pub matching : Option String → ℕ → EventBus → List Event
matching event_type since b = keep (after since) (keep (of_type event_type) b.event_log)

-- `given` are the latest of the matching events, from the latest on: at most `limit` of them, each
-- at least as late as each one left out, and all of them if there are no more than `limit`.
pub record IsLatest (event_type : Option String) (since limit : ℕ) (b : EventBus)
    (given : List Event) : Type 0 where
  pub bounded : length given ≡ min limit (length (matching event_type since b))
  pub ordered : IsSorted (by_key_reverse (λ e. e.timestamp)) given
  pub left_out : List Event
  pub complete : Perm (given ++ left_out) (matching event_type since b)
  pub latest : All (λ e. All (λ o. leb o.timestamp e.timestamp ≡ true) left_out) given

-- `get_events` gives the latest of the events that match its filters.
pub get_events-IsLatest :
    (event_type : Option String) (since limit : ℕ) (b : EventBus)
    → IsLatest event_type since limit b (get_events event_type since limit b)
unfolding get_events
get_events-IsLatest event_type since limit b =
    let le = by_key_reverse {A = Event} (λ e. e.timestamp) in
    let found = matching event_type since b in
    let sorted = sort-IsSorted le (by_key_reverse-IsOrder (λ e. e.timestamp)) found in
    record {
      bounded = length-take limit (sort le found) ∙ ap (min limit) (sort-length le found);
      ordered = take-IsSorted le limit (sort le found) sorted;
      left_out = drop limit (sort le found);
      complete = rw (take-append-drop limit (sort le found)) (sort-perm le found);
      latest = take-drop-IsSorted le limit (sort le found) sorted;
    }
