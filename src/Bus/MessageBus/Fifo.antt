-- ===== src/Bus/MessageBus/Fifo.antt =====
-- bus/message_bus.py: every message that was accepted is received once, in the order of the log.
use anp_edge_swarm.Base.{
  ℕ, String, ◌==◌, eq_iff, ◌≡◌, ◌∙◌, refl, sym, Option, none, some, List, [], ◌∷◌, ◌++◌,
  if◌then◌else◌, keep, keep-append, arith, Option-cases, inl, inr,
}
use mathlib.Core.List.{append-nil, append_assoc}
use anp_edge_swarm.Base.Json.{Json}
use anp_edge_swarm.Dict
use anp_edge_swarm.Dict.{Dict, get-put, or_default}
use anp_edge_swarm.Bus.MessageBus.{MessageBus, Entry, subscribe, publish, receive}

-- The calls of the agents, as the lock orders them.
pub data Call : Type 0 where
  subscribed : (agent_id : String) → Call
  published : (now : ℕ) (to : String) (message : Json) (sender : String) → Call
  received : (agent_id : String) → Call

abbrev pub queue_of : String → MessageBus → List Entry
queue_of a b = or_default [] (Dict.get a b.queues)

-- What an agent took.
abbrev taken : String → String → Option Entry → List Entry
taken a agent_id none = []
taken a agent_id (some e) = if agent_id == a then e ∷ [] else []

-- One call, with what agent `a` receives in it.
unfoldable pub step : String → Call → MessageBus → List Entry × MessageBus
step a (Call.subscribed agent_id) b = ([], subscribe agent_id b)
step a (Call.published now to message sender) b = ([], (publish now to message sender b).1)
step a (Call.received agent_id) b =
    (taken a agent_id (receive agent_id b).0, (receive agent_id b).1)

unfoldable pub run : String → List Call → MessageBus → List Entry × MessageBus
unfolding step
run a [] b = ([], b)
run a (c ∷ cs) b = ((step a c b).0 ++ (run a cs (step a c b).1).0, (run a cs (step a c b).1).1)

abbrev pub sent_to : String → MessageBus → List Entry
sent_to a b = keep (λ e. e.to == a) b.log

subscribe-queue :
    (a agent_id : String) (b : MessageBus) → queue_of a (subscribe agent_id b) ≡ queue_of a b
unfolding subscribe Dict.has
subscribe-queue a agent_id b =
    grind (arith, get-put, eq_iff, Option-cases (Dict.get agent_id b.queues))

subscribe-log : (agent_id : String) (b : MessageBus) → (subscribe agent_id b).log ≡ b.log
unfolding subscribe
subscribe-log agent_id b = ground arith

receive-queue :
    (a agent_id : String) (b : MessageBus)
    → taken a agent_id (receive agent_id b).0 ++ queue_of a (receive agent_id b).1 ≡ queue_of a b
unfolding receive
receive-queue a agent_id b = elim (Option-cases (Dict.get agent_id b.queues)) [
  | inl gone ↦ grind (arith, gone)
  | inr ([], found) ↦ grind (arith, found)
  | inr (e ∷ rest, found) ↦ grind (arith, get-put, eq_iff, found)
]

receive-log : (agent_id : String) (b : MessageBus) → (receive agent_id b).1.log ≡ b.log
unfolding receive
receive-log agent_id b = elim (Option-cases (Dict.get agent_id b.queues)) [
  | inl gone ↦ rw (gone, receive) refl
  | inr ([], found) ↦ rw (found, receive) refl
  | inr (e ∷ rest, found) ↦ rw (found, receive) refl
]

publish-queue :
    (a : String) (now : ℕ) (to : String) (message : Json) (sender : String) (b : MessageBus)
    → (new : List Entry) × (queue_of a (publish now to message sender b).1 ≡ queue_of a b ++ new)
      × (sent_to a (publish now to message sender b).1 ≡ sent_to a b ++ new)
unfolding publish
publish-queue a now to message sender b =
    let entry : Entry = record { sender = sender; to = to; message = message; ts = now } in
    elim (Option-cases (Dict.get to b.queues)) [
      | inl gone ↦ rw (gone, publish) ([], sym (append-nil _), sym (append-nil _))
      | inr (q, found) ↦
          rw (found, publish)
            (
              (if to == a then entry ∷ [] else []),
              grind (arith, get-put, eq_iff, append-nil, found),
              keep-append (λ e. e.to == a) b.log (entry ∷ []),
            )
    ]

step-fifo :
    (a : String) (c : Call) (b : MessageBus) (before : List Entry)
    → before ++ queue_of a b ≡ sent_to a b
    → (before ++ (step a c b).0) ++ queue_of a (step a c b).1 ≡ sent_to a (step a c b).1
unfolding step
step-fifo a (Call.subscribed agent_id) b before h =
    rw (append-nil before, subscribe-queue a agent_id b, subscribe-log agent_id b) h
step-fifo a (Call.published now to message sender) b before h =
    let (new, queued, logged) = publish-queue a now to message sender b in
    rw (append-nil before, queued, logged, ← append_assoc before (queue_of a b) new, h) refl
step-fifo a (Call.received agent_id) b before h =
    append_assoc before _ _ ∙ rw (receive-queue a agent_id b, receive-log agent_id b) h

-- Once the calls so far have left `before` for what agent `a` has received, whatever calls come
-- next, in any order: what it has received, followed by what waits in its queue, is exactly the
-- accepted messages to it, in the order of the log. No message is lost, repeated or overtaken.
pub run-fifo :
    (a : String) (cs : List Call) (b : MessageBus) (before : List Entry)
    → before ++ queue_of a b ≡ sent_to a b
    → (before ++ (run a cs b).0) ++ queue_of a (run a cs b).1 ≡ sent_to a (run a cs b).1
unfolding run
run-fifo a [] b before h = rw (append-nil before) h
run-fifo a (c ∷ cs) b before h =
    rw (← append_assoc before (step a c b).0 (run a cs (step a c b).1).0)
      (run-fifo a cs (step a c b).1 (before ++ (step a c b).0) (step-fifo a c b before h))
