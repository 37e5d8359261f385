-- ===== src/Bus/MessageBus.antt =====
-- bus/message_bus.py: `MessageBus`. A `receive` that finds its queue empty waits, and gives
-- nothing if no message comes within the timeout: the model's `receive` is the step that finds
-- the queue as it is.
pub mod Fifo
use anp_edge_swarm.Base.{
  ℕ, zero, suc, String, ◌==◌, eq_iff, eq_refl, ◌≡◌, ◌≢◌, refl, sym, Bool, true, false, Option, none,
  some, List, [], ◌∷◌, ◌++◌, if◌then◌else◌, keep, keep-append, arith,
}
use anp_edge_swarm.Base.Json.{Json}
use anp_edge_swarm.Dict
use anp_edge_swarm.Dict.{Dict, get-put}

pub record Entry : Type 0 where
  pub sender : String
  pub to : String
  pub message : Json
  pub ts : ℕ

pub record MessageBus : Type 0 where
  pub queues : Dict (List Entry)
  pub log : List Entry

unfoldable pub subscribe : String → MessageBus → MessageBus
subscribe agent_id b =
    if Dict.has agent_id b.queues then b else record b { queues = Dict.put agent_id [] b.queues }

unfoldable pub publish : (now : ℕ) → String → Json → String → MessageBus → Bool × MessageBus
publish now to message sender b = elim (Dict.get to b.queues) [
  | none ↦ (false, b)
  | some q ↦
      let entry : Entry = record { sender = sender; to = to; message = message; ts = now } in
      (true, record { queues = Dict.put to (q ++ entry ∷ []) b.queues; log = b.log ++ entry ∷ [] })
]

unfoldable pub receive : String → MessageBus → Option Entry × MessageBus
receive agent_id b = elim (Dict.get agent_id b.queues) [
  | none ↦ (none, b)
  | some [] ↦ (none, b)
  | some (e ∷ rest) ↦ (some e, record b { queues = Dict.put agent_id rest b.queues })
]

unfoldable pub get_log : MessageBus → List Entry
get_log b = b.log
