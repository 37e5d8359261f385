-- ===== src/Swarm/Kademlia.antt =====
-- swarm/kademlia_node.py: the state of `KademliaNode`, its message handler and its public methods.
-- A step has the time, the own address and the own capabilities as arguments, and the datagrams
-- that it sends as a list. A step that raises keeps what it wrote before. The listener and the
-- refresh thread are taken to run one step at a time.
pub mod Messages
pub mod Methods
pub mod Invariant
pub mod Rounds
pub mod Replies
pub mod Stored
pub mod Lookup
use anp_edge_swarm.Base.Exec.{if_some, Exec, pure, modify, gets, for_each, ◌>>=◌, ◌>>◌}
use Messages.{Json, Entry, Message, Body, Packet}
use anp_edge_swarm.Base.Json.{truthy, truthy_text, Fields}
use mathlib.Core.Option
use anp_edge_swarm.Base.{
  ℕ, ◌-◌, ltb, leb, String, ◌==◌, Bool, true, false, not, ◌&&◌, Option, none, some, List, [], ◌∷◌,
  ◌++◌, map, if◌then◌else◌,
}
use anp_edge_swarm.Dict
use anp_edge_swarm.Dict.{Dict, or_default}
use anp_edge_swarm.Swarm.Kbucket.{
  Node, RoutingTable, k, new_table, add_node, all_nodes, find_closest, evict_stale,
}

abbrev pub port : ℕ
port = 6881

abbrev pub stale_timeout : ℕ
stale_timeout = 90

pub record Kad : Type 0 where
  pub node_id : String
  pub routing_table : RoutingTable
  pub storage : Dict Json
  pub known_peers : Dict Json
  pub sent : List Packet

-- What a step reads of the machine: time.time(), _own_ip() and _own_cap().
pub record Env : Type 0 where
  pub now : ℕ
  pub own_ip : String
  pub own_cap : Json

unfoldable pub new_kad : String → Kad
new_kad node_id = record {
  node_id = node_id;
  routing_table = new_table node_id;
  storage = [];
  known_peers = [];
  sent = [];
}

-- _send; that a datagram may be lost is not seen here.
unfoldable pub send : String → ℕ → Body → Exec Kad (Unit {0})
send ip port body =
    modify (λ s. record s { sent = s.sent ++ record { ip = ip; port = port; body = body } ∷ [] })

unfoldable pub store_value : String → Json → Kad → Kad
store_value key value s = record s { storage = Dict.put key value s.storage }

unfoldable pub learn_cap : String → Json → Kad → Kad
learn_cap id cap s = record s { known_peers = Dict.put id cap s.known_peers }

-- known_peers.setdefault(id, cap)
unfoldable pub default_cap : String → Json → Kad → Kad
default_cap id cap s = if Dict.has id s.known_peers then s else learn_cap id cap s

unfoldable pub table_add : ℕ → String → String → ℕ → Exec Kad (Unit {0})
table_add now id ip port s = elim (add_node now id ip port s.routing_table) [
  | none ↦ (none, s)
  | some t ↦ (some tt, record s { routing_table = t })
]

unfoldable pub nearest : String → Exec Kad (List Node)
nearest target_id s = (find_closest target_id k s.routing_table, s)

abbrev pub address : Node → String × String × ℕ
address n = (n.node_id, n.ip, n.port)

-- What `_handle` reads of a message before it looks at the type: the sender (an empty id is none),
-- its address, and capabilities that are not empty.
abbrev pub truthy_json : Option Json → Option Json
truthy_json none = none
truthy_json (some v) = if truthy v then some v else none

-- The key of a FIND_VALUE and its value, if `key in self.storage`.
abbrev pub stored_value : Option String → Kad → Option (String × Json)
stored_value none s = none
stored_value (some key) s = Option.map (λ v. (key, v)) (Dict.get key s.storage)

module _ (env : Env) (msg : Message) (addr_ip : String) (addr_port : ℕ) where
  abbrev pub sender_ip : String
  sender_ip = or_default addr_ip msg.sender_ip

  abbrev pub sender_port : ℕ
  sender_port = or_default addr_port msg.sender_port

  abbrev pub with_sender : (String → Exec Kad (Unit {0})) → Exec Kad (Unit {0})
  with_sender f = if_some f (truthy_text msg.sender_id)

  abbrev pub with_cap : (Json → Exec Kad (Unit {0})) → Exec Kad (Unit {0})
  with_cap f = if_some f (truthy_json msg.cap)

  unfoldable pub handle_ping : Exec Kad (Unit {0})
  unfolding send
  handle_ping = send sender_ip sender_port (Body.pong env.own_cap)

  unfoldable pub handle_pong : Exec Kad (Unit {0})
  handle_pong = with_sender (λ id. table_add env.now id addr_ip addr_port)

  unfoldable pub track_seeker : Exec Kad (Unit {0})
  track_seeker = with_sender λ id. do
    modify (default_cap id (or_default (Json.obj Fields.end) (truthy_json msg.cap)))
    table_add env.now id addr_ip addr_port

  unfoldable pub handle_find_node : Exec Kad (Unit {0})
  unfolding send track_seeker
  handle_find_node = do
    track_seeker
    own ← gets (λ s. s.node_id)
    closest ← nearest (or_default own msg.target_id)
    send sender_ip sender_port (Body.found_nodes (map address closest) (some env.own_cap))

  unfoldable pub visit_entry : Entry → Exec Kad (Unit {0})
  visit_entry Entry.short = pure tt
  visit_entry (Entry.triple nid nip nport) = do
    own ← gets (λ s. s.node_id)
    if nid == own then pure tt else do
      modify (
          default_cap nid (
            Json.obj
              (Fields.field "ip" (Json.str nip) (Fields.field "port" (Json.num nport) Fields.end))))
      table_add env.now nid nip nport
      send nip nport (Body.find_node env.own_ip port own env.own_cap)

  unfoldable pub handle_found_nodes : Exec Kad (Unit {0})
  unfolding visit_entry
  handle_found_nodes = for_each visit_entry (or_default [] msg.nodes)

  -- STORE and VALUE: a missing value is None.
  unfoldable pub handle_store : Exec Kad (Unit {0})
  handle_store = if_some (λ key. modify (store_value key (or_default Json.null msg.value))) msg.key

  unfoldable pub answer : Option (String × Json) → Exec Kad (Unit {0})
  unfolding send
  answer (some (key, v)) = send sender_ip sender_port (Body.value key v)
  answer none = do
    own ← gets (λ s. s.node_id)
    closest ← nearest (or_default own (truthy_text msg.key))
    send sender_ip sender_port (Body.found_nodes (map address closest) none)

  unfoldable pub handle_find_value : Exec Kad (Unit {0})
  unfolding answer
  handle_find_value = do found ← gets (stored_value msg.key); answer found

  unfoldable pub handle_announce : Exec Kad (Unit {0})
  handle_announce = with_cap (λ cap.
      with_sender (λ id. do modify (learn_cap id cap); table_add env.now id addr_ip addr_port))

  unfoldable pub dispatch : String → Exec Kad (Unit {0})
  dispatch mtype =
      if mtype == "PING"
      then handle_ping
      else if mtype == "PONG"
      then handle_pong
      else if mtype == "FIND_NODE"
      then handle_find_node
      else if mtype == "FOUND_NODES"
      then handle_found_nodes
      else if mtype == "STORE"
      then handle_store
      else if mtype == "FIND_VALUE"
      then handle_find_value
      else if mtype == "VALUE"
      then handle_store
      else if mtype == "ANNOUNCE"
      then handle_announce
      else pure tt

  -- `_handle` before it looks at the type
  unfoldable pub meet : Exec Kad (Unit {0})
  meet = do
    with_sender (λ id. table_add env.now id sender_ip sender_port)
    with_cap (λ cap. with_sender (λ id. modify (learn_cap id cap)))

  unfoldable pub handle : Exec Kad (Unit {0})
  handle = do meet; dispatch msg.type

-- What the listener has received: a message, and the address that it came from.
pub record Datagram : Type 0 where
  pub env : Env
  pub msg : Message
  pub addr_ip : String
  pub addr_port : ℕ

-- `_listen_loop` over the messages that pass its filters: an exception is caught, and it goes on.
unfoldable pub listen : List Datagram → Kad → Kad
listen [] s = s
listen (d ∷ ds) s = listen ds (handle d.env d.msg d.addr_ip d.addr_port s).1
