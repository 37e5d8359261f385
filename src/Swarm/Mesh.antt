-- ===== src/Swarm/Mesh.antt =====
-- swarm/bluetooth_mesh.py: `BluetoothMesh`. The transport is the list of messages given to
-- `send_message`, a handler's call is an entry of `delivered`, and `uuid4` and `time.time()` are
-- arguments. What a handler itself does is not modelled, nor that it may raise.
pub mod Relay
pub mod Seen
use anp_edge_swarm.Base.Exec.{Exec, pure, gets, modify, if_some, ◌>>=◌, ◌>>◌}
use anp_edge_swarm.Base.Json.{Json, truthy_text}
use anp_edge_swarm.Base.{
  ℕ, ◌+◌, ◌-◌, ltb, String, ◌==◌, Bool, true, false, not, ◌&&◌, ◌||◌, Option, none, some, List, [],
  ◌∷◌, ◌++◌, any, if◌then◌else◌,
}
use anp_edge_swarm.Dict
use anp_edge_swarm.Dict.{Dict, or_default}

abbrev pub max_hops : ℕ
max_hops = 5

abbrev pub seen_cache_ttl : ℕ
seen_cache_ttl = 60

-- A message as it is read from the wire: each field may be missing.
pub record Msg : Type 0 where
  pub msg_id : Option String
  pub type : Option String
  pub origin : Option String
  pub destination : Option String
  pub hop_count : Option ℕ
  pub hop_limit : Option ℕ
  pub payload : Option Json
  pub seen_by : Option (List String)
  pub timestamp : Option ℕ

pub record Delivery : Type 0 where
  pub msg_type : String
  pub payload : Json
  pub from_address : String

pub record Mesh : Type 0 where
  pub node_id : String
  pub seen : Dict ℕ
  pub handlers : List String
  pub sent : List Msg
  pub delivered : List Delivery

-- _clean_seen
unfoldable pub clean_seen : ℕ → Mesh → Mesh
clean_seen now s = record s { seen = Dict.keep_items (λ _ v. ltb (now - v) seen_cache_ttl) s.seen }

-- _is_seen: it cleans the cache first.
unfoldable pub is_seen : ℕ → String → Exec Mesh Bool
is_seen now msg_id = do modify (clean_seen now); gets (λ s. Dict.has msg_id s.seen)

-- _mark_seen
unfoldable pub mark_seen : ℕ → String → Mesh → Mesh
mark_seen now msg_id s = record s { seen = Dict.put msg_id now s.seen }

unfoldable pub register_handler : String → Mesh → Mesh
register_handler msg_type s = record s { handlers = s.handlers ++ msg_type ∷ [] }

unfoldable pub send_message : Msg → Mesh → Mesh
send_message msg s = record s { sent = s.sent ++ msg ∷ [] }

-- the envelope that `broadcast` builds
unfoldable pub envelope : (now : ℕ) (uuid own : String) → String → Json → String → Msg
envelope now uuid own msg_type payload destination = record {
  msg_id = some uuid;
  type = some msg_type;
  origin = some own;
  destination = some destination;
  hop_count = some 0;
  hop_limit = some max_hops;
  payload = some payload;
  seen_by = some (own ∷ []);
  timestamp = some now;
}

unfoldable pub broadcast : (now : ℕ) (uuid : String) → String → Json → String → Mesh → Mesh
unfolding mark_seen send_message
broadcast now uuid msg_type payload destination s =
    send_message (envelope now uuid s.node_id msg_type payload destination) (mark_seen now uuid s)

-- `msg[key]` of a field that is missing is a KeyError.
unfoldable pub require : {S A : Type 0} → Option A → Exec S A
require o s = (o, s)

unfoldable pub add_delivery : Delivery → Mesh → Mesh
add_delivery d s = record s { delivered = s.delivered ++ d ∷ [] }

-- handler(msg["payload"], from_address)
unfoldable pub call_handler : Msg → String → String → Exec Mesh (Unit {0})
unfolding require add_delivery
call_handler msg msg_type from_address = do
  payload ← require msg.payload
  modify (
      add_delivery (record { msg_type = msg_type; payload = payload; from_address = from_address }))

unfoldable pub deliver : Msg → String → Exec Mesh (Unit {0})
unfolding call_handler
deliver msg from_address =
    if_some
      (λ t. do
        known ← gets (λ s. any (λ h. h == t) s.handlers)
        if known then call_handler msg t from_address else pure tt)
      msg.type

unfoldable pub add_self : String → List String → List String
add_self own seen_by = if any (λ n. n == own) seen_by then seen_by else seen_by ++ own ∷ []

unfoldable pub relay : Msg → Exec Mesh (Unit {0})
unfolding require add_self send_message
relay msg = do
  own ← gets (λ s. s.node_id)
  hops ← require msg.hop_count
  seen_by ← require msg.seen_by
  modify (
      send_message
        (record msg { hop_count = some (hops + 1); seen_by = some (add_self own seen_by) }))

abbrev pub destination_of : Msg → String
destination_of msg = or_default "ALL" msg.destination

-- hop_count < max_hops, and the message is not only for this node
abbrev pub may_relay : String → Msg → Bool
may_relay own msg =
    ltb (or_default 0 msg.hop_count) (or_default max_hops msg.hop_limit)
    && not (destination_of msg == own)

-- _on_receive of a message that could be decoded
unfoldable pub process : Msg → String → Exec Mesh (Unit {0})
unfolding deliver relay
process msg from_address = do
  own ← gets (λ s. s.node_id)
  if destination_of msg == "ALL" || destination_of msg == own
      then deliver msg from_address
      else pure tt
  if may_relay own msg then relay msg else pure tt

unfoldable pub on_receive : (now : ℕ) → Msg → String → Exec Mesh (Unit {0})
unfolding is_seen mark_seen process
on_receive now msg from_address =
    if_some
      (λ msg_id. do
        seen ← is_seen now msg_id
        if seen then pure tt else do modify (mark_seen now msg_id); process msg from_address)
      (truthy_text msg.msg_id)
