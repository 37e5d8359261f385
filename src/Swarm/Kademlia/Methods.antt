-- ===== src/Swarm/Kademlia/Methods.antt =====
-- swarm/kademlia_node.py: the public methods of `KademliaNode` and one round of `_refresh_loop`.
-- `find_peer` is two steps, before and after its wait of two seconds, in which other steps run.
use anp_edge_swarm.Base.Exec.{Exec, pure, modify, gets, for_each, ◌>>=◌, ◌>>◌}
use anp_edge_swarm.Base.Json.{Json, Fields, Items, get_field}
use anp_edge_swarm.Base.{ℕ, ◌-◌, ltb, String, Option, none, some, map, if◌then◌else◌}
use anp_edge_swarm.Dict
use anp_edge_swarm.Dict.{Dict, or_default}
use anp_edge_swarm.Swarm.Kbucket.{Node, all_nodes, evict_stale}
use anp_edge_swarm.Swarm.Kademlia.Messages.{Body}
use anp_edge_swarm.Swarm.Kademlia.{Kad, Env, port, stale_timeout, send, store_value, nearest}

unfoldable pub send_store : String → Json → Node → Exec Kad (Unit {0})
unfolding send
send_store key value n = send n.ip n.port (Body.store key value)

-- store(key, value_str)
unfoldable pub store : String → Json → Exec Kad (Unit {0})
unfolding send_store for_each
store key value = do
  modify (store_value key value)
  closest ← nearest key
  for_each (send_store key value) closest

unfoldable pub send_announce : Json → Node → Exec Kad (Unit {0})
unfolding send
send_announce cap n = send n.ip n.port (Body.announce cap)

-- announce_self(). `dumps` is json.dumps, and its text is the stored value.
unfoldable pub announce_self : (dumps : Json → String) → Env → Exec Kad (Unit {0})
unfolding send_announce for_each
announce_self dumps env = do
  nodes ← gets (λ s. all_nodes s.routing_table)
  for_each (send_announce env.own_cap) nodes
  own ← gets (λ s. s.node_id)
  store own (Json.str (dumps env.own_cap))

unfoldable pub send_find_value : String → Node → Exec Kad (Unit {0})
unfolding send
send_find_value key n = send n.ip n.port (Body.find_value key)

-- find_peer(node_id) up to its wait
unfoldable pub ask_peer : String → Exec Kad (Unit {0})
unfolding send_find_value for_each
ask_peer node_id = do closest ← nearest node_id; for_each (send_find_value node_id) closest

-- find_peer(node_id) after its wait. `loads` is json.loads, with `none` for an exception.
unfoldable pub peer_answer : (loads : Json → Option Json) → String → Kad → Json
peer_answer loads node_id s = elim (Dict.get node_id s.storage) [
  | none ↦ Json.obj Fields.end
  | some Json.null ↦ Json.obj Fields.end
  | some (Json.obj caps) ↦ Json.obj caps
  | some raw ↦ or_default (Json.obj Fields.end) (loads raw)
]

pub record PeerInfo : Type 0 where
  pub node_id : String
  pub caps : Json
  pub addr : Json
  pub roles : Json
  pub last_seen : ℕ

unfoldable pub peer_info : ℕ → String → Json → PeerInfo
peer_info now node_id caps = record {
  node_id = node_id;
  caps = caps;
  addr = or_default (Json.str "unknown") (get_field "ip" caps);
  roles = or_default (Json.arr (Items.cons (Json.str "worker") Items.nil)) (get_field "roles" caps);
  last_seen = now;
}

-- get_all_peers()
unfoldable pub get_all_peers : ℕ → Kad → Dict PeerInfo
get_all_peers now s = map (λ (id, caps). (id, peer_info now id caps)) s.known_peers

unfoldable pub ping_live : Env → Node → Exec Kad (Unit {0})
unfolding send
ping_live env n =
    if ltb stale_timeout (env.now - n.last_seen)
    then pure tt
    else send n.ip n.port (Body.ping env.own_ip port)

-- One round of `_refresh_loop` after its wait.
unfoldable pub refresh : (dumps : Json → String) → Env → Exec Kad (Unit {0})
unfolding ping_live for_each
refresh dumps env = do
  announce_self dumps env
  nodes ← gets (λ s. all_nodes s.routing_table)
  for_each (ping_live env) nodes
  modify (λ s. record s { routing_table = evict_stale env.now stale_timeout s.routing_table })
