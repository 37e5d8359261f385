-- ===== src/Swarm/Kademlia/Rounds.antt =====
-- swarm/kademlia_node.py: the public methods and the two loops keep the node's invariant.
use anp_edge_swarm.Base.Exec.{Keeps, modify}
use anp_edge_swarm.Base.Json.{Json}
use anp_edge_swarm.Base.{String, List, [], ◌∷◌}
use anp_edge_swarm.Swarm.Kbucket.{Node, evict_stale}
use anp_edge_swarm.Swarm.Kbucket.Table.{evict_stale-IsTable}
use anp_edge_swarm.Swarm.Kademlia.{Kad, Env, Datagram, listen, new_kad, stale_timeout}
use anp_edge_swarm.Swarm.Kademlia.Methods.{store, announce_self, ask_peer, ping_live, refresh}
use anp_edge_swarm.Swarm.Kademlia.Invariant.{IsKad, kad_rules, new_kad-IsKad, handle-IsKad}

ping_live-IsKad : (env : Env) (n : Node) → Keeps IsKad (ping_live env n)
unfolding ping_live
ping_live-IsKad env n = search kad_rules

evict-IsKad :
    (env : Env)
    → Keeps IsKad (
        modify
          (λ s. record s { routing_table = evict_stale env.now stale_timeout s.routing_table }))
unfolding modify evict_stale
evict-IsKad env = record {
  at = λ s h. record {
    table = evict_stale-IsTable env.now stale_timeout s.routing_table h.table;
    owner = h.owner;
  };
}

pub store-IsKad : (key : String) (v : Json) → Keeps IsKad (store key v)
unfolding store
store-IsKad key v = search kad_rules

pub announce_self-IsKad :
    (dumps : Json → String) (env : Env) → Keeps IsKad (announce_self dumps env)
unfolding announce_self
announce_self-IsKad dumps env = search (kad_rules, store-IsKad)

pub ask_peer-IsKad : (id : String) → Keeps IsKad (ask_peer id)
unfolding ask_peer
ask_peer-IsKad id = search kad_rules

-- A round of announcing, pinging and evicting keeps the table well formed, raising or not.
pub refresh-IsKad : (dumps : Json → String) (env : Env) → Keeps IsKad (refresh dumps env)
unfolding refresh
refresh-IsKad dumps env = search (kad_rules, announce_self-IsKad, ping_live-IsKad, evict-IsKad)

listen_induction : (ds : List Datagram) (s : Kad) → IsKad s → IsKad (listen ds s)
unfolding listen
listen_induction [] s h = h
listen_induction (d ∷ ds) s h =
    listen_induction ds _ ((handle-IsKad d.env d.msg d.addr_ip d.addr_port).at s h)

-- Whatever sequence of messages a new node receives, its routing table is well formed.
pub listen-IsKad : (id : String) (ds : List Datagram) → IsKad (listen ds (new_kad id))
listen-IsKad id ds = listen_induction ds (new_kad id) (new_kad-IsKad id)
