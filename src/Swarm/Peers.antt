-- ===== src/Swarm/Peers.antt =====
-- swarm/peer_server.py, swarm/peer_client.py, swarm/peer_registry.py, swarm/capability.py and
-- `register_peer` of swarm/dht_discovery.py: how a node comes to know others. What a socket
-- delivers is an argument. Memory is in tenths of a gigabyte where the roles are chosen.
pub mod Exchange
use anp_edge_swarm.Base.{
  ℕ, ◌-◌, ltb, leb, String, ◌==◌, Bool, true, false, not, ◌||◌, Option, none, some, List, [], ◌∷◌,
  ◌++◌, map, if◌then◌else◌, any, keep,
}
use anp_edge_swarm.Base.Json.{truthy_text}
use anp_edge_swarm.Dict
use anp_edge_swarm.Dict.{Dict, or_default}
use anp_edge_swarm.Ml.Decomposer.{Benchmark, Caps, Entry, no_caps}

-- The capabilities that a peer sends.
pub record Sent : Type 0 where
  pub node_id : Option String
  pub ram_gb : Option ℕ
  pub cpu_cores : Option ℕ
  pub roles : Option (List String)
  pub os : Option String
  pub ollama_running : Bool
  pub benchmark : Option Benchmark

-- An entry of `_known_nodes`; "roles" and "caps" have the same roles.
pub record Known : Type 0 where
  pub node_id : String
  pub ram_gb : ℕ
  pub cpu_cores : ℕ
  pub roles : List String
  pub os : String
  pub addr : String
  pub last_seen : ℕ

-- `_known_nodes`, and the peers of the Kademlia node into which each entry is mirrored.
pub record Peers : Type 0 where
  pub known_nodes : Dict Known
  pub dht_peers : Dict Known

abbrev pub worker_only : List String
worker_only = "worker" ∷ []

abbrev entry_of : (now : ℕ) → String → Sent → (addr : String) → Known
entry_of now node_id caps addr = record {
  node_id = node_id;
  ram_gb = or_default 0 caps.ram_gb;
  cpu_cores = or_default 0 caps.cpu_cores;
  roles = or_default worker_only caps.roles;
  os = or_default "" caps.os;
  addr = addr;
  last_seen = now;
}

-- `_add_peer`
unfoldable pub add_peer : (now : ℕ) → String → Sent → (addr : String) → Peers → Peers
add_peer now node_id caps addr s =
    let entry = entry_of now node_id caps addr in
    record {
      known_nodes = Dict.put node_id entry s.known_nodes;
      dht_peers = Dict.put node_id entry s.dht_peers;
    }

abbrev pub add_named : (now : ℕ) → Option String → Sent → (addr : String) → Peers → Peers
unfolding add_peer
add_named now none caps addr s = s
add_named now (some node_id) caps addr s = add_peer now node_id caps addr s

-- `_handle_client`; `none` is no data, too much of it, or no JSON.
unfoldable pub handle_client : (now : ℕ) (addr : String) → Option Sent → Peers → Peers
unfolding add_named
handle_client now addr none s = s
handle_client now addr (some caps) s = add_named now (truthy_text caps.node_id) caps addr s

-- `connect_and_exchange`, with whether a peer answered; `none` is no connection, no data, no JSON, or
-- an empty object. The send comes after the read: where it
-- fails the peer is not registered.
unfoldable pub connect_and_exchange :
    (now : ℕ) (ip : String) → Option Sent → (sends : Bool) → Peers → Bool × Peers
unfolding add_named
connect_and_exchange now ip none sends s = (false, s)
connect_and_exchange now ip (some caps) sends s =
    if sends then (true, add_named now (truthy_text caps.node_id) caps ip s) else (false, s)

module _ (now : ℕ) (answers : String → Option Sent) (sends : String → Bool) where
  -- One round of `_exchange_loop`, with the targets that are left.
  unfoldable pub exchange_round : List String → Peers → List String × Peers
  unfolding connect_and_exchange
  exchange_round [] s = ([], s)
  exchange_round (ip ∷ rest) s =
      let (answered, s') = connect_and_exchange now ip (answers ip) (sends ip) s in
      let (pending, s'') = exchange_round rest s' in
      (if answered then pending else ip ∷ pending, s'')

-- `exchange_with_all` leaves out the own address.
unfoldable pub targets : (own : String) → List String → List String
targets own ips = keep (λ ip. not (ip == own)) ips

-- What the decomposer reads of an entry: it has no benchmark, no models and no running Ollama.
unfoldable pub decomposer_entry : Known → Entry
decomposer_entry k = record {
  flat = record no_caps { roles = k.roles };
  inner = some (record no_caps { ram_gb = k.ram_gb; cpu_cores = k.cpu_cores; roles = k.roles });
  ip = "";
  addr = some k.addr;
}

-- `get_known_nodes`, as the decomposer reads it.
unfoldable pub get_known_nodes : Peers → Dict Entry
unfolding decomposer_entry
get_known_nodes s = map (λ (nid, k). (nid, decomposer_entry k)) s.known_nodes

-- The roles of `get_capabilities`.
unfoldable pub detect_roles : (ram_tenths : ℕ) (ollama mobile gpu : Bool) → List String
detect_roles ram ollama mobile gpu =
    (if leb 80 ram
      then "brain" ∷ "worker" ∷ []
      else if leb 40 ram
      then "worker" ∷ []
      else "sensor" ∷ [])
    ++ (if ollama then "inference" ∷ [] else [])
    ++ (if mobile then "mobile" ∷ [] else [])
    ++ (if gpu then "gpu" ∷ [] else [])

-- `PeerRegistry`
pub record Registered : Type 0 where
  pub addr : String
  pub roles : List String
  pub last_seen : ℕ

unfoldable pub register :
    (now : ℕ) → String → Option (List String) → (addr : String) → Dict Registered → Dict Registered
register now node_id roles addr peers =
    Dict.put node_id (record { addr = addr; roles = or_default worker_only roles; last_seen = now })
      peers

unfoldable pub get_workers : Dict Registered → List Registered
get_workers peers = keep (λ v. any (λ r. r == "worker") v.roles) (Dict.values peers)

unfoldable pub evict_stale : (now timeout : ℕ) → Dict Registered → Dict Registered
evict_stale now timeout peers = Dict.keep_items (λ k v. not (ltb timeout (now - v.last_seen))) peers
