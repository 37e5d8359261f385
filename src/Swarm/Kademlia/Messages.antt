-- ===== src/Swarm/Kademlia/Messages.antt =====
-- swarm/kademlia_node.py: the datagrams. A received message has each field or lacks it; a field of
-- another JSON type than the protocol's is not modelled.
use anp_edge_swarm.Base.{ℕ, String, Option, List}
pub use anp_edge_swarm.Base.Json.{Json}

-- An entry of `nodes`: fewer than three items, or an id, an address and a port.
pub data Entry : Type 0 where
  short : Entry
  triple : String → String → ℕ → Entry

pub record Message : Type 0 where
  pub type : String
  pub sender_id : Option String
  pub sender_ip : Option String
  pub sender_port : Option ℕ
  pub cap : Option Json
  pub target_id : Option String
  pub nodes : Option (List Entry)
  pub key : Option String
  pub value : Option Json

-- What the node sends. Every body also has the own id as `sender_id`.
pub data Body : Type 0 where
  ping : (sender_ip : String) (sender_port : ℕ) → Body
  pong : (cap : Json) → Body
  find_node : (sender_ip : String) (sender_port : ℕ) (target_id : String) (cap : Json) → Body
  found_nodes : (nodes : List (String × String × ℕ)) (cap : Option Json) → Body
  store : (key : String) (value : Json) → Body
  find_value : (key : String) → Body
  value : (key : String) (value : Json) → Body
  announce : (cap : Json) → Body

pub record Packet : Type 0 where
  pub ip : String
  pub port : ℕ
  pub body : Body
