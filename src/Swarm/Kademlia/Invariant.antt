-- ===== src/Swarm/Kademlia/Invariant.antt =====
-- swarm/kademlia_node.py: whatever arrives, the routing table of the node stays well formed.
use anp_edge_swarm.Base.Exec.{modify, Keeps, keeps_rules}
use anp_edge_swarm.Base.Json.{Json}
use anp_edge_swarm.Base.{
  ℕ, String, ◌≡◌, ◌∙◌, refl, Option, none, some, Bool-cases, Option-cases, inl, inr,
}
use anp_edge_swarm.Dict
use anp_edge_swarm.Swarm.Kbucket.{new_table, add_node}
use anp_edge_swarm.Swarm.Kbucket.Table.{
  IsTable, add_node-IsTable, add_node-own_id, new_table-IsTable,
}
use anp_edge_swarm.Swarm.Kademlia.Messages.{Body, Message, Entry}
use anp_edge_swarm.Swarm.Kademlia.{
  Kad, Env, new_kad, send, store_value, learn_cap, default_cap, table_add, nearest, answer,
  handle_ping, handle_pong, handle_find_node, visit_entry, handle_found_nodes, handle_store,
  handle_find_value, handle_announce, dispatch, handle, meet,
}

-- The table is well formed, and it is the table of this node.
pub record IsKad (s : Kad) : Type 0 where
  pub table : IsTable s.routing_table
  pub owner : s.routing_table.own_id ≡ s.node_id

pub new_kad-IsKad : (id : String) → IsKad (new_kad id)
unfolding new_kad new_table
new_kad-IsKad id = record { table = new_table-IsTable id; owner = refl }

pub send-IsKad : (ip : String) (port : ℕ) (body : Body) → Keeps IsKad (send ip port body)
unfolding send modify
send-IsKad ip port body = record { at = λ s h. record { table = h.table; owner = h.owner } }

pub learn_cap-IsKad : (id : String) (cap : Json) → Keeps IsKad (modify (learn_cap id cap))
unfolding learn_cap modify
learn_cap-IsKad id cap = record { at = λ s h. record { table = h.table; owner = h.owner } }

pub store_value-IsKad : (id : String) (v : Json) → Keeps IsKad (modify (store_value id v))
unfolding store_value modify
store_value-IsKad id v = record { at = λ s h. record { table = h.table; owner = h.owner } }

pub default_cap-IsKad : (id : String) (cap : Json) → Keeps IsKad (modify (default_cap id cap))
unfolding default_cap learn_cap modify
default_cap-IsKad id cap = record {
  at = λ s h. elim (Bool-cases (Dict.has id s.known_peers)) [
    | inl old ↦ rw old h
    | inr new ↦ rw new (record { table = h.table; owner = h.owner })
  ];
}

pub table_add-IsKad : (now : ℕ) (id ip : String) (port : ℕ) → Keeps IsKad (table_add now id ip port)
unfolding table_add
table_add-IsKad now id ip port = record {
  at = λ s h. elim (Option-cases (add_node now id ip port s.routing_table)) [
    | inl gone ↦ rw (gone, table_add) h
    | inr (t, done) ↦
        rw (done, table_add)
          (record {
            table = add_node-IsTable now id ip port s.routing_table t h.table done;
            owner = add_node-own_id now id ip port s.routing_table t done ∙ h.owner;
          })
  ];
}

pub nearest-IsKad : (id : String) → Keeps IsKad (nearest id)
unfolding nearest
nearest-IsKad id = record { at = λ s h. h }

pub ruleset kad_rules = (
  keeps_rules, send-IsKad, learn_cap-IsKad, store_value-IsKad, default_cap-IsKad, table_add-IsKad,
  nearest-IsKad,
)

module _ (env : Env) (msg : Message) (ip : String) (port : ℕ) where
  handle_find_node-IsKad : Keeps IsKad (handle_find_node env msg ip port)
  unfolding handle_find_node
  handle_find_node-IsKad = search kad_rules

  visit_entry-IsKad : (e : Entry) → Keeps IsKad (visit_entry env msg ip port e)
  unfolding visit_entry
  visit_entry-IsKad Entry.short = search kad_rules
  visit_entry-IsKad (Entry.triple nid nip nport) = search kad_rules

  answer-IsKad : (o : Option (String × Json)) → Keeps IsKad (answer env msg ip port o)
  unfolding answer
  answer-IsKad none = search kad_rules
  answer-IsKad (some (key, v)) = search kad_rules

  handle_found_nodes-IsKad : Keeps IsKad (handle_found_nodes env msg ip port)
  unfolding handle_found_nodes
  handle_found_nodes-IsKad = search (kad_rules, visit_entry-IsKad)

  handle_find_value-IsKad : Keeps IsKad (handle_find_value env msg ip port)
  unfolding handle_find_value
  handle_find_value-IsKad = search (kad_rules, answer-IsKad)

  handle_store-IsKad : Keeps IsKad (handle_store env msg ip port)
  unfolding handle_store
  handle_store-IsKad = search kad_rules

  handle_announce-IsKad : Keeps IsKad (handle_announce env msg ip port)
  unfolding handle_announce
  handle_announce-IsKad = search kad_rules

  handle_ping-IsKad : Keeps IsKad (handle_ping env msg ip port)
  unfolding handle_ping
  handle_ping-IsKad = search kad_rules

  handle_pong-IsKad : Keeps IsKad (handle_pong env msg ip port)
  unfolding handle_pong
  handle_pong-IsKad = search kad_rules

  dispatch-IsKad : (mtype : String) → Keeps IsKad (dispatch env msg ip port mtype)
  unfolding dispatch
  dispatch-IsKad mtype =
      search
        (
          kad_rules, handle_ping-IsKad, handle_pong-IsKad, handle_find_node-IsKad,
          handle_found_nodes-IsKad, handle_store-IsKad, handle_find_value-IsKad,
          handle_announce-IsKad,
        )
        depth 10

  -- Whatever message is handled, raising or not, the routing table stays well formed.
  pub handle-IsKad : Keeps IsKad (handle env msg ip port)
  unfolding handle meet
  handle-IsKad = search (kad_rules, dispatch-IsKad)
