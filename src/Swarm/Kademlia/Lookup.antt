-- ===== src/Swarm/Kademlia/Lookup.antt =====
-- swarm/kademlia_node.py: the answer to FIND_NODE, and messages of a sender whose id is no number.
use anp_edge_swarm.Base.Exec.{
  Exec, if_some, bind_returns, bind_raises, Keeps, keeps_rules, ◌>>=◌, gets,
}
use anp_edge_swarm.Base.Json.{truthy_text}
use anp_edge_swarm.Base.{
  ℕ, String, ◌≡◌, ◌≢◌, ◌∙◌, refl, sym, ap, subst, true, some, none, Option, List, [], ◌∷◌, ◌++◌,
  arith, map, Option-cases, inl, inr, eq_iff,
}
use anp_edge_swarm.Dict.{or_default}
use anp_edge_swarm.Swarm.Kbucket.{
  Node, RoutingTable, k, all_nodes, find_closest, add_node, parse_hex, bucket_index, xor_distance,
}
use anp_edge_swarm.Swarm.Kbucket.Malformed.{has_foreign, parse_hex-foreign}
use anp_edge_swarm.Swarm.Kbucket.Closest.{IsNearest, find_closest-IsNearest}
use anp_edge_swarm.Swarm.Kademlia.Messages.{Body, Packet, Message}
use anp_edge_swarm.Swarm.Kademlia.{
  Kad, Env, meet, table_add, sender_ip, sender_port, send, nearest, address, track_seeker,
  handle_find_node, handle, dispatch,
}
use anp_edge_swarm.Swarm.Kademlia.Replies.{
  SameStore, table_add-SameStore, default_cap-SameStore, to_sender, handle_by, dispatch-find_node,
}

module _ (env : Env) (msg : Message) (ip : String) (port : ℕ) where
  track_seeker-SameStore : (s : Kad) → SameStore s.storage s.sent (track_seeker env msg ip port s).1
  unfolding track_seeker
  track_seeker-SameStore s =
      let m : Keeps (SameStore s.storage s.sent) (track_seeker env msg ip port) = search (
        keeps_rules,
        table_add-SameStore s.storage s.sent,
        default_cap-SameStore s.storage s.sent,
      ) in
      m.at s (record { storage_eq = refl; sent_eq = refl })

  abbrev reply : Option String → Exec Kad (Unit {0})
  reply wanted = do
    own ← gets (λ s. s.node_id)
    closest ← nearest (or_default own wanted)
    send (sender_ip env msg ip port) (sender_port env msg ip port)
        (Body.found_nodes (map address closest) (some env.own_cap))

  -- What a FIND_NODE is answered with: up to 20 nodes of the table, nearest to the target.
  pub record IsAnswered (target : String) (sent : List Packet) (s : Kad) : Type 0 where
    pub found : List Node
    pub rest : List Node
    pub nearest_first : IsNearest target k (all_nodes s.routing_table) found rest
    pub one_packet :
        s.sent
        ≡ sent
          ++ to_sender env msg ip port (Body.found_nodes (map address found) (some env.own_cap))
            ∷ []

  reply-IsAnswered :
      (target : String) (t : Kad)
      → (reply (some target) t).0 ≡ some tt
      → IsAnswered target t.sent (reply (some target) t).1
  unfolding ◌>>=◌ nearest send
  reply-IsAnswered target t h = elim (Option-cases (find_closest target k t.routing_table)) [
    | inl gone ↦ absurd (let e : none ≡ some tt = rw gone at h in cc)
    | inr (found, e) ↦
        let (rest, near) = find_closest-IsNearest target k t.routing_table found e in
        rw e (record { found = found; rest = rest; nearest_first = near; one_packet = refl })
  ]

  handle_find_node-IsAnswered :
      (target : String) (t : Kad)
      → msg.target_id ≡ some target
      → (handle_find_node env msg ip port t).0 ≡ some tt
      → IsAnswered target t.sent (handle_find_node env msg ip port t).1
  unfolding handle_find_node
  handle_find_node-IsAnswered target t wanted h =
      let (a, tracked, e) =
        bind_returns (track_seeker env msg ip port) (λ _. reply msg.target_id) t h in
      let same : handle_find_node env msg ip port t
          ≡ reply (some target) (track_seeker env msg ip port t).1 =
        e ∙ ap (λ (o : Option String). reply o (track_seeker env msg ip port t).1) wanted in
      let t' = (track_seeker env msg ip port t).1 in
      subst (λ (r : Option (Unit {0}) × Kad). IsAnswered target t.sent r.1) (sym same)
        (subst (λ l. IsAnswered target l (reply (some target) t').1)
          (track_seeker-SameStore t).sent_eq
          (reply-IsAnswered target t' (ap (λ (r : Option (Unit {0}) × Kad). r.0) (sym same) ∙ h)))

  -- A FIND_NODE that is handled without an exception is answered with one packet to the sender:
  -- at most 20 nodes of the routing table, nearest to the target, the nearest first.
  pub handle-find_node :
      (s : Kad) (target : String)
      → msg.type ≡ "FIND_NODE"
      → msg.target_id ≡ some target
      → (handle env msg ip port s).0 ≡ some tt
      → IsAnswered target s.sent (handle env msg ip port s).1
  handle-find_node s target is_find wanted h =
      let (t, same, e) =
        handle_by env msg ip port s "FIND_NODE" (handle_find_node env msg ip port) is_find
          (dispatch-find_node env msg ip port) h in
      subst (λ (r : Option (Unit {0}) × Kad). IsAnswered target s.sent r.1) (sym e)
        (subst (λ l. IsAnswered target l (handle_find_node env msg ip port t).1) same.sent_eq
          (handle_find_node-IsAnswered target t wanted
            (ap (λ (r : Option (Unit {0}) × Kad). r.0) (sym e) ∙ h)))

add_node-not_hex :
    (now : ℕ) (id ip : String) (port : ℕ) (t : RoutingTable)
    → id ≢ t.own_id
    → parse_hex id ≡ none
    → add_node now id ip port t ≡ none
unfolding add_node bucket_index xor_distance
add_node-not_hex now id ip port t foreign bad = ground (arith, eq_iff id t.own_id)

module _ (env : Env) (msg : Message) (ip : String) (port : ℕ) (s : Kad) (id : String) where
  table_add-not_hex :
      id ≢ s.routing_table.own_id
      → parse_hex id ≡ none
      → table_add env.now id (sender_ip env msg ip port) (sender_port env msg ip port) s ≡ (none, s)
  unfolding table_add
  table_add-not_hex foreign bad =
      ap
        (λ (o : Option RoutingTable). elim o as (λ _. Option (Unit {0}) × Kad) [
          | none ↦ (none, s)
          | some t ↦ (some tt, record s { routing_table = t })
        ])
        (add_node-not_hex env.now id (sender_ip env msg ip port) (sender_port env msg ip port)
          s.routing_table foreign bad)

  -- A message whose sender id is not the own id and has a character that no number has (printable
  -- ASCII, but no hexadecimal digit, sign, underscore or x) raises before it has changed anything or
  -- sent anything, whatever its type.
  pub handle-malformed :
      truthy_text msg.sender_id ≡ some id
      → id ≢ s.routing_table.own_id
      → has_foreign id ≡ true
      → handle env msg ip port s ≡ (none, s)
  unfolding handle meet if_some
  handle-malformed sender foreign bad =
      bind_raises (meet env msg ip port) (λ _. dispatch env msg ip port msg.type) s s
        (bind_raises _ _ s s (
          ap
            (λ (o : Option String).
              if_some
                (λ (x : String).
                  table_add env.now x (sender_ip env msg ip port) (sender_port env msg ip port))
                o s)
            sender
          ∙ table_add-not_hex foreign (parse_hex-foreign id bad)))
