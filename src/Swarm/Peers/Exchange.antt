-- ===== src/Swarm/Peers/Exchange.antt =====
-- swarm/peer_server.py and swarm/peer_client.py: what an exchange leaves.
use anp_edge_swarm.Base.{
  ℕ, String, ◌≡◌, ◌∙◌, refl, ap, Bool, true, false, not, ◌&&◌, Option, none, some, List, [], ◌∷◌,
  ◌++◌, map, if◌then◌else◌, keep, All, Bool-cases, inl, inr,
}
use anp_edge_swarm.Base.Json.{truthy_text}
use anp_edge_swarm.Dict
use anp_edge_swarm.Dict.{Dict, has-put_kept, has-put_self, is_some}
use anp_edge_swarm.Swarm.Peers.{
  Sent, Peers, Known, exchange_round, connect_and_exchange, add_named, add_peer, get_known_nodes,
  decomposer_entry, entry_of,
}
use anp_edge_swarm.Ml.Decomposer.{Task, normalize_caps, node_can_run_task, needs_llm}

entries-action :
    (d : Dict Known)
    → All
        (λ (id, e). node_can_run_task Task.action (normalize_caps e).caps ≡ false)
        (map (λ (nid, k). (nid, decomposer_entry k)) d)
unfolding decomposer_entry normalize_caps node_can_run_task needs_llm
entries-action [] = tt
entries-action (k ∷ d) = (refl, entries-action d)

-- No peer that is known by an exchange of capabilities can run the action task, whatever it sent:
-- its benchmark is not kept, and the task requires one with a language model.
pub get_known_nodes-action :
    (s : Peers)
    → All
        (λ (id, e). node_can_run_task Task.action (normalize_caps e).caps ≡ false)
        (get_known_nodes s)
unfolding get_known_nodes
get_known_nodes-action s = entries-action s.known_nodes

module _ (now : ℕ) (answers : String → Option Sent) (sends : String → Bool) where
  -- The peer at the address answers, and the own capabilities are sent to it.
  abbrev pub responds : String → Bool
  responds ip = is_some (answers ip) && sends ip

  connect-responds :
      (ip : String) (o : Option Sent) (s : Peers)
      → (connect_and_exchange now ip o (sends ip) s).0 ≡ is_some o && sends ip
  unfolding connect_and_exchange
  connect-responds ip none s = refl
  connect-responds ip (some caps) s = elim (Bool-cases (sends ip)) [
    | inl e ↦ rw e refl
    | inr e ↦ rw e refl
  ]

  exchange_round-pending :
      (ips : List String) (s : Peers)
      → (exchange_round now answers sends ips s).0 ≡ keep (λ ip. not (responds ip)) ips
  unfolding exchange_round
  exchange_round-pending [] s = refl
  exchange_round-pending (ip ∷ ips) s =
      let later =
        exchange_round-pending ips (connect_and_exchange now ip (answers ip) (sends ip) s).1 in
      rw (connect-responds ip (answers ip) s, later)
        (swap_if (responds ip) (ip ∷ keep (λ i. not (responds i)) ips)
          (keep (λ i. not (responds i)) ips))
    where
      swap_if :
          (b : Bool) (xs ys : List String) → (if b then ys else xs) ≡ (if not b then xs else ys)
      swap_if true xs ys = refl
      swap_if false xs ys = refl

  add_named-has :
      (id addr : String) (o : Option String) (caps : Sent) (s : Peers)
      → Dict.has id s.known_nodes ≡ true
      → Dict.has id (add_named now o caps addr s).known_nodes ≡ true
  unfolding add_named add_peer
  add_named-has id addr none caps s h = h
  add_named-has id addr (some nid) caps s h =
      has-put_kept nid id (entry_of now nid caps addr) s.known_nodes h

  connect-has :
      (id ip : String) (o : Option Sent) (sent : Bool) (s : Peers)
      → Dict.has id s.known_nodes ≡ true
      → Dict.has id (connect_and_exchange now ip o sent s).1.known_nodes ≡ true
  unfolding connect_and_exchange
  connect-has id ip none sent s h = h
  connect-has id ip (some caps) false s h = h
  connect-has id ip (some caps) true s h = add_named-has id ip (truthy_text caps.node_id) caps s h

  exchange_round-has :
      (id : String) (ips : List String) (s : Peers)
      → Dict.has id s.known_nodes ≡ true
      → Dict.has id (exchange_round now answers sends ips s).1.known_nodes ≡ true
  unfolding exchange_round
  exchange_round-has id [] s h = h
  exchange_round-has id (ip ∷ ips) s h =
      exchange_round-has id ips _ (connect-has id ip (answers ip) (sends ip) s h)

  -- The peer answers with the id, which is not empty.
  abbrev pub Names : String → Option Sent → Type 0
  Names id none = ⊥
  Names id (some caps) = truthy_text caps.node_id ≡ some id

  connect-Names :
      (id ip : String) (o : Option Sent) (s : Peers)
      → Names id o
      → Dict.has id (connect_and_exchange now ip o true s).1.known_nodes ≡ true
  unfolding connect_and_exchange add_named add_peer
  connect-Names id ip none s h = absurd h
  connect-Names id ip (some caps) s h =
      rw h (has-put_self id (entry_of now id caps ip) s.known_nodes)

  -- A target that answers, gives its id and can be sent to is known by the id after the round; the
  -- targets that are left are those that did not answer or could not be sent to, in their order.
  pub exchange_round-IsKnown :
      (before after : List String) (ip id : String) (s : Peers)
      → Names id (answers ip)
      → sends ip ≡ true
      → let (pending, left) = exchange_round now answers sends (before ++ ip ∷ after) s in
        (Dict.has id left.known_nodes ≡ true)
        × (pending ≡ keep (λ i. not (responds i)) (before ++ ip ∷ after))
  unfolding exchange_round
  exchange_round-IsKnown before after ip id s names sent =
      (known before s, exchange_round-pending (before ++ ip ∷ after) s)
    where
      known :
          (before : List String) (s : Peers)
          → Dict.has id (exchange_round now answers sends (before ++ ip ∷ after) s).1.known_nodes
            ≡ true
      known [] s =
          let first : Dict.has id
                (connect_and_exchange now ip (answers ip) (sends ip) s).1.known_nodes
              ≡ true =
            ap (λ b. Dict.has id (connect_and_exchange now ip (answers ip) b s).1.known_nodes) sent
            ∙ connect-Names id ip (answers ip) s names in
          exchange_round-has id after _ first
      known (i ∷ before) s = known before (connect_and_exchange now i (answers i) (sends i) s).1
