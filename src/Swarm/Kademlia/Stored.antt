-- ===== src/Swarm/Kademlia/Stored.antt =====
-- swarm/kademlia_node.py: a stored value stays, whatever other messages are handled.
use anp_edge_swarm.Base.Exec.{Exec, if_some, Keeps, Keeps-if, Keeps-pure, keeps_rules, modify}
use anp_edge_swarm.Base.Json.{Json}
use anp_edge_swarm.Base.{
  ℕ, String, ◌≡◌, ◌≢◌, ◌⊎◌, inl, inr, ◌==◌, eq_iff, ◌∙◌, refl, ap, Bool, true, false, none, some,
  Option, List, [], ◌∷◌, ◌++◌, All, if◌then◌else◌, arith,
}
use anp_edge_swarm.Swarm.Kademlia.Messages.{Body, Message, Entry}
use anp_edge_swarm.Swarm.Kademlia.{
  Kad, Env, Datagram, store_value, learn_cap, default_cap, table_add, meet, send, nearest, answer,
  handle_ping, handle_pong, handle_find_node, handle_found_nodes, handle_store, handle_find_value,
  handle_announce, track_seeker, visit_entry, dispatch, handle, listen,
}
use anp_edge_swarm.Swarm.Kademlia.Replies.{to_sender, handle-store, handle-find_value}
use anp_edge_swarm.Dict
use anp_edge_swarm.Dict.{or_default, get-put, get-put_self}

-- The message stores nothing under the key.
abbrev pub Spares : String → Datagram → Type 0
Spares key d = (d.msg.type ≡ "STORE") ⊎ (d.msg.type ≡ "VALUE") → d.msg.key ≢ some key

Keeps-if_true :
    {S A : Type 0} {P : S → Type 0} {m n : Exec S A} (b : Bool)
    → (b ≡ true → Keeps P m)
    → Keeps P n
    → Keeps P (if b then m else n)
Keeps-if_true true h k = h refl
Keeps-if_true false h k = k

module _ (key : String) (o : Option Json) where
  -- What is stored under the key.
  abbrev Stored : Kad → Type 0
  Stored s = Dict.get key s.storage ≡ o

  send-Stored : (ip : String) (port : ℕ) (body : Body) → Keeps Stored (send ip port body)
  unfolding send modify
  send-Stored ip port body = record { at = λ s h. h }

  table_add-Stored : (now : ℕ) (id ip : String) (port : ℕ) → Keeps Stored (table_add now id ip port)
  unfolding table_add
  table_add-Stored now id ip port = record { at = λ s h. ground (arith, h) }

  learn_cap-Stored : (id : String) (cap : Json) → Keeps Stored (modify (learn_cap id cap))
  unfolding learn_cap modify
  learn_cap-Stored id cap = record { at = λ s h. h }

  default_cap-Stored : (id : String) (cap : Json) → Keeps Stored (modify (default_cap id cap))
  unfolding default_cap learn_cap modify
  default_cap-Stored id cap = record { at = λ s h. ground (arith, h) }

  nearest-Stored : (target : String) → Keeps Stored (nearest target)
  unfolding nearest
  nearest-Stored target = record { at = λ s h. h }

  ruleset stored_rules = (
    keeps_rules, send-Stored, table_add-Stored, learn_cap-Stored, default_cap-Stored,
    nearest-Stored,
  )

  store-Stored :
      (v : Json) (k : Option String)
      → k ≢ some key
      → Keeps Stored (if_some (λ (x : String). modify (store_value x v)) k)
  unfolding if_some modify store_value
  store-Stored v none h = Keeps-pure tt
  store-Stored v (some x) h = record {
    at = λ s e.
        let differ : (x == key) ≡ false = ground (arith, eq_iff x key, differs x h) in
        get-put x key v s.storage ∙ rw differ e;
  }
    where
      differs : (x : String) → some x ≢ some key → x ≢ key
      differs x h same = h (ap (λ y. some y) same)

  module _ (env : Env) (msg : Message) (ip : String) (port : ℕ) where
    meet-Stored : Keeps Stored (meet env msg ip port)
    unfolding meet
    meet-Stored = search stored_rules

    ping-Stored : Keeps Stored (handle_ping env msg ip port)
    unfolding handle_ping
    ping-Stored = search stored_rules

    pong-Stored : Keeps Stored (handle_pong env msg ip port)
    unfolding handle_pong
    pong-Stored = search stored_rules

    track_seeker-Stored : Keeps Stored (track_seeker env msg ip port)
    unfolding track_seeker
    track_seeker-Stored = search stored_rules

    find_node-Stored : Keeps Stored (handle_find_node env msg ip port)
    unfolding handle_find_node
    find_node-Stored = search (stored_rules, track_seeker-Stored)

    visit_entry-Stored : (e : Entry) → Keeps Stored (visit_entry env msg ip port e)
    unfolding visit_entry
    visit_entry-Stored Entry.short = Keeps-pure tt
    visit_entry-Stored (Entry.triple nid nip nport) = search stored_rules

    found_nodes-Stored : Keeps Stored (handle_found_nodes env msg ip port)
    unfolding handle_found_nodes
    found_nodes-Stored = search (stored_rules, visit_entry-Stored)

    answer-Stored : (found : Option (String × Json)) → Keeps Stored (answer env msg ip port found)
    unfolding answer
    answer-Stored (some (k, v)) = search stored_rules
    answer-Stored none = search stored_rules

    find_value-Stored : Keeps Stored (handle_find_value env msg ip port)
    unfolding handle_find_value
    find_value-Stored = search (stored_rules, answer-Stored)

    announce-Stored : Keeps Stored (handle_announce env msg ip port)
    unfolding handle_announce
    announce-Stored = search stored_rules

    dispatch-Stored :
        (mtype : String)
        → ((mtype ≡ "STORE") ⊎ (mtype ≡ "VALUE") → msg.key ≢ some key)
        → Keeps Stored (dispatch env msg ip port mtype)
    unfolding dispatch handle_store
    dispatch-Stored mtype spare = Keeps-if _ ping-Stored (
        Keeps-if _ pong-Stored (
          Keeps-if _ find_node-Stored (
            Keeps-if _ found_nodes-Stored (
              Keeps-if_true (mtype == "STORE")
                (λ e. store-Stored _ msg.key (spare (inl ((eq_iff mtype "STORE").0 e))))
                (Keeps-if _ find_value-Stored (
                  Keeps-if_true (mtype == "VALUE")
                    (λ e. store-Stored _ msg.key (spare (inr ((eq_iff mtype "VALUE").0 e))))
                    (Keeps-if _ announce-Stored (Keeps-pure tt))))))))

  handle-Stored :
      (d : Datagram) → Spares key d → Keeps Stored (handle d.env d.msg d.addr_ip d.addr_port)
  unfolding handle
  handle-Stored d spare = search (
    keeps_rules,
    meet-Stored d.env d.msg d.addr_ip d.addr_port,
    dispatch-Stored d.env d.msg d.addr_ip d.addr_port d.msg.type spare,
  )

  listen-Stored :
      (ds : List Datagram) (s : Kad) → All (Spares key) ds → Stored s → Stored (listen ds s)
  unfolding listen
  listen-Stored [] s k h = h
  listen-Stored (d ∷ ds) s k h = listen-Stored ds _ k.1 ((handle-Stored d k.0).at s h)

-- What a node stores by a STORE, a later FIND_VALUE for the key is answered with, after whatever
-- messages in between that store nothing under the key, raising or not, if the two themselves do
-- not raise.
pub store_find :
    (env env' : Env) (m m' : Message) (ip ip' : String) (port port' : ℕ) (ds : List Datagram)
    (s : Kad) (key : String)
    → m.type ≡ "STORE"
    → m.key ≡ some key
    → m'.type ≡ "FIND_VALUE"
    → m'.key ≡ some key
    → All (Spares key) ds
    → (handle env m ip port s).0 ≡ some tt
    → let before = listen ds (handle env m ip port s).1 in
      (handle env' m' ip' port' before).0 ≡ some tt
      → (handle env' m' ip' port' before).1.sent
        ≡ before.sent
          ++ to_sender env' m' ip' port' (Body.value key (or_default Json.null m.value)) ∷ []
store_find env env' m m' ip ip' port port' ds s key is_store k1 is_find k2 spared r1 r2 =
    handle-find_value env' m' ip' port' (listen ds (handle env m ip port s).1) key _ is_find k2
      (listen-Stored key _ ds (handle env m ip port s).1 spared (
        ap (Dict.get key) (handle-store env m ip port s key is_store k1 r1)
        ∙ get-put_self key (or_default Json.null m.value) s.storage))
      r2
