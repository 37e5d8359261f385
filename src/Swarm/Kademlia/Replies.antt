-- ===== src/Swarm/Kademlia/Replies.antt =====
-- swarm/kademlia_node.py: what the handler answers.
use anp_edge_swarm.Base.Exec.{Exec, if_some, bind_returns, Keeps, keeps_rules, modify, ◌>>=◌}
use anp_edge_swarm.Base.Json.{Json}
use anp_edge_swarm.Base.{ℕ, String, ◌≡◌, ◌∙◌, refl, ap, some, Option, List, [], ◌∷◌, ◌++◌, arith}
use anp_edge_swarm.Swarm.Kademlia.Messages.{Body, Packet, Message}
use anp_edge_swarm.Swarm.Kademlia.{
  Kad, Env, store_value, learn_cap, default_cap, table_add, meet, sender_ip, sender_port, answer,
  handle_find_node, handle_store, handle_find_value, dispatch, handle, stored_value,
}
use anp_edge_swarm.Dict
use anp_edge_swarm.Dict.{Dict, or_default, get-put_self}

-- What the first part of the handler leaves alone.
pub record SameStore (storage : Dict Json) (sent : List Packet) (s : Kad) : Type 0 where
  pub storage_eq : s.storage ≡ storage
  pub sent_eq : s.sent ≡ sent

module _ (storage : Dict Json) (sent : List Packet) where
  pub table_add-SameStore :
      (now : ℕ) (id ip : String) (port : ℕ)
      → Keeps (SameStore storage sent) (table_add now id ip port)
  unfolding table_add
  table_add-SameStore now id ip port = record {
    at = λ s h. ground (arith, h.storage_eq, h.sent_eq);
  }

  learn_cap-SameStore :
      (id : String) (cap : Json) → Keeps (SameStore storage sent) (modify (learn_cap id cap))
  unfolding learn_cap modify
  learn_cap-SameStore id cap = record {
    at = λ s h. record { storage_eq = h.storage_eq; sent_eq = h.sent_eq };
  }

  pub default_cap-SameStore :
      (id : String) (cap : Json) → Keeps (SameStore storage sent) (modify (default_cap id cap))
  unfolding default_cap learn_cap modify
  default_cap-SameStore id cap = record { at = λ s h. ground (arith, h.storage_eq, h.sent_eq) }

module _ (env : Env) (msg : Message) (ip : String) (port : ℕ) where
  pub meet-SameStore : (s : Kad) → SameStore s.storage s.sent (meet env msg ip port s).1
  unfolding meet
  meet-SameStore s =
      let m : Keeps (SameStore s.storage s.sent) (meet env msg ip port) =
        search (
          keeps_rules,
          table_add-SameStore s.storage s.sent,
          learn_cap-SameStore s.storage s.sent,
        ) in
      m.at s (record { storage_eq = refl; sent_eq = refl })

  -- A call of the handler that returns has gone through the branch of its type.
  pub handle_returns :
      (s : Kad)
      → (handle env msg ip port s).0 ≡ some tt
      → (t : Kad) × SameStore s.storage s.sent t
        × (handle env msg ip port s ≡ dispatch env msg ip port msg.type t)
  unfolding handle
  handle_returns s h =
      let (a, met, e) =
        bind_returns (meet env msg ip port) (λ _. dispatch env msg ip port msg.type) s h in
      ((meet env msg ip port s).1, meet-SameStore s, e)

  pub handle_by :
      (s : Kad) (mtype : String) (branch : Exec Kad (Unit {0}))
      → msg.type ≡ mtype
      → dispatch env msg ip port mtype ≡ branch
      → (handle env msg ip port s).0 ≡ some tt
      → (t : Kad) × SameStore s.storage s.sent t × (handle env msg ip port s ≡ branch t)
  handle_by s mtype branch is_type is_branch h =
      let (t, same, e) = handle_returns s h in
      let b : dispatch env msg ip port msg.type ≡ branch =
        ap (dispatch env msg ip port) is_type ∙ is_branch in
      (t, same, e ∙ ap (λ (m : Exec Kad (Unit {0})). m t) b)

  dispatch-store : dispatch env msg ip port "STORE" ≡ handle_store env msg ip port
  unfolding dispatch
  dispatch-store = refl

  dispatch-find_value : dispatch env msg ip port "FIND_VALUE" ≡ handle_find_value env msg ip port
  unfolding dispatch
  dispatch-find_value = refl

  pub dispatch-find_node : dispatch env msg ip port "FIND_NODE" ≡ handle_find_node env msg ip port
  unfolding dispatch
  dispatch-find_node = refl

  handle_store-storage :
      (t : Kad) (key : String)
      → msg.key ≡ some key
      → (handle_store env msg ip port t).1.storage
        ≡ Dict.put key (or_default Json.null msg.value) t.storage
  unfolding handle_store if_some modify store_value
  handle_store-storage t key has_key =
      ap
        (λ (o : Option String).
          (if_some (λ (x : String). modify (store_value x (or_default Json.null msg.value))) o
            t).1.storage)
        has_key

  -- A STORE of a key that is handled without an exception has put its value in the storage.
  pub handle-store :
      (s : Kad) (key : String)
      → msg.type ≡ "STORE"
      → msg.key ≡ some key
      → (handle env msg ip port s).0 ≡ some tt
      → (handle env msg ip port s).1.storage
        ≡ Dict.put key (or_default Json.null msg.value) s.storage
  handle-store s key is_store has_key h =
      let (t, same, e) =
        handle_by s "STORE" (handle_store env msg ip port) is_store dispatch-store h in
      rw e (
        handle_store-storage t key has_key
        ∙ ap (Dict.put key (or_default Json.null msg.value)) same.storage_eq)

  abbrev pub to_sender : Body → Packet
  to_sender body = record {
    ip = sender_ip env msg ip port;
    port = sender_port env msg ip port;
    body = body;
  }

  handle_find_value-known :
      (t : Kad) (key : String) (v : Json)
      → msg.key ≡ some key
      → Dict.get key t.storage ≡ some v
      → (handle_find_value env msg ip port t).1.sent ≡ t.sent ++ to_sender (Body.value key v) ∷ []
  unfolding handle_find_value ◌>>=◌
  handle_find_value-known t key v has_key known =
      let found : stored_value msg.key t ≡ some (key, v) =
        ap (λ (o : Option String). stored_value o t) has_key ∙ rw (known, stored_value) in
      ap (λ (o : Option (String × Json)). (answer env msg ip port o t).1.sent) found

  -- A FIND_VALUE of a stored key that is handled without an exception sends the stored value to
  -- the sender, and nothing else.
  pub handle-find_value :
      (s : Kad) (key : String) (v : Json)
      → msg.type ≡ "FIND_VALUE"
      → msg.key ≡ some key
      → Dict.get key s.storage ≡ some v
      → (handle env msg ip port s).0 ≡ some tt
      → (handle env msg ip port s).1.sent ≡ s.sent ++ to_sender (Body.value key v) ∷ []
  handle-find_value s key v is_find has_key known h =
      let (t, same, e) =
        handle_by s "FIND_VALUE" (handle_find_value env msg ip port) is_find dispatch-find_value
          h in
      rw e (
        handle_find_value-known t key v has_key (ap (Dict.get key) same.storage_eq ∙ known)
        ∙ ap (λ (l : List Packet). l ++ to_sender (Body.value key v) ∷ []) same.sent_eq)
