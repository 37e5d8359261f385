-- ===== src/Db/Agent/Incoming.antt =====
-- db/db_agent.py: what a received payload leaves in the table of readings, over any adapter that
-- keeps its promises.
use anp_edge_swarm.Base.{
  ℕ, suc, ◌+◌, ltb, String, ◌==◌, eq_iff, ◌≡◌, ◌∙◌, refl, sym, ap, subst, Bool, false, Option, none,
  some, if◌then◌else◌, Bool-cases, inl, inr,
}
use anp_edge_swarm.Base.Json.{Json, Items, Fields, lookup_field}
use anp_edge_swarm.Dict
use anp_edge_swarm.Dict.{Dict, or_default}
use anp_edge_swarm.Db.JsonAdapter.{Row, set_default}
use anp_edge_swarm.Db.Agent.{
  Adapter, readings, text_of, normalize_record, save, save_received, accepted_items,
  handle_incoming,
}
use anp_edge_swarm.Db.Agent.Interface.{IsAdapter, IsOne, by_id}

module _ (shown : Json → String) (now : String) (fresh : ℕ → String) where
  -- The id of a normalised record.
  abbrev pub id_of : (fresh_id : String) → Fields → String
  id_of fresh_id r = text_of shown (or_default (Json.str fresh_id) (lookup_field "record_id" r))

  -- The last of the received records that has the id.
  abbrev pub later_or : Option Row → Option Row → Option Row
  later_or none b = b
  later_or (some a) b = some a

  abbrev pub if_id : (id fresh_id : String) → Fields → Option Row
  if_id id fresh_id r =
      if id == id_of fresh_id r then some (normalize_record shown now fresh_id r) else none

  -- The last of the received records that has the id, as it is normalised.
  unfoldable pub last_received : (id : String) → ℕ → Items → Option Row
  last_received id n Items.nil = none
  last_received id n (Items.cons (Json.obj r) rest) =
      later_or (last_received id (n + 1) rest) (if_id id (fresh n) r)
  last_received id n (Items.cons _ rest) = last_received id (n + 1) rest

  module _ {T : Type 0} (A : Adapter T) (stores : (table key : String) → Bool)
      (lawful : IsAdapter A stores) (node_id : String) where
    -- What is found by an id after the record was received last; `none`: it was not received.
    abbrev pub IsFound : Option Row → (id : String) (limit : ℕ) (before after : T) → Type 0
    IsFound none id limit before after =
        A.fetch readings (by_id id) (suc limit) after
        ≡ A.fetch readings (by_id id) (suc limit) before
    IsFound (some row) id limit before after =
        IsOne (stores readings) row (A.fetch readings (by_id id) (suc limit) after)

    save-IsFound :
        (fresh_id id : String) (r : Fields) (limit : ℕ) (t : T)
        → IsFound
            (if_id id fresh_id r)
            id
            limit
            t
            (save A node_id now fresh_id readings (normalize_record shown now fresh_id r) t).1
    unfolding save set_default normalize_record Dict.has Dict.get
    save-IsFound fresh_id id r limit t =
        let row = normalize_record shown now fresh_id r in
        let after = (A.save now fresh_id readings row t).1 in
        elim (Bool-cases (id == id_of fresh_id r)) [
          | inl e ↦
              let same = (eq_iff id (id_of fresh_id r)).0 e in
              subst (λ o. IsFound o id limit t after)
                (sym (ap (λ b. if b then some row else none) e))
                (subst
                  (λ j. IsOne (stores readings) row (A.fetch readings (by_id j) (suc limit) after))
                  (sym same)
                  (lawful.fetch_save now fresh_id readings (id_of fresh_id r) row limit t refl))
          | inr e ↦
              subst (λ o. IsFound o id limit t after)
                (sym (ap (λ b. if b then some row else none) e))
                (lawful.fetch_save_other now fresh_id readings (id_of fresh_id r) id row (suc limit)
                  t refl e)
        ]

    -- A later step decides where it finds something, and else keeps what an earlier one left.
    IsFound-then :
        (first later : Option Row) (id : String) (limit : ℕ) (t t' t'' : T)
        → IsFound first id limit t t'
        → IsFound later id limit t' t''
        → IsFound (later_or later first) id limit t t''
    IsFound-then first (some row) id limit t t' t'' h k = k
    IsFound-then none none id limit t t' t'' h k = k ∙ h
    IsFound-then (some row) none id limit t t' t'' h k =
        subst (IsOne (stores readings) row) (sym k) h

    save_received-IsFound :
        (id : String) (n limit : ℕ) (items : Items) (t : T)
        → IsFound
            (last_received id n items)
            id
            limit
            t
            (save_received A node_id shown now fresh n items t)
    unfolding save_received last_received
    save_received-IsFound id n limit Items.nil t = refl
    save_received-IsFound id n limit (Items.cons (Json.obj r) rest) t =
        let t' =
          (save A node_id now (fresh n) readings (normalize_record shown now (fresh n) r) t).1 in
        IsFound-then (if_id id (fresh n) r) (last_received id (n + 1) rest) id limit t t'
          (save_received A node_id shown now fresh (n + 1) rest t')
          (save-IsFound (fresh n) id r limit t) (save_received-IsFound id (n + 1) limit rest t')
    save_received-IsFound id n limit (Items.cons Json.null rest) t =
        save_received-IsFound id (n + 1) limit rest t
    save_received-IsFound id n limit (Items.cons (Json.bool b) rest) t =
        save_received-IsFound id (n + 1) limit rest t
    save_received-IsFound id n limit (Items.cons (Json.num b) rest) t =
        save_received-IsFound id (n + 1) limit rest t
    save_received-IsFound id n limit (Items.cons (Json.str b) rest) t =
        save_received-IsFound id (n + 1) limit rest t
    save_received-IsFound id n limit (Items.cons (Json.arr b) rest) t =
        save_received-IsFound id (n + 1) limit rest t

    -- A payload that is not too long leaves for each id: where one of its accepted records has it,
    -- one row with the fields of the last such record, as it is normalised (as far as the table has
    -- a place for them); else what was found by that id before.
    pub handle_incoming-IsFound :
        (max_payload msg_len : ℕ) (payload : Json) (id : String) (limit : ℕ) (t : T)
        → ltb max_payload msg_len ≡ false
        → IsFound
            (last_received id 0 (accepted_items A node_id shown now fresh payload))
            id
            limit
            t
            (handle_incoming A node_id shown now fresh max_payload msg_len (some payload) t)
    unfolding handle_incoming
    handle_incoming-IsFound max_payload msg_len payload id limit t fits =
        rw fits
          (save_received-IsFound id 0 limit (accepted_items A node_id shown now fresh payload) t)
