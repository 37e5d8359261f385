-- ===== src/Swarm/Mesh/Seen.antt =====
-- swarm/bluetooth_mesh.py: a message that was handled is dropped when it comes again in time.
use anp_edge_swarm.Base.Exec.{modify, if_some, ◌>>=◌, Keeps, keeps_rules}
use anp_edge_swarm.Base.Json.{Json, truthy_text}
use anp_edge_swarm.Base.{
  ℕ, ◌-◌, ◌<◌, ltb, lt→ltb, String, ◌≡◌, refl, ap, ◌∙◌, Option, none, some, ◌≢◌, List, [], ◌∷◌, All,
  ◌==◌, eq_iff, Bool-cases, Option-cases, inl, inr, true, false, arith,
}
use anp_edge_swarm.Dict
use anp_edge_swarm.Dict.{Dict, get-put, get-put_self, get-keep_items, get-keep_items-none, is_some}
use anp_edge_swarm.Swarm.Mesh.{
  Mesh, Msg, seen_cache_ttl, clean_seen, mark_seen, Delivery, add_delivery, call_handler, deliver,
  relay, require, process, on_receive, send_message, broadcast,
}

-- A message of an id that was seen less than 60 seconds ago changes nothing but the cache.
pub on_receive-seen :
    (now seen_at : ℕ) (m : Msg) (from id : String) (s : Mesh)
    → truthy_text m.msg_id ≡ some id
    → Dict.get id s.seen ≡ some seen_at
    → now - seen_at < seen_cache_ttl
    → on_receive now m from s ≡ (some tt, clean_seen now s)
unfolding on_receive ◌>>=◌ if_some clean_seen Dict.has
on_receive-seen now seen_at m from id s has_id seen recent =
    let kept : Dict.get id (clean_seen now s).seen ≡ some seen_at =
      get-keep_items (λ _ v. ltb (now - v) seen_cache_ttl) id seen_at s.seen seen
        (lt→ltb _ _ recent) in
    rw (has_id, if_some) (rw kept refl)

abbrev SameSeen : Dict ℕ → Mesh → Type 0
SameSeen seen s = s.seen ≡ seen

mark-SameSeen : (seen : Dict ℕ) (msg : Msg) → Keeps (SameSeen seen) (modify (send_message msg))
unfolding modify send_message
mark-SameSeen seen msg = record { at = λ s e. e }

add_delivery-SameSeen :
    (seen : Dict ℕ) (d : Delivery) → Keeps (SameSeen seen) (modify (add_delivery d))
unfolding modify add_delivery
add_delivery-SameSeen seen d = record { at = λ s e. e }

require-SameSeen : {A : Type 0} (seen : Dict ℕ) (o : Option A) → Keeps (SameSeen seen) (require o)
unfolding require
require-SameSeen seen o = record { at = λ s h. h }

ruleset seen_rules = (keeps_rules, mark-SameSeen, add_delivery-SameSeen, require-SameSeen)

call_handler-SameSeen :
    (seen : Dict ℕ) (m : Msg) (t from : String) → Keeps (SameSeen seen) (call_handler m t from)
unfolding call_handler
call_handler-SameSeen seen m t from = search seen_rules

deliver-SameSeen :
    (seen : Dict ℕ) (m : Msg) (from : String) → Keeps (SameSeen seen) (deliver m from)
unfolding deliver
deliver-SameSeen seen m from = search (seen_rules, call_handler-SameSeen)

relay-SameSeen : (seen : Dict ℕ) (m : Msg) → Keeps (SameSeen seen) (relay m)
unfolding relay
relay-SameSeen seen m = search seen_rules

process-SameSeen :
    (seen : Dict ℕ) (m : Msg) (from : String) → Keeps (SameSeen seen) (process m from)
unfolding process
process-SameSeen seen m from = search (seen_rules, deliver-SameSeen, relay-SameSeen)

-- A message of a new id is in the cache after it, with the time of its arrival.
on_receive-marks :
    (now : ℕ) (m : Msg) (from id : String) (s : Mesh)
    → truthy_text m.msg_id ≡ some id
    → Dict.get id s.seen ≡ none
    → Dict.get id (on_receive now m from s).1.seen ≡ some now
unfolding on_receive ◌>>=◌ if_some Dict.has clean_seen
on_receive-marks now m from id s has_id unseen =
    let gone : Dict.get id (clean_seen now s).seen ≡ none =
      get-keep_items-none (λ _ v. ltb (now - v) seen_cache_ttl) id s.seen unseen in
    let marked = mark_seen now id (clean_seen now s) in
    rw (has_id, if_some)
      (rw gone (
        ap (Dict.get id) ((process-SameSeen marked.seen m from).at marked refl)
        ∙ get-put_self id now (clean_seen now s).seen))

-- The id is in the cache, with the time.
abbrev SeenAt : String → ℕ → Mesh → Type 0
SeenAt id t s = Dict.get id s.seen ≡ some t

-- A call of the node: what it receives, or broadcasts.
pub data Call : Type 0 where
  receives : (now : ℕ) (m : Msg) (from : String) → Call
  broadcasts : (now : ℕ) (uuid msg_type destination : String) (payload : Json) → Call

unfoldable pub call : Call → Mesh → Mesh
call (Call.receives now m from) s = (on_receive now m from s).1
call (Call.broadcasts now uuid msg_type destination payload) s =
    broadcast now uuid msg_type payload destination s

unfoldable pub calls : List Call → Mesh → Mesh
unfolding call
calls [] s = s
calls (c ∷ cs) s = calls cs (call c s)

module _ (id : String) (t : ℕ) where
  -- The call is less than 60 seconds after the time, and no new message is given the id.
  abbrev pub InTime : Call → Type 0
  InTime (Call.receives now m from) = now - t < seen_cache_ttl
  InTime (Call.broadcasts now uuid msg_type destination payload) = uuid ≢ id

  mark_seen-SeenAt :
      (now : ℕ) (other : String) (s : Mesh)
      → other ≢ id
      → SeenAt id t s
      → SeenAt id t (mark_seen now other s)
  unfolding mark_seen
  mark_seen-SeenAt now other s differ h =
      let no : (other == id) ≡ false = ground (arith, eq_iff other id) in
      get-put other id now s.seen ∙ rw no h

  clean_seen-SeenAt :
      (now : ℕ) (s : Mesh)
      → now - t < seen_cache_ttl
      → SeenAt id t s
      → SeenAt id t (clean_seen now s)
  unfolding clean_seen
  clean_seen-SeenAt now s recent h =
      get-keep_items (λ _ v. ltb (now - v) seen_cache_ttl) id t s.seen h (lt→ltb _ _ recent)

  on_receive-SeenAt :
      (now : ℕ) (m : Msg) (from : String) (s : Mesh)
      → now - t < seen_cache_ttl
      → SeenAt id t s
      → SeenAt id t (on_receive now m from s).1
  unfolding on_receive ◌>>=◌ if_some Dict.has
  on_receive-SeenAt now m from s recent h =
      let clean = clean_seen-SeenAt now s recent h in
      elim (Option-cases (truthy_text m.msg_id)) [
        | inl gone ↦ rw (gone, if_some) h
        | inr (other, e) ↦ elim (Bool-cases (Dict.has other (clean_seen now s).seen)) [
          | inl seen ↦ rw (e, if_some) (rw seen clean)
          | inr new ↦
              let differ : other ≢ id = λ same.
                let there : Dict.has other (clean_seen now s).seen ≡ true =
                  ap (λ i. Dict.has i (clean_seen now s).seen) same ∙ ap is_some clean in
                absurd (cc) in
              let marked = mark_seen now other (clean_seen now s) in
              rw (e, if_some)
                (rw new (
                  ap (Dict.get id) ((process-SameSeen marked.seen m from).at marked refl)
                  ∙ mark_seen-SeenAt now other (clean_seen now s) differ clean))
        ]
      ]

  call-SeenAt : (c : Call) (s : Mesh) → InTime c → SeenAt id t s → SeenAt id t (call c s)
  unfolding call broadcast
  call-SeenAt (Call.receives now m from) s recent h = on_receive-SeenAt now m from s recent h
  call-SeenAt (Call.broadcasts now uuid msg_type destination payload) s differ h =
      mark_seen-SeenAt now uuid s differ h

  calls-SeenAt :
      (cs : List Call) (s : Mesh) → All InTime cs → SeenAt id t s → SeenAt id t (calls cs s)
  unfolding calls
  calls-SeenAt [] s k h = h
  calls-SeenAt (c ∷ cs) s k h = calls-SeenAt cs (call c s) k.1 (call-SeenAt c s k.0 h)

-- A message of a new id that comes once more within 60 seconds, from anywhere, with whatever content
-- and after whatever messages were received in these 60 seconds or broadcast under other ids, is
-- neither delivered nor relayed again: it changes nothing but the cache.
pub duplicate_dropped :
    (now later : ℕ) (m m' : Msg) (from from' id : String) (cs : List Call) (s : Mesh)
    → truthy_text m.msg_id ≡ some id
    → truthy_text m'.msg_id ≡ some id
    → Dict.get id s.seen ≡ none
    → All (InTime id now) cs
    → later - now < seen_cache_ttl
    → let before = calls cs (on_receive now m from s).1 in
      on_receive later m' from' before ≡ (some tt, clean_seen later before)
duplicate_dropped now later m m' from from' id cs s has_id has_id' unseen between recent =
    on_receive-seen later now m' from' id (calls cs (on_receive now m from s).1) has_id'
      (calls-SeenAt id now cs (on_receive now m from s).1 between
        (on_receive-marks now m from id s has_id unseen))
      recent
