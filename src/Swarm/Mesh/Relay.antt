-- ===== src/Swarm/Mesh/Relay.antt =====
-- swarm/bluetooth_mesh.py: what a node relays, and how far a message can travel.
use anp_edge_swarm.Base.Exec.{Exec, pure, modify, if_some, ◌>>=◌, Keeps, keeps_rules}
use anp_edge_swarm.Base.Json.{Json, truthy_text}
use anp_edge_swarm.Base.{
  ℕ, suc, ◌+◌, ◌<◌, ◌≤◌, String, ◌≡◌, ◌≢◌, refl, ap, subst, ◌∙◌, sym, true, Option, some, List, [],
  ◌∷◌, ◌++◌, arith, if◌then◌else◌, Option-cases, Bool-cases, inl, inr, ◌⊎◌, ◌==◌, eq_iff, ◌||◌,
  length, length-append,
}
use anp_edge_swarm.Dict
use anp_edge_swarm.Dict.{Dict, or_default}
use anp_edge_swarm.Swarm.Mesh.{
  Mesh, Msg, max_hops, clean_seen, mark_seen, deliver, relay, require, process, on_receive,
  add_self, destination_of, may_relay, broadcast, envelope, add_delivery, Delivery, call_handler,
}

-- `r` is what a node of the id `own` makes of `m` to send it on: one hop more, within the limit
-- that the message carries, and only if the message is not addressed to this node.
pub record IsRelayOf (own : String) (m r : Msg) : Type 0 where
  pub hops : ℕ
  pub seen_by : List String
  pub hops_eq : m.hop_count ≡ some hops
  pub seen_by_eq : m.seen_by ≡ some seen_by
  pub within : hops < or_default max_hops m.hop_limit
  pub not_for_self : destination_of m ≢ own
  pub relayed : r ≡ record m { hop_count = some (hops + 1); seen_by = some (add_self own seen_by) }

-- Nothing was sent, or one relay of `m`.
abbrev pub SendsRelay : Msg → Mesh → Mesh → Type 0
SendsRelay m s t =
    (t.sent ≡ s.sent) ⊎ ((r : Msg) × IsRelayOf s.node_id m r × (t.sent ≡ s.sent ++ r ∷ []))

relay-SendsRelay :
    (m : Msg) (s : Mesh) → may_relay s.node_id m ≡ true → SendsRelay m s (relay m s).1
unfolding relay ◌>>=◌
relay-SendsRelay m s allowed = elim (Option-cases m.hop_count) [
  | inl gone ↦ inl (rw gone refl)
  | inr (hops, has_hops) ↦ elim (Option-cases m.seen_by) [
    | inl gone ↦ inl (ground arith)
    | inr (seen_by, has_seen) ↦ inr (
      record m { hop_count = some (hops + 1); seen_by = some (add_self s.node_id seen_by) },
      record {
        hops = hops;
        seen_by = seen_by;
        hops_eq = has_hops;
        seen_by_eq = has_seen;
        within = ground (arith, eq_iff (destination_of m) s.node_id);
        not_for_self = ground (arith, eq_iff (destination_of m) s.node_id);
        relayed = refl;
      },
      ground arith,
    )
  ]
]

-- What a delivery leaves alone.
record SameSent (node_id : String) (sent : List Msg) (s : Mesh) : Type 0 where
  id_eq : s.node_id ≡ node_id
  sent_eq : s.sent ≡ sent

module _ (id : String) (sent : List Msg) where
  add_delivery-SameSent : (d : Delivery) → Keeps (SameSent id sent) (modify (add_delivery d))
  unfolding modify add_delivery
  add_delivery-SameSent d = record { at = λ s h. record { id_eq = h.id_eq; sent_eq = h.sent_eq } }

  require-SameSent : {A : Type 0} (o : Option A) → Keeps (SameSent id sent) (require o)
  unfolding require
  require-SameSent o = record { at = λ s h. h }

  call_handler-SameSent :
      (m : Msg) (t from : String) → Keeps (SameSent id sent) (call_handler m t from)
  unfolding call_handler
  call_handler-SameSent m t from = search (keeps_rules, add_delivery-SameSent, require-SameSent)

  deliver-SameSent : (m : Msg) (from : String) → Keeps (SameSent id sent) (deliver m from)
  unfolding deliver
  deliver-SameSent m from = search (keeps_rules, call_handler-SameSent)

  local : Msg → String → Exec Mesh (Unit {0})
  local m from =
      if destination_of m == "ALL" || destination_of m == id then deliver m from else pure tt

  local-SameSent : (m : Msg) (from : String) → Keeps (SameSent id sent) (local m from)
  unfolding local
  local-SameSent m from = search (keeps_rules, deliver-SameSent)

onward : String → Msg → Exec Mesh (Unit {0})
onward own m = if may_relay own m then relay m else pure tt

onward-SendsRelay : (m : Msg) (s : Mesh) → SendsRelay m s (onward s.node_id m s).1
unfolding onward pure
onward-SendsRelay m s = elim (Bool-cases (may_relay s.node_id m)) [
  | inl yes_relay ↦ rw yes_relay (relay-SendsRelay m s yes_relay)
  | inr no_relay ↦ rw no_relay (inl refl)
]

SendsRelay-after :
    (m : Msg) (s t u : Mesh) → SameSent s.node_id s.sent t → SendsRelay m t u → SendsRelay m s u
SendsRelay-after m s t u same (inl e) = inl (e ∙ same.sent_eq)
SendsRelay-after m s t u same (inr (r, is_relay, e)) = inr (
  r,
  subst (λ own. IsRelayOf own m r) same.id_eq is_relay,
  e ∙ ap (λ (l : List Msg). l ++ r ∷ []) same.sent_eq,
)

process-SendsRelay : (m : Msg) (from : String) (s : Mesh) → SendsRelay m s (process m from s).1
unfolding process ◌>>=◌ local onward
process-SendsRelay m from s =
    let after = (local s.node_id s.sent m from s).1 in
    let same : SameSent s.node_id s.sent after =
      (local-SameSent s.node_id s.sent m from).at s (record { id_eq = refl; sent_eq = refl }) in
    elim (Option-cases (local s.node_id s.sent m from s).0) [
      | inl gone ↦ rw gone (inl same.sent_eq)
      | inr (u, done) ↦ rw done (
          SendsRelay-after m s after (onward s.node_id m after).1 same (
            subst (λ own. SendsRelay m after (onward own m after).1) same.id_eq
              (onward-SendsRelay m after)))
    ]

-- Whatever is received, a node sends at most one message for it, and that is the same message with
-- one hop more, within the message's limit, its own id among those that have seen it, and only if
-- the message is not addressed to the node.
pub on_receive-SendsRelay :
    (now : ℕ) (m : Msg) (from : String) (s : Mesh) → SendsRelay m s (on_receive now m from s).1
unfolding on_receive if_some ◌>>=◌ clean_seen mark_seen
on_receive-SendsRelay now m from s = elim (Option-cases (truthy_text m.msg_id)) [
  | inl gone ↦ rw (gone, if_some) (inl refl)
  | inr (id, e) ↦ elim (Bool-cases (Dict.has id (clean_seen now s).seen)) [
    | inl seen ↦ rw (e, if_some) (rw seen (inl refl))
    | inr new ↦
        rw (e, if_some)
          (rw new (
            SendsRelay-after m s (mark_seen now id (clean_seen now s))
              (process m from (mark_seen now id (clean_seen now s))).1
              (record { id_eq = refl; sent_eq = refl })
              (process-SendsRelay m from (mark_seen now id (clean_seen now s)))))
  ]
]

last-injective : (l : List Msg) (x y : Msg) → l ++ x ∷ [] ≡ l ++ y ∷ [] → x ≡ y
last-injective [] x y e = cc
last-injective (z ∷ l) x y e = last-injective l x y (cc)

-- A node that sends one message more for `m` relays it.
sent-IsRelayOf :
    (m t : Msg) (s u : Mesh)
    → SendsRelay m s u
    → u.sent ≡ s.sent ++ t ∷ []
    → IsRelayOf s.node_id m t
sent-IsRelayOf m t s u (inl e) sent =
    absurd (omega (arith, ap length (sym e ∙ sent), length-append s.sent (t ∷ [])))
sent-IsRelayOf m t s u (inr (r, is_relay, e)) sent =
    subst (IsRelayOf s.node_id m) (last-injective s.sent r t (sym e ∙ sent)) is_relay

-- A journey: a node receives the message and sends one for it, which another node receives, and so
-- on. The nodes, what they have seen before and the times are arbitrary.
pub data Journey (m : Msg) : ℕ → Msg → Type 0 where
  start : Journey m 0 m
  step :
      {n : ℕ} {r t : Msg} (now : ℕ) (from : String) (s : Mesh)
      → Journey m n r
      → (on_receive now r from s).1.sent ≡ s.sent ++ t ∷ []
      → Journey m (suc n) t

record IsUnderWay (m : Msg) (n : ℕ) (r : Msg) : Type 0 where
  counted : r.hop_count ≡ some n
  limit : r.hop_limit ≡ m.hop_limit
  below : n ≤ or_default max_hops m.hop_limit

Journey-IsUnderWay :
    (m : Msg) {n : ℕ} {r : Msg} → m.hop_count ≡ some 0 → Journey m n r → IsUnderWay m n r
Journey-IsUnderWay m h start = record { counted = h; limit = refl; below = omega arith }
Journey-IsUnderWay m h (step {n} {r} {t} now from s j sent) =
    let u = Journey-IsUnderWay m h j in
    let is_relay =
      sent-IsRelayOf r t s (on_receive now r from s).1 (on_receive-SendsRelay now r from s) sent in
    let same : is_relay.hops ≡ n = ground (arith, is_relay.hops_eq, u.counted) in
    record {
      counted = ground (arith, is_relay.relayed);
      limit = ap (λ (x : Msg). x.hop_limit) is_relay.relayed ∙ u.limit;
      below =
          let w : is_relay.hops < or_default max_hops m.hop_limit =
            subst (λ l. is_relay.hops < or_default max_hops l) u.limit is_relay.within in
          omega (arith, same);
    }

-- What a broadcast puts on the wire is relayed at most five times, whichever nodes receive it one
-- after the other, and the count of its relays is the hop count that it carries.
pub broadcast_journey :
    (now : ℕ) (uuid msg_type destination : String) (payload : Json) (s : Mesh) (n : ℕ) (m r : Msg)
    → (broadcast now uuid msg_type payload destination s).sent ≡ s.sent ++ m ∷ []
    → Journey m n r
    → (n ≤ max_hops) × (r.hop_count ≡ some n)
unfolding broadcast envelope
broadcast_journey now uuid msg_type destination payload s n m r sent j =
    let e : envelope now uuid s.node_id msg_type payload destination ≡ m =
      last-injective s.sent _ _ sent in
    let u = Journey-IsUnderWay m (ap (λ (x : Msg). x.hop_count) (sym e)) j in
    let limit : m.hop_limit ≡ some max_hops = ap (λ (x : Msg). x.hop_limit) (sym e) in
    (subst (λ l. n ≤ or_default max_hops l) limit u.below, u.counted)
