-- ===== src/Tests/MeshRuns.antt =====
-- swarm/bluetooth_mesh.py: one message for all, received twice.
use anp_edge_swarm.Base.{List, All, eq_iff, ◌≡◌, refl, ◌≤◌, [], ◌∷◌, ◌++◌, none, some, arith}
use anp_edge_swarm.Base.Json.{Json, truthy_text}
use anp_edge_swarm.Dict
use anp_edge_swarm.Base.Exec.{◌>>=◌, if_some, pure, gets, modify}
use mathlib.Core.Bool.{false≢true}
use anp_edge_swarm.Swarm.Mesh.{
  is_seen, mark_seen, process, deliver, relay, call_handler, require, add_self, send_message,
  add_delivery, Msg, Mesh, envelope, on_receive, clean_seen, broadcast, max_hops,
}
use anp_edge_swarm.Swarm.Mesh.Relay.{SendsRelay, on_receive-SendsRelay, broadcast_journey, Journey}
use anp_edge_swarm.Swarm.Mesh.Seen.{Call, calls, InTime, duplicate_dropped}

abbrev mesh : Mesh
mesh = record { node_id = "b"; seen = []; handlers = "ALERT" ∷ []; sent = []; delivered = [] }

abbrev sent_by_a : Msg
unfolding envelope
sent_by_a = envelope 100 "id1" "a" "ALERT" Json.null "ALL"

on_receive-SendsRelay_example : SendsRelay sent_by_a mesh (on_receive 101 sent_by_a "aa:bb" mesh).1
on_receive-SendsRelay_example = on_receive-SendsRelay 101 sent_by_a "aa:bb" mesh

has_id : truthy_text sent_by_a.msg_id ≡ some "id1"
unfolding sent_by_a
has_id = refl

not_seen : Dict.get "id1" mesh.seen ≡ none
unfolding Dict.get
not_seen = refl

-- Between the two, another message is received and one is broadcast.
abbrev between : List Call
unfolding envelope
between =
    Call.receives 110 (envelope 105 "id2" "a" "ALERT" Json.null "ALL") "aa:bb"
    ∷ Call.broadcasts 120 "id3" "ALERT" "ALL" Json.null
    ∷ []

between-InTime : All (InTime "id1" 101) between
unfolding between
between-InTime = (omega arith, (λ e. false≢true ((eq_iff "id3" "id1").1 e), tt))

duplicate_dropped_example :
    let before = calls between (on_receive 101 sent_by_a "aa:bb" mesh).1 in
    on_receive 130 sent_by_a "cc:dd" before ≡ (some tt, clean_seen 130 before)
duplicate_dropped_example =
    duplicate_dropped 101 130 sent_by_a sent_by_a "aa:bb" "cc:dd" "id1" between mesh has_id has_id
      not_seen between-InTime (omega arith)

on_wire :
    (broadcast 100 "id1" "ALERT" Json.null "ALL" mesh).sent
    ≡ [] ++ envelope 100 "id1" "b" "ALERT" Json.null "ALL" ∷ []
unfolding broadcast
on_wire = refl

abbrev sent_by_b : Msg
unfolding envelope
sent_by_b = envelope 100 "id1" "b" "ALERT" Json.null "ALL"

-- The message as the nodes c and d send it on.
abbrev once : Msg
once = record sent_by_b { hop_count = some 1; seen_by = some ("b" ∷ "c" ∷ []) }

abbrev twice : Msg
twice = record sent_by_b { hop_count = some 2; seen_by = some ("b" ∷ "c" ∷ "d" ∷ []) }

c_sends : (on_receive 101 sent_by_b "b" (record mesh { node_id = "c" })).1.sent ≡ [] ++ once ∷ []
unfolding on_receive is_seen mark_seen process deliver relay clean_seen call_handler require
    add_self send_message add_delivery ◌>>=◌ if_some pure gets modify Dict.has Dict.get Dict.put
    Dict.keep_items sent_by_b
c_sends = refl

d_sends : (on_receive 102 once "c" (record mesh { node_id = "d" })).1.sent ≡ [] ++ twice ∷ []
unfolding on_receive is_seen mark_seen process deliver relay clean_seen call_handler require
    add_self send_message add_delivery ◌>>=◌ if_some pure gets modify Dict.has Dict.get Dict.put
    Dict.keep_items sent_by_b
d_sends = refl

journey : Journey sent_by_b 2 twice
journey =
    Journey.step 102 "c" (record mesh { node_id = "d" })
      (Journey.step 101 "b" (record mesh { node_id = "c" }) Journey.start c_sends) d_sends

broadcast_journey_example : (2 ≤ max_hops) × (twice.hop_count ≡ some 2)
unfolding envelope
broadcast_journey_example =
    broadcast_journey 100 "id1" "ALERT" "ALL" Json.null mesh 2 sent_by_b twice on_wire journey
