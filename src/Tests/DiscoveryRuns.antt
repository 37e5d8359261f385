-- ===== src/Tests/DiscoveryRuns.antt =====
-- swarm/discovery.py on a network of two nodes.
use anp_edge_swarm.Base.{ℕ, ◌≡◌, refl, some, none, true, false, List, [], ◌∷◌, arith, ◌≢◌}
use anp_edge_swarm.Base.Json.{Json, Fields, get_field}
use anp_edge_swarm.Dict
use anp_edge_swarm.Dict.{Dict}
use anp_edge_swarm.Swarm.Discovery.{Node, Heard, listen_turn, announced}
use anp_edge_swarm.Swarm.Discovery.Known.{Event, run, IsKnown, run-IsKnown}
use anp_edge_swarm.Swarm.Discovery.Presence.{announced-stays, silent-gone}

abbrev caps : Json
caps = Json.obj (Fields.field "node_id" (Json.str "n1") Fields.end)

abbrev announce : Json
announce =
    Json.obj (Fields.field "type" (Json.str "announce") (Fields.field "caps" caps Fields.end))

abbrev heard : ℕ → Heard
heard t = record { msg = some announce; addr = "10.0.0.2"; received = t; now = t }

abbrev quiet : ℕ → Heard
quiet t = record { msg = none; addr = ""; received = t; now = t }

abbrev events : List Event
events = Event.adds 1 "10.0.0.3" ∷ Event.listens (quiet 12) ∷ []

quiet-announced : (j : Json) → announced "me" none ≢ some ("n1", j)
unfolding announced
quiet-announced j e = absurd (cc)

run-IsKnown_example : IsKnown "me" (run "me" (Event.listens (heard 1) ∷ events) [])
run-IsKnown_example = run-IsKnown "me" (Event.listens (heard 1) ∷ events) [] tt

announced-stays_example : Dict.has "n1" (run "me" (Event.listens (heard 1) ∷ events) []) ≡ true
unfolding announced get_field
announced-stays_example =
    announced-stays "me" "n1" caps (heard 1) events [] refl (omega arith)
      (tt, ((omega arith, omega arith), tt))

abbrev first : Dict Node
first = ("n1", record { caps = caps; addr = "10.0.0.2"; last_seen = 1 }) ∷ []

silent-gone_example :
    Dict.has "n1" (listen_turn "me" (quiet 20) (run "me" (Event.listens (quiet 12) ∷ []) first))
    ≡ false
silent-gone_example =
    silent-gone "me" "n1" 1 (Event.listens (quiet 12) ∷ []) (quiet 20) first
      ((λ e. omega arith), tt) (quiet-announced, tt) quiet-announced (omega arith)
