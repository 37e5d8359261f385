-- ===== src/Tests/HealthRuns.antt =====
-- swarm/health_monitor.py and swarm/task_distributor.py: node "x" is dead with a task in flight,
-- node "y" is alive.
use anp_edge_swarm.Base.{◌≡◌, refl, ◌<◌, String, Bool, false, List, [], ◌∷◌, some, arith, length}
use anp_edge_swarm.Base.Counts.{times}
use anp_edge_swarm.Dict
use anp_edge_swarm.Dict.{Dict, AllItems}
use anp_edge_swarm.Swarm.Distributor.{
  Caps, Peer, ActiveTask, KnownNode, distribute_tasks, is_worker,
}
use anp_edge_swarm.Swarm.Distributor.Plans.{planned, distribute_tasks-planned, always}
use anp_edge_swarm.Swarm.Health.{Status, NodeHealth, Monitor, Ping, round, is_dead}
use anp_edge_swarm.Swarm.Health.Transitions.{IsQuarantined, round-IsQuarantined}

abbrev dead_health : NodeHealth
dead_health = record {
  status = Status.dead;
  last_seen = 10;
  fail_count = 3;
  ping_count = 9;
  response_ms = 0;
}

abbrev live_health : NodeHealth
live_health = record {
  status = Status.alive;
  last_seen = 90;
  fail_count = 0;
  ping_count = 9;
  response_ms = 2;
}

abbrev caps : Caps
caps = record { composite = 50; ram_gb = 8; cpu_cores = 4 }

abbrev peer : Peer
peer = record { caps = some caps; flat = caps; addr = "10.0.0.2"; ip = "" }

abbrev pub peers : Dict Peer
peers = ("x", record peer { addr = "10.0.0.1" }) ∷ ("y", peer) ∷ []

abbrev task : ActiveTask
task = record { type = "clean"; node_id = "x"; assigned_at = 1; sensor_type = "temperature" }

abbrev monitor : Monitor
monitor = record {
  node_health = ("x", dead_health) ∷ ("y", live_health) ∷ [];
  state_changes = [];
  rejoin_pending = [];
  distributor = record { active_tasks = ("t1", task) ∷ []; sent = []; ran = [] };
  events = [];
}

abbrev answered : String → Ping
answered ip = some 4

abbrev refused : String → Bool
refused node = false

x-IsQuarantined : IsQuarantined "x" monitor
unfolding Dict.get Dict.has is_dead
x-IsQuarantined = refl

round-IsQuarantined_example : IsQuarantined "x" (round 100 always refused answered peers monitor)
round-IsQuarantined_example =
    round-IsQuarantined 100 always refused answered peers "x" monitor refl x-IsQuarantined

-- The node x has not answered two pings.
abbrev failing : NodeHealth
failing = record live_health { status = Status.degraded; fail_count = 2 }

abbrev watched : Monitor
watched = record monitor { node_health = ("x", failing) ∷ ("y", live_health) ∷ [] }

abbrev known : Dict KnownNode
known =
    ("me", record { roles = "worker" ∷ []; addr = "" })
    ∷ ("w1", record { roles = "worker" ∷ []; addr = "10.0.0.3" })
    ∷ []

abbrev required : List String
required = "temperature" ∷ "temperature" ∷ "materials" ∷ []

distribute_tasks-planned_example :
    planned "temperature" (distribute_tasks always "me" known required)
    ≡ times "temperature" required
distribute_tasks-planned_example = distribute_tasks-planned always "me" known required "temperature"

one_worker : 0 < length (Dict.keep_items (is_worker "me") known)
unfolding Dict.keep_items is_worker
one_worker = omega arith
