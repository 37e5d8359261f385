-- ===== src/Swarm/Health/Failed.antt =====
-- swarm/health_monitor.py: the failed ping with which a node is declared dead.
use anp_edge_swarm.Base.{ℕ, ◌+◌, String, ◌≡◌, ◌≢◌, Bool, some}
use anp_edge_swarm.Dict
use anp_edge_swarm.Dict.{Dict, is_some}
use anp_edge_swarm.Swarm.Distributor.{ActiveTask, Peer}
use anp_edge_swarm.Swarm.Health.{
  Status, NodeHealth, Monitor, get_node_status, set_health, record_state_change,
}

module _ (now : ℕ) (node : String) (h : NodeHealth) (m : Monitor) where
  -- The monitor in which the node is entered as dead.
  abbrev declared : Monitor
  declared = record_state_change now node Status.dead (set_health node h m)

-- The node is dead, and no task in flight is assigned to it.
abbrev pub IsCleared : String → Monitor → Type 0
IsCleared node m =
    (get_node_status node m ≡ some Status.dead)
    × ((j : String) (a : ActiveTask)
        → Dict.get j m.distributor.active_tasks ≡ some a
        → a.node_id ≢ node)

module _ (now : ℕ) (deliver : ℕ → String → Bool) (peers : Dict Peer) (node : String)
    (m : Monitor) where
  failed : NodeHealth → NodeHealth
  failed h = record h { fail_count = h.fail_count + 1; status = Status.dead }

  abbrev pinged : NodeHealth → NodeHealth
  pinged h = record h { ping_count = h.ping_count + 1 }
