-- ===== src/Swarm/Distributor.antt =====
-- swarm/task_distributor.py: the split of the sensor tasks over the workers, and the tasks in
-- flight of `TaskDistributor`. Whether a send is delivered is the argument `deliver`, asked with
-- the number of sends before it; `uuid4` is the argument `task_name`. Capabilities are numbers in
-- hundredths, the precision to which the program rounds its scores.
pub mod Plans
pub mod Pending
use anp_edge_swarm.Base.{
  ℕ, zero, suc, ◌+◌, ◌*◌, ◌%◌, ltb, String, ◌==◌, Bool, true, false, not, ◌&&◌, ◌||◌, Option, none,
  some, List, [], ◌∷◌, ◌++◌, any, length, get_elem?, if◌then◌else◌,
}
use anp_edge_swarm.Base.Sort.{max_by}
use anp_edge_swarm.Dict
use anp_edge_swarm.Dict.{Dict, or_default}

abbrev pub retry_count : ℕ
retry_count = 3

-- The loop of `_tcp_send_with_retry`: `attempt i` is whether the attempt `i` goes through.
unfoldable pub send_attempts : ℕ → (attempt : ℕ → Bool) → ℕ → Bool
send_attempts zero attempt i = false
send_attempts (suc left) attempt i =
    let again = send_attempts left attempt (i + 1) in if attempt i then true else again

unfoldable pub tcp_send_with_retry : (attempt : ℕ → Bool) → Bool
unfolding send_attempts
tcp_send_with_retry attempt = send_attempts retry_count attempt 1

-- An entry of `get_known_nodes()`.
pub record KnownNode : Type 0 where
  pub roles : List String
  pub addr : String

unfoldable pub is_worker : String → String → KnownNode → Bool
is_worker my_id nid info = not (nid == my_id) && any (λ r. r == "worker") info.roles

pub record Plan : Type 0 where
  pub local_tasks : List String
  pub remote_tasks : Dict (List String)

unfoldable pub keep_local : String → Plan → Plan
keep_local sensor p = record p { local_tasks = p.local_tasks ++ sensor ∷ [] }

-- remote_tasks.setdefault(target_id, []).append(sensor_type)
unfoldable pub assign_remote : String → String → Plan → Plan
assign_remote target sensor p = record p {
  remote_tasks =
      Dict.put target (or_default [] (Dict.get target p.remote_tasks) ++ sensor ∷ [])
        p.remote_tasks;
}

module _ (deliver : ℕ → String → Bool) (workers : Dict KnownNode) where
  -- The body of the loop: with no worker there is no `peer_ids[peer_index % len(peer_ids)]`.
  unfoldable pub place : ℕ → String → Plan → Plan
  unfolding keep_local assign_remote
  place peer_index sensor p = elim (get_elem? workers (peer_index % length workers)) [
    | none ↦ keep_local sensor p
    | some (target, info) ↦
        if deliver peer_index info.addr then assign_remote target sensor p else keep_local sensor p
  ]

  unfoldable pub distribute_from : ℕ → List String → Plan → Plan
  distribute_from peer_index [] p = p
  distribute_from peer_index (sensor ∷ rest) p =
      distribute_from (peer_index + 1) rest (place peer_index sensor p)

unfoldable pub distribute_tasks :
    (deliver : ℕ → String → Bool) (my_id : String) → Dict KnownNode → List String → Plan
unfolding distribute_from
distribute_tasks deliver my_id known_nodes data_required =
    distribute_from deliver (Dict.keep_items (is_worker my_id) known_nodes) 0 data_required
      (record { local_tasks = []; remote_tasks = [] })

pub record Caps : Type 0 where
  pub composite : ℕ
  pub ram_gb : ℕ
  pub cpu_cores : ℕ

-- A peer: its capabilities nested under "caps" or flat, "addr" and "ip" ("" where missing).
pub record Peer : Type 0 where
  pub caps : Option Caps
  pub flat : Caps
  pub addr : String
  pub ip : String

unfoldable pub address_of : Peer → String
address_of p = if p.addr == "" then p.ip else p.addr

-- _peer_score, in hundredths: the composite, or ram * 2.0 + cpu * 1.5
unfoldable pub peer_score : Peer → ℕ
peer_score p =
    let inner = or_default p.flat p.caps in
    if ltb 0 inner.composite then inner.composite else inner.ram_gb * 2 + inner.cpu_cores * 150

pub record ActiveTask : Type 0 where
  pub type : String
  pub node_id : String
  pub assigned_at : ℕ
  pub sensor_type : String

pub record Assign : Type 0 where
  pub task_id : String
  pub sensor_type : String
  pub target : String
  pub addr : String

-- The tasks in flight, the reassignments that were sent and the tasks that ran on this node.
pub record Distributor : Type 0 where
  pub active_tasks : Dict ActiveTask
  pub sent : List Assign
  pub ran : List String

unfoldable pub record_task :
    (now : ℕ) → String → String → String → String → Distributor → Distributor
record_task now task_id task_type node_id sensor_type d = record d {
  active_tasks =
      Dict.put task_id
        (record {
          type = task_type;
          node_id = node_id;
          assigned_at = now;
          sensor_type = sensor_type;
        })
        d.active_tasks;
}

unfoldable pub complete_task : String → Distributor → Distributor
complete_task task_id d = record d { active_tasks = Dict.remove task_id d.active_tasks }

unfoldable pub get_pending_tasks : String → Distributor → Dict ActiveTask
get_pending_tasks node_id d = Dict.keep_items (λ _ t. t.node_id == node_id) d.active_tasks

-- `max(alive_peers, key=...)` over the peers `first` and `others`
unfoldable pub best_peer : String × Peer → Dict Peer → String × Peer
best_peer first others = max_by (λ (id, p). peer_score p) first others

-- active_tasks[task_id]["node_id"] = best_id, if the task is there
unfoldable pub move_task : String → String → Dict ActiveTask → Dict ActiveTask
move_task task_id best_id tasks = elim (Dict.get task_id tasks) [
  | none ↦ tasks
  | some t ↦ Dict.put task_id (record t { node_id = best_id }) tasks
]

unfoldable pub reassign_task :
    (deliver : ℕ → String → Bool)
    → String
    → ActiveTask
    → String × Peer
    → Dict Peer
    → Distributor
    → Distributor
unfolding best_peer
reassign_task deliver task_id task first others d =
    let best = best_peer first others in
    let message : Assign = record {
      task_id = task_id;
      sensor_type = task.sensor_type;
      target = best.0;
      addr = address_of best.1;
    } in
    record d {
      sent = d.sent ++ message ∷ [];
      active_tasks =
          if deliver (length d.sent) (address_of best.1)
          then move_task task_id best.0 d.active_tasks
          else d.active_tasks;
    }

-- the keys of `_LOCAL_RUNNERS`
abbrev pub local_runners : List String
local_runners = "clean" ∷ "anomaly" ∷ "trend" ∷ "history" ∷ "action" ∷ []

-- A task of another type is not run. The worker's result is only logged.
unfoldable pub run_locally : String → ActiveTask → Distributor → Distributor
run_locally task_id task d =
    if any (λ t. t == task.type) local_runners then record d { ran = d.ran ++ task_id ∷ [] } else d
