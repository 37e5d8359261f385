-- ===== src/Swarm/Health.antt =====
-- swarm/health_monitor.py: `HealthMonitor`. One round of its loop is `round`: the pings of the
-- known peers, in order, then the nodes that have not been seen for long. Arguments are the time
-- of the round, the pings' answers, the outcome of the handshake validations and of the sends.
-- Events that are published are a list.
pub mod Reassign
pub mod Transitions
pub mod Failed
use anp_edge_swarm.Base.{
  ℕ, zero, suc, ◌+◌, ◌-◌, ◌^◌, min, ltb, leb, String, ◌==◌, Bool, true, false, not, ◌&&◌, ◌||◌,
  Option, none, some, List, [], ◌∷◌, ◌++◌, any, length, keep, last_n, count_if, if◌then◌else◌,
}
use anp_edge_swarm.Dict
use anp_edge_swarm.Dict.{Dict, or_default}
use anp_edge_swarm.Swarm.Distributor.{
  Peer, ActiveTask, Distributor, address_of, get_pending_tasks, reassign_task, run_locally,
}

abbrev pub flapping_threshold : ℕ
flapping_threshold = 5

abbrev pub backoff_base : ℕ
backoff_base = 2

abbrev pub max_backoff : ℕ
max_backoff = 60

abbrev pub dead_threshold : ℕ
dead_threshold = 30

abbrev pub max_retries : ℕ
max_retries = 3

pub data Status : Type 0 where
  alive reconnecting flapping degraded dead : Status

unfoldable pub is_dead : Status → Bool
is_dead Status.dead = true
is_dead _ = false

unfoldable pub is_alive : Status → Bool
is_alive Status.alive = true
is_alive _ = false

unfoldable pub is_reconnecting : Status → Bool
is_reconnecting Status.reconnecting = true
is_reconnecting _ = false

pub record NodeHealth : Type 0 where
  pub status : Status
  pub last_seen : ℕ
  pub fail_count : ℕ
  pub ping_count : ℕ
  pub response_ms : ℕ

pub data Event : Type 0 where
  node_joined : (node_id ip : String) → Event
  node_dead : (node_id : String) (last_seen : ℕ) → Event

pub record Monitor : Type 0 where
  pub node_health : Dict NodeHealth
  pub state_changes : Dict (List (ℕ × Status))
  pub rejoin_pending : Dict (Unit {0})
  pub distributor : Distributor
  pub events : List Event

-- The changes of the last 60 seconds.
unfoldable pub is_flapping : ℕ → String → Monitor → Bool
is_flapping now node_id m = leb flapping_threshold (
    length
      (keep (λ (t, state). ltb (now - t) 60) (or_default [] (Dict.get node_id m.state_changes))))

-- Appends, and keeps the 20 most recent entries.
unfoldable pub record_state_change : ℕ → String → Status → Monitor → Monitor
record_state_change now node_id state m =
    let changes = or_default [] (Dict.get node_id m.state_changes) ++ (now, state) ∷ [] in
    record m {
      state_changes =
          Dict.put node_id (if ltb 20 (length changes) then last_n 20 changes else changes)
            m.state_changes;
    }

unfoldable pub get_backoff : String → Monitor → ℕ
get_backoff node_id m = elim (Dict.get node_id m.node_health) [
  | none ↦ min max_backoff (backoff_base ^ 0)
  | some h ↦ min max_backoff (backoff_base ^ h.fail_count)
]

unfoldable pub set_health : String → NodeHealth → Monitor → Monitor
set_health node_id h m = record m { node_health = Dict.put node_id h m.node_health }

unfoldable pub publish : Event → Monitor → Monitor
publish e m = record m { events = m.events ++ e ∷ [] }

-- get_node_status, with `none` for "unknown"
unfoldable pub get_node_status : String → Monitor → Option Status
get_node_status node_id m = elim (Dict.get node_id m.node_health) [
  | none ↦ none
  | some h ↦ some h.status
]

abbrev pub status_is_alive : Option Status → Bool
status_is_alive none = false
status_is_alive (some s) = is_alive s

unfoldable pub is_node_trusted : ℕ → String → Monitor → Bool
is_node_trusted now node_id m =
    if status_is_alive (get_node_status node_id m) then not (is_flapping now node_id m) else false

unfoldable pub get_alive_count : Monitor → ℕ
get_alive_count m = count_if (λ h. is_alive h.status) (Dict.values m.node_health)

-- The loops at the end of `_on_node_dead`.
unfoldable pub run_all_locally : Dict ActiveTask → Distributor → Distributor
run_all_locally [] d = d
run_all_locally ((task_id, t) ∷ rest) d = run_all_locally rest (run_locally task_id t d)

unfoldable pub reassign_all :
    (deliver : ℕ → String → Bool)
    → String × Peer
    → Dict Peer
    → Dict ActiveTask
    → Distributor
    → Distributor
reassign_all deliver first others [] d = d
reassign_all deliver first others ((task_id, t) ∷ rest) d =
    reassign_all deliver first others rest (reassign_task deliver task_id t first others d)

unfoldable pub alive_peers : Dict Peer → String → Monitor → Dict Peer
alive_peers peers node_id m =
    Dict.keep_items (λ pid _. status_is_alive (get_node_status pid m) && not (pid == node_id)) peers

-- With no pending task neither loop does anything, as the early return.
unfoldable pub hand_over :
    (deliver : ℕ → String → Bool) → Dict Peer → Dict ActiveTask → Distributor → Distributor
hand_over deliver [] pending d = run_all_locally pending d
hand_over deliver (first ∷ others) pending d = reassign_all deliver first others pending d

unfoldable pub on_node_dead : (deliver : ℕ → String → Bool) → Dict Peer → String → Monitor → Monitor
unfolding hand_over alive_peers
on_node_dead deliver peers node_id m = record m {
  distributor =
      hand_over deliver (alive_peers peers node_id m) (get_pending_tasks node_id m.distributor)
        m.distributor;
}

module _ (now : ℕ) (node_id : String) where
  -- A ping was answered after `ms` milliseconds; `validated` is what the handshake check says.
  unfoldable pub on_answer : (validated : Bool) (ms : ℕ) → NodeHealth → Monitor → Monitor
  unfolding set_health record_state_change
  on_answer validated ms h m =
      if is_dead h.status
      then record_state_change now node_id Status.reconnecting (
          set_health node_id (record h { response_ms = ms; status = Status.reconnecting })
            (record m { rejoin_pending = Dict.put node_id tt m.rejoin_pending }))
      else if Dict.has node_id m.rejoin_pending
      then (if validated
          then record_state_change now node_id Status.alive (
              set_health node_id
                (record h {
                  response_ms = ms;
                  status = Status.alive;
                  last_seen = now;
                  fail_count = 0;
                })
                (record m { rejoin_pending = Dict.remove node_id m.rejoin_pending }))
          else set_health node_id (record h { response_ms = ms }) m)
      else if is_flapping now node_id m
      then set_health node_id (record h { response_ms = ms; status = Status.flapping }) m
      else (let m' =
            if is_alive h.status then m else record_state_change now node_id Status.alive m in
          set_health node_id
            (record h { response_ms = ms; status = Status.alive; last_seen = now; fail_count = 0 })
            m')

  -- A ping failed.
  unfoldable pub on_failure :
      (deliver : ℕ → String → Bool) → Dict Peer → NodeHealth → Monitor → Monitor
  unfolding set_health record_state_change publish
  on_failure deliver peers h m =
      let failed : NodeHealth = record h { fail_count = h.fail_count + 1 } in
      if leb max_retries failed.fail_count
      then (if is_dead h.status
          then set_health node_id failed m
          else publish (Event.node_dead node_id h.last_seen) (
              on_node_dead deliver peers node_id (
                record_state_change now node_id Status.dead
                  (set_health node_id (record failed { status = Status.dead }) m))))
      else set_health node_id (record failed { status = Status.degraded }) m

-- What a ping brings back: the milliseconds, or nothing.
abbrev pub Ping : Type 0
Ping = Option ℕ

abbrev pub fresh_health : ℕ → NodeHealth
fresh_health now = record {
  status = Status.alive;
  last_seen = now;
  fail_count = 0;
  ping_count = 0;
  response_ms = 0;
}

-- A node that is not in the table is entered as alive, with an event.
unfoldable pub enter : ℕ → String → String → Monitor → Monitor
unfolding publish set_health
enter now node_id ip m =
    if Dict.has node_id m.node_health
    then m
    else publish (Event.node_joined node_id ip) (set_health node_id (fresh_health now) m)

-- The body of the loop over the peers, for a peer whose address is not empty.
unfoldable pub check_peer :
    (now : ℕ) (deliver : ℕ → String → Bool) (validated : String → Bool)
    → Dict Peer
    → Ping
    → String
    → String
    → Monitor
    → Monitor
check_peer now deliver validated peers ping node_id ip m =
    let entered = enter now node_id ip m in
    let old = or_default (fresh_health now) (Dict.get node_id entered.node_health) in
    let h : NodeHealth = record old { ping_count = old.ping_count + 1 } in
    elim ping [
      | some ms ↦ on_answer now node_id (validated node_id) ms h entered
      | none ↦ on_failure now node_id deliver peers h entered
    ]

unfoldable pub check_peers :
    (now : ℕ) (deliver : ℕ → String → Bool) (validated : String → Bool) (ping : String → Ping)
    → Dict Peer
    → Dict Peer
    → Monitor
    → Monitor
unfolding check_peer
check_peers now deliver validated ping all [] m = m
check_peers now deliver validated ping all ((node_id, p) ∷ rest) m =
    let ip = address_of p in
    check_peers now deliver validated ping all rest
      (if ip == "" then m else check_peer now deliver validated all (ping ip) node_id ip m)

unfoldable pub timed_out : ℕ → NodeHealth → Bool
timed_out now h =
    ltb dead_threshold (now - h.last_seen) && not (is_dead h.status || is_reconnecting h.status)

-- The nodes that have not been seen for long are dead; their tasks stay where they are. The loop
-- is over the names, and each step reads the entry, which the source shares with the table.
unfoldable pub expire : ℕ → List String → Monitor → Monitor
unfolding timed_out set_health record_state_change publish
expire now [] m = m
expire now (node_id ∷ rest) m = expire now rest (elim (Dict.get node_id m.node_health) [
  | none ↦ m
  | some h ↦
      if timed_out now h
      then publish (Event.node_dead node_id h.last_seen) (
          record_state_change now node_id Status.dead
            (set_health node_id (record h { status = Status.dead }) m))
      else m
])

unfoldable pub round :
    (now : ℕ) (deliver : ℕ → String → Bool) (validated : String → Bool) (ping : String → Ping)
    → Dict Peer
    → Monitor
    → Monitor
unfolding check_peers expire
round now deliver validated ping peers m =
    let checked = check_peers now deliver validated ping peers peers m in
    expire now (Dict.keys checked.node_health) checked
