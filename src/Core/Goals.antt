-- ===== src/Core/Goals.antt =====
-- core/goal_manager.py: `GoalManager`. The history of the decisions is the engine's, of which it
-- reads the anomaly count and the urgency of the inputs.
pub mod Escalation
use anp_edge_swarm.Base.{
  ℕ, ◌+◌, ltb, leb, eqb, String, ◌==◌, Bool, true, false, not, ◌&&◌, Option, none, some, List, [],
  ◌∷◌, ◌++◌, if◌then◌else◌, count_if, last_n, length,
}

pub data Mode : Type 0 where
  idle monitoring alert surveillance emergency : Mode

-- `MODES[mode]["priority"]`
unfoldable pub priority : Mode → ℕ
priority Mode.idle = 0
priority Mode.monitoring = 1
priority Mode.alert = 2
priority Mode.surveillance = 3
priority Mode.emergency = 4

-- `MODES[mode]["sensors"]`
unfoldable pub sensors : Mode → ℕ
sensors Mode.idle = 1
sensors Mode.monitoring = 3
sensors Mode.alert = 5
sensors Mode.surveillance = 10
sensors Mode.emergency = 10

-- `_INTERVALS`
unfoldable pub get_recommended_interval : Mode → ℕ
get_recommended_interval Mode.idle = 120
get_recommended_interval Mode.monitoring = 30
get_recommended_interval Mode.alert = 15
get_recommended_interval Mode.surveillance = 10
get_recommended_interval Mode.emergency = 5

unfoldable pub parse_mode : String → Option Mode
parse_mode s =
    if s == "idle"
    then some Mode.idle
    else if s == "monitoring"
    then some Mode.monitoring
    else if s == "alert"
    then some Mode.alert
    else if s == "surveillance"
    then some Mode.surveillance
    else if s == "emergency"
    then some Mode.emergency
    else none

pub record Change : Type 0 where
  pub timestamp : ℕ
  pub old : Mode
  pub new : Mode

pub record GoalManager : Type 0 where
  pub current_mode : Mode
  pub mode_history : List Change

-- `set_mode` of a mode of the table.
unfoldable pub enter_mode : (now : ℕ) → Mode → GoalManager → GoalManager
enter_mode now mode g = record {
  current_mode = mode;
  mode_history =
      g.mode_history ++ record { timestamp = now; old = g.current_mode; new = mode } ∷ [];
}

unfoldable pub set_mode : (now : ℕ) → String → GoalManager → Bool × GoalManager
unfolding parse_mode enter_mode
set_mode now mode g = elim (parse_mode mode) [
  | none ↦ (false, g)
  | some m ↦ (true, enter_mode now m g)
]

-- The inputs of a decision: `anomaly_count`, 0 where missing, and `urgency`.
pub record Inputs : Type 0 where
  pub anomaly_count : ℕ
  pub urgency : Option String

abbrev pub has_urgency : String → Inputs → Bool
has_urgency u h = elim h.urgency [ none ↦ false | some v ↦ v == u ]

-- One level down, where the mode has one.
unfoldable pub lower : Mode → Option Mode
lower Mode.emergency = some Mode.surveillance
lower Mode.surveillance = some Mode.alert
lower Mode.alert = some Mode.monitoring
lower _ = none

-- What the counts ask for.
unfoldable pub next_mode : (anomalies criticals highs : ℕ) → Mode → Option Mode
unfolding priority lower
next_mode anomalies criticals highs mode =
    if leb 2 criticals
    then (if ltb (priority mode) 4 then some Mode.emergency else none)
    else if leb 5 highs
    then (if ltb (priority mode) 3 then some Mode.surveillance else none)
    else if leb 8 anomalies
    then (if ltb (priority mode) 2 then some Mode.alert else none)
    else if ltb anomalies 2 && eqb criticals 0 && ltb highs 2
    then lower mode
    else none

unfoldable pub apply_mode : (now : ℕ) → Option Mode → GoalManager → GoalManager
unfolding enter_mode
apply_mode now none g = g
apply_mode now (some m) g = enter_mode now m g

abbrev pub recent : List Inputs → List Inputs
recent decisions = last_n 20 decisions

-- `_evaluate_and_adjust`
unfoldable pub evaluate_and_adjust : (now : ℕ) → List Inputs → GoalManager → GoalManager
unfolding next_mode apply_mode
evaluate_and_adjust now decisions g =
    let history = recent decisions in
    if eqb (length history) 0
    then g
    else apply_mode now
        (next_mode (count_if (λ h. ltb 0 h.anomaly_count) history)
          (count_if (has_urgency "CRITICAL") history) (count_if (has_urgency "HIGH") history)
          g.current_mode)
        g
