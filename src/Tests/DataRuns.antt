-- ===== src/Tests/DataRuns.antt =====
-- db/, ml/ and core/: small tables, one known node, an engine with an empty history.
use anp_edge_swarm.Base.{
  ◌≡◌, ◌⊎◌, inl, inr, refl, ℕ, String, Bool, true, false, List, [], ◌∷◌, none, some, arith, All,
  length,
}
use anp_edge_swarm.Base.Json.{Json}
use anp_edge_swarm.Dict
use anp_edge_swarm.Db.JsonAdapter.{Row}
use anp_edge_swarm.Db.Sync.{Reading, sync_turn}
use anp_edge_swarm.Db.Sync.Spread.{Disjoint, sync_turn-Disjoint}
use anp_edge_swarm.Ml.Decomposer.{Entry, Ranked, no_caps, all_nodes, rank, decompose}
use anp_edge_swarm.Ml.Decomposer.Plans.{IsPlan, decompose-IsPlan}
use anp_edge_swarm.Core.Goals.{Mode, GoalManager, Inputs, evaluate_and_adjust}
use anp_edge_swarm.Core.Goals.Escalation.{
  IsAdjusted, evaluate-IsAdjusted, anomalies, criticals, highs,
}
use anp_edge_swarm.Core.Learning.{Engine, record_decision, learn_from_history}
use anp_edge_swarm.Core.Learning.Limits.{
  IsEngine, record_decision-IsEngine, learn_from_history-IsEngine,
}
use anp_edge_swarm.Tests.HealthRuns.{peers}

abbrev row : Row
row = ("record_id", Json.str "r1") ∷ ("value", Json.num 3) ∷ []

abbrev reading : Reading
reading = record {
  record_id = "r1";
  timestamp = 1;
  node_id = "n";
  sensor_type = "temperature";
  raw_json = Json.null;
  synced = false;
}

abbrev size : List Reading → ℕ
size rs = length rs

abbrev all_connect : String → Bool
all_connect ip = true

sync_turn-Disjoint_example :
    Disjoint (sync_turn size 100 all_connect "10.0.0.9" peers (reading ∷ [])).0
sync_turn-Disjoint_example =
    sync_turn-Disjoint size 100 all_connect "10.0.0.9" peers (reading ∷ []) (refl, tt)

abbrev node_entry : Entry
node_entry = record { flat = no_caps; inner = none; ip = "10.0.0.2"; addr = none }

abbrev OneOfTwo : Ranked → Type 0
OneOfTwo n = (n.0 ≡ "w1") ⊎ (n.0 ≡ "me")

nodes_known : All OneOfTwo (all_nodes "me" (("w1", node_entry) ∷ []))
unfolding all_nodes Dict.has Dict.get
nodes_known = (inl refl, (inr refl, tt))

decompose-IsPlan_example :
    IsPlan OneOfTwo "me"
      (rank (all_nodes "me" (("w1", node_entry) ∷ [])))
      (decompose "me" (("w1", node_entry) ∷ []))
decompose-IsPlan_example = decompose-IsPlan OneOfTwo "me" (("w1", node_entry) ∷ []) nodes_known

abbrev two_critical : List Inputs
two_critical =
    record { anomaly_count = 2; urgency = some "CRITICAL" }
    ∷ record { anomaly_count = 1; urgency = some "CRITICAL" }
    ∷ []

abbrev watching : GoalManager
watching = record { current_mode = Mode.monitoring; mode_history = [] }

evaluate-IsAdjusted_example :
    IsAdjusted
      (anomalies two_critical)
      (criticals two_critical)
      (highs two_critical)
      Mode.monitoring
      (evaluate_and_adjust 9 two_critical watching).current_mode
evaluate-IsAdjusted_example = evaluate-IsAdjusted 9 two_critical watching

abbrev engine : Engine
engine = record {
  decision_history = [];
  anomaly_threshold = 25;
  trust_score = [];
  performance_logs = 0;
}

engine-IsEngine : IsEngine engine
engine-IsEngine = record {
  history = omega arith;
  low = omega arith;
  high = omega arith;
  trust = tt;
}

learn_from_history-IsEngine_example :
    IsEngine (learn_from_history (λ p. false) (record_decision 3 "d1" "anomaly" ("n" ∷ []) engine))
learn_from_history-IsEngine_example =
    learn_from_history-IsEngine (λ p. false) (record_decision 3 "d1" "anomaly" ("n" ∷ []) engine)
      (record_decision-IsEngine 3 "d1" "anomaly" ("n" ∷ []) engine engine-IsEngine)
