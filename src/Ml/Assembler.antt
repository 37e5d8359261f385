-- ===== src/Ml/Assembler.antt =====
-- ml/result_assembler.py: `ResultAssembler.assemble`. A value that Python cannot hash as a status,
-- or whose length it cannot take as the list of anomalies, raises (`none`). The line that is
-- appended to the history file is left out.
pub mod Status
pub mod Tally
use anp_edge_swarm.Base.{
  ℕ, ltb, String, ◌==◌, Bool, true, false, not, ◌&&◌, Option, none, some, List, [], ◌∷◌, map,
  if◌then◌else◌, keep, count_if,
}
use anp_edge_swarm.Base.Json.{Json, Items, Fields}
use anp_edge_swarm.Dict
use anp_edge_swarm.Dict.{Dict, or_default}
use anp_edge_swarm.Ml.Decomposer.{Task}
use anp_edge_swarm.Ml.Executor.{TaskResult, Results, task_name, tasks}

-- `_SEVERITY_RANK`
abbrev pub severity_rank : Dict ℕ
severity_rank =
    ("OK", 0)
    ∷ ("UNKNOWN", 1)
    ∷ ("LOW", 2)
    ∷ ("MEDIUM", 3)
    ∷ ("WARNING", 4)
    ∷ ("HIGH", 5)
    ∷ ("CRITICAL", 6)
    ∷ []

-- `_SEVERITY_RANK.get(s, 0)`; lists and dicts have no hash.
unfoldable pub rank_of : Json → Option ℕ
rank_of (Json.str s) = some (or_default 0 (Dict.get s severity_rank))
rank_of (Json.arr xs) = none
rank_of (Json.obj xs) = none
rank_of _ = some 0

-- `max` gives the first of the greatest.
abbrev pub higher : Json → Json → Option ℕ → Option ℕ → Option Json
higher a b (some m) (some n) = some (if ltb m n then b else a)
higher a b _ _ = none

unfoldable pub highest_status : Json → Json → Option Json
unfolding rank_of
highest_status a b = higher a b (rank_of a) (rank_of b)

abbrev pub sized : Json → Bool
sized (Json.str s) = true
sized (Json.arr xs) = true
sized (Json.obj xs) = true
sized _ = false

-- `res.result if res and res.success else {}`
abbrev pub successful : Option TaskResult → Dict Json
successful none = []
successful (some r) = if r.success then r.result else []

pub record FinalOutput : Type 0 where
  pub status : Json
  pub clean_data : Dict Json
  pub anomalies_found : Json
  pub trends : Json
  pub historical_match : Dict Json
  pub recommended_action : Json
  pub action_urgency : Json
  pub nodes_contributed : ℕ
  pub failed_tasks : List String

unfoldable pub output_of : Task → Results → Dict Json
unfolding task_name
output_of t results = successful (Dict.get (task_name t) results)

abbrev pub unknown : Json
unknown = Json.str "UNKNOWN"

unfoldable pub anomaly_status : Results → Json
unfolding output_of
anomaly_status results = or_default unknown (Dict.get "status" (output_of Task.anomaly results))

unfoldable pub action_urgency : Results → Json
unfolding output_of
action_urgency results = or_default unknown (Dict.get "urgency" (output_of Task.action results))

abbrev pub has_failed : Option TaskResult → Bool
has_failed none = false
has_failed (some r) = not r.success

abbrev pub has_succeeded : Option TaskResult → Bool
has_succeeded none = false
has_succeeded (some r) = r.success

unfoldable pub failed_tasks : Results → List String
unfolding task_name
failed_tasks results = map task_name (keep (λ t. has_failed (Dict.get (task_name t) results)) tasks)

unfoldable pub nodes_contributed : Results → ℕ
unfolding task_name
nodes_contributed results = count_if (λ t. has_succeeded (Dict.get (task_name t) results)) tasks

unfoldable pub with_status : Results → Option Json → Option FinalOutput
unfolding output_of failed_tasks nodes_contributed action_urgency
with_status results none = none
with_status results (some status) =
    let anomalies =
      or_default (Json.arr Items.nil) (Dict.get "anomalies" (output_of Task.anomaly results)) in
    if sized anomalies
    then some (record {
      status = status;
      clean_data = output_of Task.clean results;
      anomalies_found = anomalies;
      trends = or_default (Json.obj Fields.end) (Dict.get "trends" (output_of Task.trend results));
      historical_match = output_of Task.history results;
      recommended_action =
          or_default (Json.str "") (Dict.get "action" (output_of Task.action results));
      action_urgency = action_urgency results;
      nodes_contributed = nodes_contributed results;
      failed_tasks = failed_tasks results;
    })
    else none

unfoldable pub assemble : Results → Option FinalOutput
unfolding highest_status anomaly_status action_urgency with_status
assemble results =
    with_status results (highest_status (anomaly_status results) (action_urgency results))
