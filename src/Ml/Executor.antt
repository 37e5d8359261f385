-- ===== src/Ml/Executor.antt =====
-- ml/parallel_executor.py: `ParallelExecutor.execute`, and the dispatch of ml/inference_server.py.
-- What the nodes do with a task is an argument: a task ends with a result, raises, or does not end
-- in time. The time that a task took is left out; a result's `result` is a dict.
pub mod Complete
use anp_edge_swarm.Base.{
  ℕ, String, ◌==◌, Bool, true, false, not, Option, none, some, List, [], ◌∷◌, if◌then◌else◌, keep,
}
use anp_edge_swarm.Base.Json.{Json}
use anp_edge_swarm.Dict
use anp_edge_swarm.Dict.{Dict, or_default}
use anp_edge_swarm.Ml.Decomposer.{Task, Assignment}

pub record TaskResult : Type 0 where
  pub task_type : String
  pub node_id : String
  pub result : Dict Json
  pub success : Bool
  pub error : Option String

unfoldable pub task_name : Task → String
task_name Task.clean = "clean"
task_name Task.anomaly = "anomaly"
task_name Task.trend = "trend"
task_name Task.history = "history"
task_name Task.action = "action"

-- `TASKS`
abbrev pub tasks : List Task
tasks = Task.clean ∷ Task.anomaly ∷ Task.trend ∷ Task.history ∷ Task.action ∷ []

abbrev pub is_action : Task → Bool
is_action Task.action = true
is_action _ = false

-- How a task ends on its node.
pub data Finish : Type 0 where
  finished : TaskResult → Finish
  raised : (reason : String) → Finish
  late : Finish

abbrev pub Plan : Type 0
Plan = List (Task × Assignment)

abbrev pub Results : Type 0
Results = Dict TaskResult

-- `_failed_result`
unfoldable pub failed_result : String → (reason : String) → TaskResult
failed_result task_type reason = record {
  task_type = task_type;
  node_id = "local";
  result = [];
  success = false;
  error = some reason;
}

-- The result that a task's end leaves.
unfoldable pub put_finish : Task → Finish → Results → Results
unfolding task_name failed_result
put_finish t (Finish.finished r) results = Dict.put (task_name t) r results
put_finish t (Finish.raised reason) results =
    Dict.put (task_name t) (failed_result (task_name t) reason) results
put_finish t Finish.late results = results

abbrev pub result_or_empty : Option TaskResult → Dict Json
result_or_empty none = []
result_or_empty (some r) = r.result

-- What the action task gets of the others.
abbrev pub Findings : Type 0
Findings = Dict Json × Dict Json × Dict Json

-- What nodes do: `local` and `remote` run a task on this node or at an address, `local_action` and
-- `remote_action` the action task, which `none` ends with an exception.
pub record Workers : Type 0 where
  pub local : Task → Finish
  pub remote : (ip : String) → Task → Finish
  pub local_action : Findings → Option TaskResult
  pub remote_action : (ip : String) → Findings → TaskResult

module _ (w : Workers) where
  abbrev pub submit : Task → Assignment → Finish
  submit t a = if a.is_local then w.local t else w.remote a.ip t

  unfoldable pub collect : Plan → Results → Results
  unfolding put_finish
  collect [] results = results
  collect ((t, a) ∷ rest) results =
      collect rest (if is_action t then results else put_finish t (submit t a) results)

  -- Tasks without a result have timed out.
  unfoldable pub fill_missing : List Task → Results → Results
  unfolding task_name failed_result
  fill_missing [] results = results
  fill_missing (t ∷ rest) results = fill_missing rest (
      if is_action t
      then results
      else if Dict.has (task_name t) results
      then results
      else Dict.put (task_name t) (failed_result (task_name t) "timeout") results)

  -- `plan.get("action")`
  unfoldable pub action_of : Plan → Option Assignment
  action_of [] = none
  action_of ((t, a) ∷ rest) = let later = action_of rest in if is_action t then some a else later

  unfoldable pub findings : Results → Findings
  findings results = (
    result_or_empty (Dict.get "anomaly" results),
    result_or_empty (Dict.get "trend" results),
    result_or_empty (Dict.get "history" results),
  )

  -- `_run_action_task`
  unfoldable pub run_action_task : Assignment → Results → Option TaskResult
  unfolding findings
  run_action_task a results =
      if a.is_local
      then w.local_action (findings results)
      else some (w.remote_action a.ip (findings results))

  abbrev pub put_action : Results → Option TaskResult → Option Results
  put_action results none = none
  put_action results (some r) = some (Dict.put "action" r results)

  unfoldable pub add_action : Results → Option Assignment → Option Results
  unfolding run_action_task
  add_action results none = some results
  add_action results (some a) = put_action results (run_action_task a results)

  unfoldable pub execute : Plan → Option Results
  unfolding collect fill_missing action_of add_action
  execute plan = add_action (fill_missing tasks (collect plan [])) (action_of plan)

-- What a node answers to a request for a task, by its workers.
unfoldable pub dispatch :
    (host : String) (workers : Dict (Dict Json → TaskResult)) (run_action : Findings → TaskResult)
    → (task_type : String) (input : Dict Json) → Findings
    → TaskResult
dispatch host workers run_action task_type input found =
    if task_type == "action" then run_action found else answer (Dict.get task_type workers)
  where
    answer : Option (Dict Json → TaskResult) → TaskResult
    answer (some fn) = fn input
    answer none = record {
      task_type = task_type;
      node_id = host;
      result = [];
      success = false;
      error = some "Unknown task type";
    }
