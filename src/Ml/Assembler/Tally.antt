-- ===== src/Ml/Assembler/Tally.antt =====
-- ml/result_assembler.py: each task is counted as contributed or as failed.
use anp_edge_swarm.Base.{
  ◌+◌, String, ◌≡◌, refl, true, false, some, List, [], ◌∷◌, map, keep, count_if, length, All,
  Bool-cases, Option-cases, inl, inr, arith,
}
use anp_edge_swarm.Dict
use anp_edge_swarm.Dict.{Dict}
use anp_edge_swarm.Ml.Decomposer.{Task, Entry, decompose}
use anp_edge_swarm.Ml.Executor.{TaskResult, Results, Workers, Findings, task_name, tasks, execute}
use anp_edge_swarm.Ml.Executor.Complete.{execute-All, action_of-decompose}
use anp_edge_swarm.Ml.Assembler.{has_failed, has_succeeded, failed_tasks, nodes_contributed}

-- A task with a result is counted in one of the two ways.
tally :
    (results : Results) (name : Task → String) (ts : List Task)
    → All (λ t. Dict.has (name t) results ≡ true) ts
    → count_if (λ t. has_succeeded (Dict.get (name t) results)) ts
        + length (map name (keep (λ t. has_failed (Dict.get (name t) results)) ts))
      ≡ length ts
unfolding Dict.has
tally results name [] h = refl
tally results name (t ∷ ts) h = elim (Option-cases (Dict.get (name t) results)) [
  | inl e ↦ let no : false ≡ true = rw e at h.0 in absurd (cc)
  | inr (r, e) ↦ elim (Bool-cases r.success) [
    | inl s ↦ rw e (rw s (omega (arith, tally results name ts h.1)))
    | inr s ↦ rw e (rw s (omega (arith, tally results name ts h.1)))
  ]
]

-- A cycle of the pipeline: whatever nodes are known and whatever they do with the tasks, when the
-- local action task returns the execution of the decomposer's plan returns, and the five tasks are
-- those that contributed and those that failed.
pub decompose-execute-tally :
    (w : Workers) (local_id : String) (known : Dict Entry)
    → ((f : Findings) → (r : TaskResult) × (w.local_action f ≡ some r))
    → (results : Results) × (execute w (decompose local_id known) ≡ some results)
      × (nodes_contributed results + length (failed_tasks results) ≡ 5)
unfolding nodes_contributed failed_tasks
decompose-execute-tally w local_id known returns =
    let (a, has_action) = action_of-decompose w local_id known in
    let (results, done, all) = execute-All w (decompose local_id known) a has_action returns in
    (results, done, tally results task_name tasks all)
