-- ===== src/Ml/Executor/Complete.antt =====
-- ml/parallel_executor.py: after an execution every task has a result, whatever the nodes do.
use anp_edge_swarm.Base.{
  String, ◌≡◌, ◌∙◌, refl, sym, ap, subst, true, false, some, List, [], ◌∷◌, map, if◌then◌else◌,
  length, All, Bool-cases, inl, inr, arith, ◌<◌,
}
use anp_edge_swarm.Base.Sort.{sort-length}
use anp_edge_swarm.Dict
use anp_edge_swarm.Dict.{Dict, has-put_kept, has-put_self}
use anp_edge_swarm.Ml.Decomposer.{
  Task, Assignment, Entry, Ranked, assign, all_nodes, rank, place, place_tasks, decompose,
}
use anp_edge_swarm.Ml.Decomposer.Plans.{all_nodes-nonempty}
use anp_edge_swarm.Ml.Executor.{
  TaskResult, Results, Workers, Findings, Plan, task_name, tasks, is_action, failed_result,
  fill_missing, collect, action_of, run_action_task, execute, put_action, add_action,
}

module _ (w : Workers) where
  -- One step of the loop.
  abbrev fill : Task → Results → Results
  fill t results =
      if is_action t
      then results
      else if Dict.has (task_name t) results
      then results
      else Dict.put (task_name t) (failed_result (task_name t) "timeout") results

  fill-has :
      (t : Task) (j : String) (results : Results)
      → Dict.has j results ≡ true
      → Dict.has j (fill t results) ≡ true
  fill-has t j results h = elim (Bool-cases (is_action t)) [
    | inl a ↦ rw a h
    | inr a ↦ elim (Bool-cases (Dict.has (task_name t) results)) [
      | inl e ↦ rw (a, e) h
      | inr e ↦
          rw (a, e) (has-put_kept (task_name t) j (failed_result (task_name t) "timeout") results h)
    ]
  ]

  fill-has_self :
      (t : Task) (results : Results)
      → is_action t ≡ false
      → Dict.has (task_name t) (fill t results) ≡ true
  fill-has_self t results a = elim (Bool-cases (Dict.has (task_name t) results)) [
    | inl e ↦ rw (a, e) e
    | inr e ↦ rw (a, e) (has-put_self (task_name t) (failed_result (task_name t) "timeout") results)
  ]

  fill_missing-has :
      (ts : List Task) (j : String) (results : Results)
      → Dict.has j results ≡ true
      → Dict.has j (fill_missing w ts results) ≡ true
  unfolding fill_missing
  fill_missing-has [] j results h = h
  fill_missing-has (t ∷ ts) j results h =
      fill_missing-has ts j (fill t results) (fill-has t j results h)

  fill_missing-All :
      (ts : List Task) (results : Results)
      → All
          (λ t. is_action t ≡ false → Dict.has (task_name t) (fill_missing w ts results) ≡ true)
          ts
  unfolding fill_missing
  fill_missing-All [] results = tt
  fill_missing-All (t ∷ ts) results = (
    λ a. fill_missing-has ts (task_name t) (fill t results) (fill-has_self t results a),
    fill_missing-All ts (fill t results),
  )

  action_returns :
      (a : Assignment) (results : Results)
      → ((f : Findings) → (r : TaskResult) × (w.local_action f ≡ some r))
      → (r : TaskResult) × (run_action_task w a results ≡ some r)
  unfolding run_action_task
  action_returns a results returns = elim (Bool-cases a.is_local) [
    | inl e ↦ rw e (returns _)
    | inr e ↦ rw e (_, refl)
  ]

  -- A plan with an action task gives every task a result, where the local action task returns.
  pub execute-All :
      (plan : Plan) (a : Assignment)
      → action_of w plan ≡ some a
      → ((f : Findings) → (r : TaskResult) × (w.local_action f ≡ some r))
      → (results : Results) × (execute w plan ≡ some results)
        × All (λ t. Dict.has (task_name t) results ≡ true) tasks
  unfolding execute add_action run_action_task task_name
  execute-All plan a has_action returns =
      let filled = fill_missing w tasks (collect w plan []) in
      let (clean, (anomaly, (trend, (history, _)))) = fill_missing-All tasks (collect w plan []) in
      let (r, e) = action_returns a filled returns in
      (
        Dict.put "action" r filled,
        ap (add_action w filled) has_action ∙ ap (put_action w filled) e,
        (
          has-put_kept "action" "clean" r filled (clean refl),
          (
            has-put_kept "action" "anomaly" r filled (anomaly refl),
            (
              has-put_kept "action" "trend" r filled (trend refl),
              (
                has-put_kept "action" "history" r filled (history refl),
                (has-put_self "action" r filled, tt),
              ),
            ),
          ),
        ),
      )

  -- The plan of the decomposer has an action task, whatever nodes are known.
  action_of-place :
      (f : Ranked → Assignment) (nodes : List Ranked)
      → 0 < length nodes
      → (a : Assignment) × (action_of w (map (λ (t, m). (t, f m)) (place nodes)) ≡ some a)
  unfolding action_of place place_tasks
  action_of-place f [] h = absurd (omega (arith, h))
  action_of-place f (n ∷ []) h = (f n, refl)
  action_of-place f (n ∷ m ∷ ns) h = (_, refl)

  pub action_of-decompose :
      (local_id : String) (known : Dict Entry)
      → (a : Assignment) × (action_of w (decompose local_id known) ≡ some a)
  unfolding decompose rank
  action_of-decompose local_id known =
      let nodes = all_nodes local_id known in
      action_of-place (assign local_id) (rank nodes)
        (subst (λ n. 0 < n) (sym (sort-length _ nodes)) (all_nodes-nonempty local_id known))
