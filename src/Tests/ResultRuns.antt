-- ===== src/Tests/ResultRuns.antt =====
-- swarm/result_collector.py: a collector with one result, and what arrives next.
use anp_edge_swarm.Base.{String, ◌≡◌, true, some, [], ◌∷◌, arith}
use anp_edge_swarm.Base.Json.{Json, Fields}
use anp_edge_swarm.Swarm.Results.{
  Key, values, Received, Collector, Round, collect_all, wait_for_results,
}
use anp_edge_swarm.Swarm.Results.Wait.{IsAnswer, wait_for_results-IsAnswer, wait_for_results-old}
use anp_edge_swarm.Swarm.Results.Stopped.{collect_all-NoObject}

abbrev result : String → Json
result id =
    Json.obj (
      Fields.field "type" (Json.str "TASK_RESULT")
        (Fields.field "task_id" (Json.str id) Fields.end))

abbrev one : Collector
one = record { listening = true; results = (Key.text "t1", result "t1") ∷ [] }

abbrev early : Round
early = record { arrived = Received.value (result "t2") ∷ []; now = 3 }

abbrev late : Round
late = record { arrived = []; now = 16 }

wait_for_results-IsAnswer_example :
    IsAnswer 3 15 (early ∷ late ∷ []) one (wait_for_results 3 15 (early ∷ late ∷ []) one)
wait_for_results-IsAnswer_example =
    wait_for_results-IsAnswer 3 15 (early ∷ []) [] late one (omega arith)

wait_for_results-old_example :
    wait_for_results 1 15 (late ∷ []) one ≡ some (values (collect_all [] one).results)
unfolding values
wait_for_results-old_example = wait_for_results-old 1 15 late [] one (omega arith)

collect_all-NoObject_example :
    (collect_all (Received.value (Json.num 1) ∷ Received.value (result "t3") ∷ []) one).results
    ≡ (collect_all [] one).results
collect_all-NoObject_example =
    collect_all-NoObject [] (Received.value (result "t3") ∷ []) (Json.num 1) one
      (λ r e. absurd (cc))
