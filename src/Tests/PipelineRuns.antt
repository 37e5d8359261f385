-- ===== src/Tests/PipelineRuns.antt =====
-- ml/, agents/action_agent.py, core/ and swarm/peer_client.py: one remote node whose worker raises, a
-- message in two pieces, and a peer that answers.
use anp_edge_swarm.Base.{
  ◌&&◌, ℕ, List, ◌+◌, ◌<◌, ltb, leb, String, ◌≡◌, ◌⊎◌, refl, true, ◌||◌, none, some, [], ◌∷◌, ◌++◌,
  map, any, take, length, if◌then◌else◌, arith,
}
use anp_edge_swarm.Base.Json.{Json, Items, Fields}
use anp_edge_swarm.Dict
use anp_edge_swarm.Dict.{Dict}
use anp_edge_swarm.Ml.Frames.{Conn, to_bytes, frame, recv_exact, recv_frame}
use anp_edge_swarm.Ml.Frames.Chunks.{joined, recv_exact-take}
use anp_edge_swarm.Ml.Frames.Trip.{recv_frame-frame}
use anp_edge_swarm.Ml.Decomposer.{decompose}
use anp_edge_swarm.Ml.Executor.{TaskResult, Results, Workers, Finish, execute}
use anp_edge_swarm.Ml.Assembler.{
  FinalOutput, assemble, nodes_contributed, failed_tasks, anomaly_status, action_urgency,
  with_status,
}
use anp_edge_swarm.Ml.Assembler.Tally.{decompose-execute-tally}
use anp_edge_swarm.Agents.Factory.{create_from_intent}
use anp_edge_swarm.Agents.Action.{equals, plan_actions}
use anp_edge_swarm.Agents.Action
use anp_edge_swarm.Agents.Action.Escalation.{is_escalation, execute-assemble}
use anp_edge_swarm.Core.Reflection.{reflect_and_decide}
use anp_edge_swarm.Core.Reflection.Cycle.{
  recorded_inputs, current_input, reflect_and_decide-recorded,
}
use anp_edge_swarm.Core.Intent.{parse_intent}
use anp_edge_swarm.Core.Intent.Agents.{create_from_intent-parse_intent}
use anp_edge_swarm.Core.Pipeline.{Pipeline, Reading}
use anp_edge_swarm.Core.Pipeline.Learned.{Event, run, run-learned}
use anp_edge_swarm.Tests.AgentRuns.{factory, new_id}

abbrev conn : Conn
conn = (0 ∷ 0 ∷ []) ∷ (0 ∷ 2 ∷ 7 ∷ []) ∷ (8 ∷ 9 ∷ []) ∷ []

recv_exact-take_example : (recv_exact 100 5 conn).0 ≡ (
    if ltb 100 5
    then none
    else if leb 5 (length (joined conn))
    then some (take 5 (joined conn))
    else none)
recv_exact-take_example = recv_exact-take 100 5 conn (omega arith, (omega arith, (omega arith, tt)))

sent : joined conn ≡ frame (7 ∷ 8 ∷ []) ++ 9 ∷ []
unfolding frame to_bytes
sent = refl

recv_frame-frame_example :
    ((recv_frame 100 conn).0 ≡ some (7 ∷ 8 ∷ [])) × (joined (recv_frame 100 conn).1 ≡ 9 ∷ [])
recv_frame-frame_example =
    recv_frame-frame 100 (7 ∷ 8 ∷ []) (9 ∷ []) conn (omega arith, (omega arith, (omega arith, tt)))
      sent (omega arith) (omega arith) (omega arith)

abbrev result : String → Dict Json → TaskResult
result name found = record {
  task_type = name;
  node_id = "n";
  result = found;
  success = true;
  error = none;
}

abbrev workers : Workers
workers = record {
  local = λ t. Finish.raised "no data";
  remote = λ ip t. Finish.late;
  local_action = λ f. some (result "action" []);
  remote_action = λ ip f. result "action" [];
}

decompose-execute-tally_example :
    (results : Results) × (execute workers (decompose "n" []) ≡ some results)
    × (nodes_contributed results + length (failed_tasks results) ≡ 5)
decompose-execute-tally_example =
    decompose-execute-tally workers "n" [] (λ f. (result "action" [], refl))

abbrev results : Results
results = ("anomaly", result "anomaly" (("status", Json.str "CRITICAL") ∷ [])) ∷ []

abbrev output : FinalOutput
output = record {
  status = Json.str "CRITICAL";
  clean_data = [];
  anomalies_found = Json.arr Items.nil;
  trends = Json.obj Fields.end;
  historical_match = [];
  recommended_action = Json.str "";
  action_urgency = Json.str "UNKNOWN";
  nodes_contributed = 1;
  failed_tasks = [];
}

assembled : assemble results ≡ some output
unfolding assemble with_status Dict.get
assembled = refl

execute-assemble_example :
    let critical =
      equals (anomaly_status results) "CRITICAL" || equals (action_urgency results) "CRITICAL" in
    (any is_escalation (Action.execute output).actions_taken
      ≡ critical && Action.can_print output.anomalies_found)
    × ((plan_actions output).escalate ≡ critical)
execute-assemble_example = execute-assemble results output assembled

abbrev half : ℕ → ℕ → ℕ
half a b = 500

reflect_and_decide-recorded_example :
    let d =
      reflect_and_decide half 600
        (current_input output)
        (map (λ (n, f). recorded_inputs n f) ((1, output) ∷ [])) in
    (d.strategy ≡ "log_only") ⊎ (d.strategy ≡ "investigate_further")
reflect_and_decide-recorded_example = reflect_and_decide-recorded half 600 output ((1, output) ∷ [])

create_from_intent-parse_intent_example :
    let intent = parse_intent "check temp now" ("check" ∷ "temp" ∷ "now" ∷ []) in
    let (agents, _) =
      create_from_intent new_id intent.data_required (some intent.priority) factory in
    (map (λ a. a.sensor_type) agents ≡ intent.data_required) × (0 < length intent.data_required)
create_from_intent-parse_intent_example =
    create_from_intent-parse_intent new_id "check temp now" ("check" ∷ "temp" ∷ "now" ∷ []) factory

abbrev pipeline : Pipeline
pipeline = record {
  buffer = [];
  cycle_count = 0;
  engine = record {
    decision_history = [];
    anomaly_threshold = 25;
    trust_score = [];
    performance_logs = 0;
  };
  inputs = [];
  executed = [];
  decisions = [];
}

abbrev reading : Reading
reading = record { sensor = some "temperature"; fields = ("celsius", Json.num 40) ∷ [] }

abbrev cycle : List Event
cycle =
    Event.feeds reading
    ∷ Event.feeds reading
    ∷ Event.feeds reading
    ∷ Event.turns (record { now = 7; peers = []; workers = workers; id_rest = "7_1" })
    ∷ Event.learns (λ p. true)
    ∷ []

run-learned_example :
    let after = (run half 600 "n" pipeline.engine cycle pipeline).engine in
    (after.anomaly_threshold ≡ 25) × (after.trust_score ≡ [])
run-learned_example = run-learned half 600 "n" cycle pipeline refl
