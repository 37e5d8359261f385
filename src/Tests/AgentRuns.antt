-- ===== src/Tests/AgentRuns.antt =====
-- agent_factory/ and the windows of ml/: one intent, three calls, a window of two readings.
use anp_edge_swarm.Base.{
  ◌≡◌, refl, ℕ, String, List, [], ◌∷◌, ◌++◌, Option, none, some, arith, last_n,
}
use anp_edge_swarm.Base.Json.{Json}
use anp_edge_swarm.Agents.Factory.{Factory, create_from_intent}
use anp_edge_swarm.Agents.Factory.Lifetime.{run_out, create_from_intent-run_out}
use anp_edge_swarm.Ml.Context.{Context}
use anp_edge_swarm.Ml.Context.Window.{Call, Holds, apply_all, events_of, apply_all-Holds}

abbrev pub new_id : String → ℕ → String
new_id s n = s

abbrev pub factory : Factory
factory = record {
  lifecycle = record { active_agents = []; timers = []; stopped = [] };
  created_count = 0;
}

abbrev wanted : List String
wanted = "temperature" ∷ "vision" ∷ "materials" ∷ []

create_from_intent-run_out_example :
    (run_out
      (create_from_intent new_id wanted (some "high") factory).1.lifecycle.timers
      (create_from_intent new_id wanted (some "high") factory).1.lifecycle).active_agents
    ≡ []
create_from_intent-run_out_example =
    create_from_intent-run_out new_id wanted (some "high") factory tt

abbrev context : Context
context = record {
  global_goal = "";
  local_tasks = [];
  context_window = [];
  max_context = 2;
  created_at = 0;
}

abbrev calls : List Call
calls = Call.goal 1 "safety" ∷ Call.start 2 "t1" "clean" "n1" ∷ Call.complete 3 "t1" Json.null ∷ []

abbrev same : String → String
same s = s

abbrev no_status : Json → Option Json
no_status j = none

nothing_held : Holds same same no_status [] context
unfolding last_n
nothing_held = refl

apply_all-Holds_example :
    Holds same same no_status
      ([] ++ events_of same same no_status calls)
      (apply_all same same no_status calls context)
apply_all-Holds_example =
    apply_all-Holds same same no_status [] calls context (omega arith) nothing_held
