-- ===== src/Agents/Factory.antt =====
-- agent_factory/factory.py, agent_factory/lifecycle.py and agent_factory/registry.py. An agent is
-- its id and its sensor; the timers that will destroy agents are a list, and `fire` is one of them
-- running out. `new_id` makes the id of an agent from its sensor and a number that is not used yet.
pub mod Lifetime
use anp_edge_swarm.Base.{
  ℕ, ◌+◌, String, ◌==◌, Bool, true, false, Option, none, some, List, [], ◌∷◌, ◌++◌, map,
  if◌then◌else◌,
}
use anp_edge_swarm.Dict
use anp_edge_swarm.Dict.{Dict, or_default}

pub record Agent : Type 0 where
  pub agent_id : String
  pub sensor_type : String

pub record Lifecycle : Type 0 where
  pub active_agents : Dict Agent
  pub timers : List (String × ℕ)
  pub stopped : List String

pub record Factory : Type 0 where
  pub lifecycle : Lifecycle
  pub created_count : ℕ

-- The class of the template; the other entries of a template are not read.
unfoldable pub get_template : String → Option String
get_template name =
    if name == "attendance"
    then some "SensorAgent"
    else if name == "temperature"
    then some "SensorAgent"
    else if name == "materials"
    then some "SensorAgent"
    else if name == "vision"
    then some "VisionAgent"
    else if name == "decision"
    then some "DecisionAgent"
    else none

unfoldable pub spawn : String → Agent → Lifecycle → Lifecycle
spawn agent_id agent l = record l { active_agents = Dict.put agent_id agent l.active_agents }

unfoldable pub destroy : String → Lifecycle → Lifecycle
destroy agent_id l = elim (Dict.get agent_id l.active_agents) [
  | none ↦ l
  | some agent ↦ record l {
    active_agents = Dict.remove agent_id l.active_agents;
    stopped = l.stopped ++ agent.agent_id ∷ [];
  }
]

unfoldable pub destroy_each : List String → Lifecycle → Lifecycle
unfolding destroy
destroy_each [] l = l
destroy_each (agent_id ∷ rest) l = destroy_each rest (destroy agent_id l)

unfoldable pub destroy_all : Lifecycle → Lifecycle
unfolding destroy_each
destroy_all l = destroy_each (Dict.keys l.active_agents) l

unfoldable pub status : Lifecycle → Dict String
status l = map (λ (aid, agent). (aid, "running")) l.active_agents

unfoldable pub auto_destroy_after : String → ℕ → Lifecycle → Lifecycle
auto_destroy_after agent_id seconds l = record l { timers = l.timers ++ (agent_id, seconds) ∷ [] }

abbrev pub is_sensor_agent : Option String → Bool
is_sensor_agent none = false
is_sensor_agent (some c) = c == "SensorAgent"

abbrev pub ttl_of : Option String → ℕ
ttl_of priority = if or_default "normal" priority == "high" then 30 else 60

module _ (new_id : String → ℕ → String) (ttl : ℕ) where
  -- The body of the loop for a sensor that has a SensorAgent.
  unfoldable pub create : String → Factory → Agent × Factory
  unfolding spawn auto_destroy_after
  create sensor_type f =
      let agent_id = new_id sensor_type f.created_count in
      let agent : Agent = record { agent_id = agent_id; sensor_type = sensor_type } in
      (
        agent,
        record {
          lifecycle = auto_destroy_after agent_id ttl (spawn agent_id agent f.lifecycle);
          created_count = f.created_count + 1;
        },
      )

  unfoldable pub create_each : List String → Factory → List Agent × Factory
  unfolding get_template create
  create_each [] f = ([], f)
  create_each (sensor_type ∷ rest) f =
      let skipped = create_each rest f in
      let made = create sensor_type f in
      let later = create_each rest made.1 in
      if is_sensor_agent (get_template sensor_type) then (made.0 ∷ later.0, later.1) else skipped

unfoldable pub create_from_intent :
    (new_id : String → ℕ → String) → List String → Option String → Factory → List Agent × Factory
unfolding create_each
create_from_intent new_id data_required priority f =
    create_each new_id (ttl_of priority) data_required f
