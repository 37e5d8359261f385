-- ===== src/Core/Pipeline.antt =====
-- core/pipeline_trigger.py: the cycle that composes the parts, `feed` and one turn of
-- `_pipeline_loop` within a `SwarmMind`, with the learning of core/self_improvement.py. What nodes do with the
-- tasks, the time and the rest of a decision's id are arguments; a reading names its sensor by a
-- text. An exception ends the turn, with what was changed before it.
pub mod Learned
use Prim.Native.String.{◌++◌ as ◌<>◌}
use anp_edge_swarm.Base.{
  ℕ, zero, suc, ◌+◌, String, ◌==◌, Bool, true, false, Option, none, some, List, [], ◌∷◌, ◌++◌, map,
  if◌then◌else◌, last_n,
}
use anp_edge_swarm.Base.Json.{Json, count_items, count_fields, truthy_text}
use anp_edge_swarm.Dict
use anp_edge_swarm.Dict.{Dict}
use anp_edge_swarm.Ml.Context.{add_reading, is_ready}
use anp_edge_swarm.Ml.Decomposer.{Entry, Assignment, Task, decompose}
use anp_edge_swarm.Ml.Executor
use anp_edge_swarm.Ml.Executor.{Workers, Results, Plan}
use anp_edge_swarm.Ml.Assembler.{FinalOutput, assemble}
use anp_edge_swarm.Agents.Action
use anp_edge_swarm.Agents.Action.{Executed}
use anp_edge_swarm.Core.Learning.{Engine, record_decision, record_outcome, learn_from_history}
use anp_edge_swarm.Core.Reflection.{Inputs, Decision, reflect_and_decide}
use anp_edge_swarm.Core.Reflection.Cycle.{recorded_inputs, current_input}

pub record Reading : Type 0 where
  pub sensor : Option String
  pub fields : Dict Json

-- `inputs` are those of the engine's decisions, and `executed` and `decisions` what the cycles did.
pub record Pipeline : Type 0 where
  pub buffer : List Reading
  pub cycle_count : ℕ
  pub engine : Engine
  pub inputs : List Inputs
  pub executed : List Executed
  pub decisions : List Decision

unfoldable pub feed : Reading → Pipeline → Pipeline
unfolding add_reading
feed reading p = record p { buffer = add_reading 50 reading p.buffer }

abbrev pub put_reading : Option String → Reading → Dict Reading → Dict Reading
put_reading none reading latest = latest
put_reading (some sensor) reading latest = Dict.put sensor reading latest

unfoldable pub latest_of : List Reading → Dict Reading → Dict Reading
latest_of [] latest = latest
latest_of (r ∷ rest) latest = latest_of rest (put_reading (truthy_text r.sensor) r latest)

abbrev characters : String → ℕ
characters String.[] = 0
characters (String.◌∷◌ c s) = suc (characters s)

-- `len(v)`
abbrev pub size_of : Json → ℕ
size_of (Json.arr items) = count_items items
size_of (Json.obj fields) = count_fields fields
size_of (Json.str s) = characters s
size_of _ = 0

abbrev pub contributing : Plan → List String
contributing plan = map (λ (t, a). a.node_id) plan

-- What a turn meets: the time, the known peers, what the nodes do, and the rest of the new id.
pub record Turn : Type 0 where
  pub now : ℕ
  pub peers : Dict Entry
  pub workers : Workers
  pub id_rest : String

module _ (round : ℕ → ℕ → ℕ) (min_confidence : ℕ) (local_id : String) where
  -- After the action agent, which records an outcome for the id "", the decision and the reflection
  -- on it.
  unfoldable pub recorded : Turn → Plan → FinalOutput → Pipeline → Pipeline
  unfolding record_outcome record_decision reflect_and_decide recorded_inputs current_input
  recorded t plan final p =
      let inputs = p.inputs ++ recorded_inputs (size_of final.anomalies_found) final ∷ [] in
      record p {
        engine =
            record_decision t.now ("dec_" <> t.id_rest) "ml_pipeline" (contributing plan)
              (record_outcome "" true p.engine);
        inputs = inputs;
        decisions =
            p.decisions
            ++ reflect_and_decide round min_confidence (current_input final) (last_n 50 inputs)
              ∷ [];
      }

  -- What follows the assembly; an exception of the action agent ends the turn.
  unfoldable pub conclude : Turn → Plan → FinalOutput → Pipeline → Pipeline
  unfolding Action.execute recorded
  conclude t plan final p =
      let executed = Action.execute final in
      let acted = record p { executed = p.executed ++ executed ∷ [] } in
      if executed.returns then recorded t plan final acted else acted

  unfoldable pub with_output : Turn → Plan → Option FinalOutput → Pipeline → Pipeline
  unfolding conclude
  with_output t plan none p = p
  with_output t plan (some final) p = conclude t plan final p

  unfoldable pub with_results : Turn → Plan → Option Results → Pipeline → Pipeline
  unfolding assemble with_output
  with_results t plan none p = p
  with_results t plan (some results) p = with_output t plan (assemble results) p

  unfoldable pub run_plan : Turn → Dict Reading → Pipeline → Pipeline
  unfolding decompose Executor.execute with_results
  run_plan t [] p = p
  run_plan t (reading ∷ latest) p =
      let plan = decompose local_id t.peers in
      with_results t plan (Executor.execute t.workers plan) p

  -- One turn of `_pipeline_loop`.
  unfoldable pub turn : Turn → Pipeline → Pipeline
  unfolding is_ready latest_of run_plan
  turn t p =
      if is_ready p.buffer
      then run_plan t (latest_of (last_n 3 p.buffer) [])
          (record p { cycle_count = p.cycle_count + 1 })
      else p
