-- ===== src/Core/Pipeline/Learned.antt =====
-- core/pipeline_trigger.py with core/self_improvement.py: what the engine learns from the cycles.
use Prim.Native.String.{◌++◌ as ◌<>◌, len}
use anp_edge_swarm.Base.{
  ℕ, ◌+◌, ltb, String, ◌==◌, eq_iff, ◌≡◌, refl, sym, ap, subst, Bool, true, false, Option, none,
  some, List, [], ◌∷◌, ◌++◌, if◌then◌else◌, keep, length, last_n, All, All-append, All-last_n,
  Bool-cases, inl, inr, arith,
}
use text.Mathlib.TextPositions.{len-append}
use anp_edge_swarm.Dict.{Dict}
use anp_edge_swarm.Ml.Decomposer.{decompose}
use anp_edge_swarm.Ml.Executor
use anp_edge_swarm.Ml.Executor.{Plan, Results}
use anp_edge_swarm.Ml.Assembler.{FinalOutput, assemble}
use anp_edge_swarm.Agents.Action
use anp_edge_swarm.Core.Learning.{
  Engine, Performance, Decision, max_history, record_decision, record_outcome, evaluate_first,
  is_evaluated, learn_from_history,
}
use anp_edge_swarm.Core.Pipeline.{
  Reading, Pipeline, Turn, feed, turn, recorded, conclude, with_output, with_results, run_plan,
  latest_of, contributing,
}
use anp_edge_swarm.Ml.Context.{is_ready}

pub data Event : Type 0 where
  feeds : Reading → Event
  turns : Turn → Event
  learns : (ties_up : Performance → Bool) → Event

-- A decision without an outcome, whose id is not empty.
abbrev Open : Decision → Type 0
Open d = (d.outcome ≡ none) × ((d.decision_id == "") ≡ false)

-- What is learned stays, and no decision has an outcome.
record IsUnlearned (before e : Engine) : Type 0 where
  decisions : All Open e.decision_history
  threshold : e.anomaly_threshold ≡ before.anomaly_threshold
  trust : e.trust_score ≡ before.trust_score

evaluate_first-Open : (ds : List Decision) → All Open ds → evaluate_first "" true ds ≡ ds
unfolding evaluate_first
evaluate_first-Open [] h = refl
evaluate_first-Open (d ∷ ds) h = rw (h.0.1) (ap (λ rest. d ∷ rest) (evaluate_first-Open ds h.1))

keep-Open : (ds : List Decision) → All Open ds → keep is_evaluated ds ≡ []
keep-Open [] h = refl
keep-Open (d ∷ ds) h = rw (h.0.0) (keep-Open ds h.1)

learn-IsUnlearned :
    (ties_up : Performance → Bool) (before e : Engine)
    → IsUnlearned before e
    → learn_from_history ties_up e ≡ e
unfolding learn_from_history
learn-IsUnlearned ties_up before e h = rw (keep-Open e.decision_history h.decisions) refl

dec_nonempty : (rest : String) → (("dec_" <> rest) == "") ≡ false
dec_nonempty rest = elim (Bool-cases (("dec_" <> rest) == "")) [
  | inl e ↦
      let none_left : len ("dec_" <> rest) ≡ 0 = ap len ((eq_iff ("dec_" <> rest) "").0 e) in
      absurd (omega (arith, none_left, len-append "dec_" rest))
  | inr e ↦ e
]

record_decision-Open :
    (now : ℕ) (rest type_of : String) (nodes : List String) (e : Engine)
    → All Open e.decision_history
    → All Open (record_decision now ("dec_" <> rest) type_of nodes e).decision_history
unfolding record_decision
record_decision-Open now rest type_of nodes e h =
    let added = All-append Open e.decision_history (_ ∷ []) h ((refl, dec_nonempty rest), tt) in
    if_Open (ltb max_history (length (e.decision_history ++ _ ∷ []))) _ added
  where
    if_Open :
        (b : Bool) (ds : List Decision)
        → All Open ds
        → All Open (if b then last_n max_history ds else ds)
    if_Open true ds k = All-last_n Open max_history ds k
    if_Open false ds k = k

module _ (round : ℕ → ℕ → ℕ) (min_confidence : ℕ) (local_id : String) (before : Engine) where
  recorded-IsUnlearned :
      (t : Turn) (plan : Plan) (final : FinalOutput) (p : Pipeline)
      → IsUnlearned before p.engine
      → IsUnlearned before (recorded round min_confidence local_id t plan final p).engine
  unfolding recorded record_outcome record_decision
  recorded-IsUnlearned t plan final p h = record {
    decisions =
        record_decision-Open t.now t.id_rest "ml_pipeline" (contributing plan)
          (record_outcome "" true p.engine)
          (subst (All Open) (sym (evaluate_first-Open p.engine.decision_history h.decisions))
            h.decisions);
    threshold = h.threshold;
    trust = h.trust;
  }

  conclude-IsUnlearned :
      (t : Turn) (plan : Plan) (final : FinalOutput) (p : Pipeline)
      → IsUnlearned before p.engine
      → IsUnlearned before (conclude round min_confidence local_id t plan final p).engine
  unfolding conclude
  conclude-IsUnlearned t plan final p h =
      let acted = record p { executed = p.executed ++ Action.execute final ∷ [] } in
      elim (Bool-cases (Action.execute final).returns) [
        | inl e ↦ rw e (recorded-IsUnlearned t plan final acted h)
        | inr e ↦ rw e h
      ]

  with_output-IsUnlearned :
      (t : Turn) (plan : Plan) (o : Option FinalOutput) (p : Pipeline)
      → IsUnlearned before p.engine
      → IsUnlearned before (with_output round min_confidence local_id t plan o p).engine
  unfolding with_output
  with_output-IsUnlearned t plan none p h = h
  with_output-IsUnlearned t plan (some final) p h = conclude-IsUnlearned t plan final p h

  with_results-IsUnlearned :
      (t : Turn) (plan : Plan) (o : Option Results) (p : Pipeline)
      → IsUnlearned before p.engine
      → IsUnlearned before (with_results round min_confidence local_id t plan o p).engine
  unfolding with_results
  with_results-IsUnlearned t plan none p h = h
  with_results-IsUnlearned t plan (some results) p h =
      with_output-IsUnlearned t plan (assemble results) p h

  run_plan-IsUnlearned :
      (t : Turn) (latest : Dict Reading) (p : Pipeline)
      → IsUnlearned before p.engine
      → IsUnlearned before (run_plan round min_confidence local_id t latest p).engine
  unfolding run_plan
  run_plan-IsUnlearned t [] p h = h
  run_plan-IsUnlearned t (r ∷ latest) p h =
      with_results-IsUnlearned t (decompose local_id t.peers)
        (Executor.execute t.workers (decompose local_id t.peers)) p h

  turn-IsUnlearned :
      (t : Turn) (p : Pipeline)
      → IsUnlearned before p.engine
      → IsUnlearned before (turn round min_confidence local_id t p).engine
  unfolding turn
  turn-IsUnlearned t p h = if_turn (is_ready p.buffer)
    where
      ready : Pipeline
      ready =
          run_plan round min_confidence local_id t (latest_of (last_n 3 p.buffer) [])
            (record p { cycle_count = p.cycle_count + 1 })

      if_turn : (b : Bool) → IsUnlearned before (if b then ready else p).engine
      if_turn true =
          run_plan-IsUnlearned t (latest_of (last_n 3 p.buffer) [])
            (record p { cycle_count = p.cycle_count + 1 }) h
      if_turn false = h

  unfoldable pub step : Event → Pipeline → Pipeline
  unfolding turn feed
  step (Event.feeds reading) p = feed reading p
  step (Event.turns t) p = turn round min_confidence local_id t p
  step (Event.learns ties_up) p = record p { engine = learn_from_history ties_up p.engine }

  unfoldable pub run : List Event → Pipeline → Pipeline
  unfolding step
  run [] p = p
  run (e ∷ rest) p = run rest (step e p)

  step-IsUnlearned :
      (e : Event) (p : Pipeline)
      → IsUnlearned before p.engine
      → IsUnlearned before (step e p).engine
  unfolding step feed
  step-IsUnlearned (Event.feeds reading) p h = h
  step-IsUnlearned (Event.turns t) p h = turn-IsUnlearned t p h
  step-IsUnlearned (Event.learns ties_up) p h =
      subst (IsUnlearned before) (sym (learn-IsUnlearned ties_up before p.engine h)) h

  run-IsUnlearned :
      (events : List Event) (p : Pipeline)
      → IsUnlearned before p.engine
      → IsUnlearned before (run events p).engine
  unfolding run
  run-IsUnlearned [] p h = h
  run-IsUnlearned (e ∷ rest) p h = run-IsUnlearned rest (step e p) (step-IsUnlearned e p h)

-- Whatever readings come, whatever the cycles find and however often the engine learns: from an
-- empty history, the threshold and the trust in the nodes stay as they are.
pub run-learned :
    (round : ℕ → ℕ → ℕ) (min_confidence : ℕ) (local_id : String) (events : List Event)
    (p : Pipeline)
    → p.engine.decision_history ≡ []
    → let after = (run round min_confidence local_id p.engine events p).engine in
      (after.anomaly_threshold ≡ p.engine.anomaly_threshold)
      × (after.trust_score ≡ p.engine.trust_score)
run-learned round min_confidence local_id events p empty =
    let start : IsUnlearned p.engine p.engine = record {
      decisions = subst (All Open) (sym empty) tt;
      threshold = refl;
      trust = refl;
    } in
    let done = run-IsUnlearned round min_confidence local_id p.engine events p start in
    (done.threshold, done.trust)
