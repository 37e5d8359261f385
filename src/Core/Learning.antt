-- ===== src/Core/Learning.antt =====
-- core/self_improvement.py: `SelfImprovementEngine`. Thresholds are in tenths, trust scores in
-- hundredths; a ratio is compared by its numerator and denominator.
pub mod Limits
use anp_edge_swarm.Base.{
  ℕ, ◌+◌, ◌-◌, ◌*◌, ◌/◌, min, max, ltb, leb, eqb, String, ◌==◌, Bool, true, false, not, ◌&&◌,
  Option, none, some, List, [], ◌∷◌, ◌++◌, if◌then◌else◌, count_if, keep, last_n, length,
}
use anp_edge_swarm.Dict
use anp_edge_swarm.Dict.{Dict, or_default}

abbrev pub max_history : ℕ
max_history = 1000

-- `outcome` is whether the decision was correct, once it is evaluated.
pub record Decision : Type 0 where
  pub decision_id : String
  pub timestamp : ℕ
  pub type_of : String
  pub contributing_nodes : List String
  pub outcome : Option Bool

pub record Performance : Type 0 where
  pub correct : ℕ
  pub total : ℕ

pub record Engine : Type 0 where
  pub decision_history : List Decision
  pub anomaly_threshold : ℕ
  pub trust_score : Dict ℕ
  pub performance_logs : ℕ

unfoldable pub record_decision : (now : ℕ) → String → String → List String → Engine → Engine
record_decision now decision_id type_of nodes e =
    let history =
      e.decision_history
      ++ record {
        decision_id = decision_id;
        timestamp = now;
        type_of = type_of;
        contributing_nodes = nodes;
        outcome = none;
      }
        ∷ [] in
    record e {
      decision_history =
          if ltb max_history (length history) then last_n max_history history else history;
    }

-- The first entry of the id is evaluated.
unfoldable pub evaluate_first : String → Bool → List Decision → List Decision
evaluate_first decision_id was_correct [] = []
evaluate_first decision_id was_correct (d ∷ ds) =
    let rest = evaluate_first decision_id was_correct ds in
    if d.decision_id == decision_id then record d { outcome = some was_correct } ∷ ds else d ∷ rest

unfoldable pub record_outcome : String → Bool → Engine → Engine
unfolding evaluate_first
record_outcome decision_id was_correct e = record e {
  decision_history = evaluate_first decision_id was_correct e.decision_history;
}

abbrev pub is_evaluated : Decision → Bool
is_evaluated d = elim d.outcome [ none ↦ false | some c ↦ true ]

abbrev pub is_correct : Decision → Bool
is_correct d = or_default false d.outcome

abbrev pub is_anomaly : Decision → Bool
is_anomaly d = d.type_of == "anomaly"

-- fp_rate > 0.3, then fp_rate < 0.1 and accuracy > 0.85
unfoldable pub adjust_threshold : (false_positives anomalies correct total : ℕ) → ℕ → ℕ
adjust_threshold fp a correct total old =
    if ltb (3 * max 1 a) (10 * fp)
    then min 40 (old + 2)
    else if ltb (10 * fp) (max 1 a) && ltb (85 * total) (100 * correct)
    then max 15 (old - 1)
    else old

abbrev pub no_performance : Performance
no_performance = record { correct = 0; total = 0 }

unfoldable pub count_node : Bool → String → Dict Performance → Dict Performance
count_node correct node t =
    let p = or_default no_performance (Dict.get node t) in
    Dict.put node
      (record { correct = if correct then p.correct + 1 else p.correct; total = p.total + 1 }) t

unfoldable pub count_nodes : Bool → List String → Dict Performance → Dict Performance
unfolding count_node
count_nodes correct [] t = t
count_nodes correct (node ∷ rest) t = count_nodes correct rest (count_node correct node t)

unfoldable pub node_performance : List Decision → Dict Performance → Dict Performance
unfolding count_nodes
node_performance [] t = t
node_performance (d ∷ ds) t =
    node_performance ds (count_nodes (is_correct d) d.contributing_nodes t)

-- round(correct / total, 2), in hundredths. Half-way between two of them, the floating-point quotient
-- decides, which is an argument: whether it is rounded up.
unfoldable pub trust_of : (ties_up : Performance → Bool) → Performance → ℕ
trust_of ties_up p =
    if ties_up p
    then (200 * p.correct + p.total) / (2 * p.total)
    else (200 * p.correct + (p.total - 1)) / (2 * p.total)

unfoldable pub update_trust : (ties_up : Performance → Bool) → Dict Performance → Dict ℕ → Dict ℕ
unfolding trust_of
update_trust ties_up [] trust = trust
update_trust ties_up ((node, p) ∷ rest) trust =
    update_trust ties_up rest
      (if leb 3 p.total then Dict.put node (trust_of ties_up p) trust else trust)

unfoldable pub learn_from_history : (ties_up : Performance → Bool) → Engine → Engine
unfolding adjust_threshold node_performance update_trust
learn_from_history ties_up e =
    let evaluated = keep is_evaluated e.decision_history in
    let anomaly_decisions = keep is_anomaly evaluated in
    if ltb (length evaluated) 5 then e else record e {
      anomaly_threshold =
          adjust_threshold (length (keep (λ d. not (is_correct d)) anomaly_decisions))
            (length anomaly_decisions) (count_if is_correct evaluated) (length evaluated)
            e.anomaly_threshold;
      trust_score = update_trust ties_up (node_performance evaluated []) e.trust_score;
      performance_logs = e.performance_logs + 1;
    }

-- `min_trust` in hundredths; an unknown node has full trust.
unfoldable pub should_trust_node : String → (min_trust : ℕ) → Engine → Bool
should_trust_node node_id min_trust e =
    leb min_trust (or_default 100 (Dict.get node_id e.trust_score))
