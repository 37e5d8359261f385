-- ===== src/Core/Learning/Limits.antt =====
-- core/self_improvement.py: the limits that every operation keeps.
use anp_edge_swarm.Base.{
  ◌+◌, ◌*◌, ◌-◌, ◌/◌, ℕ, ◌≤◌, ◌<◌, ltb, leb, String, ◌≡◌, refl, Bool, not, List, [], ◌∷◌, ◌++◌,
  if◌then◌else◌, count_if, keep, length, last_n, length-last_n, Bool-cases, Option-cases, inl, inr,
  arith,
}
use native.Mathlib.Nat.{div-lt_iff_lt-mul}
use anp_edge_swarm.Dict
use anp_edge_swarm.Dict.{Dict, or_default, AllItems, AllItems-put, AllItems-get}
use anp_edge_swarm.Core.Learning.{
  Decision, Performance, Engine, max_history, record_decision, evaluate_first, record_outcome,
  adjust_threshold, count_node, count_nodes, node_performance, trust_of, update_trust,
  learn_from_history, is_correct, is_evaluated, is_anomaly,
}

-- The history is no longer than its limit, the threshold is from 1.5 to 4, no trust is above 1.
pub record IsEngine (e : Engine) : Type 0 where
  pub history : length e.decision_history ≤ max_history
  pub low : 15 ≤ e.anomaly_threshold
  pub high : e.anomaly_threshold ≤ 40
  pub trust : AllItems (λ node t. t ≤ 100) e.trust_score

bounded_append :
    (d : Decision) (ds : List Decision)
    → length (
        if ltb max_history (length (ds ++ d ∷ []))
        then last_n max_history (ds ++ d ∷ [])
        else ds ++ d ∷ [])
      ≤ max_history
bounded_append d ds = ground (arith, length-last_n max_history (ds ++ d ∷ []))

-- A decision that is recorded keeps the limits: of a history that is full, the oldest is dropped.
pub record_decision-IsEngine :
    (now : ℕ) (id type_of : String) (nodes : List String) (e : Engine)
    → IsEngine e
    → IsEngine (record_decision now id type_of nodes e)
unfolding record_decision
record_decision-IsEngine now id type_of nodes e h = record {
  history = bounded_append _ e.decision_history;
  low = h.low;
  high = h.high;
  trust = h.trust;
}

evaluate_first-length :
    (id : String) (c : Bool) (ds : List Decision) → length (evaluate_first id c ds) ≡ length ds
unfolding evaluate_first
evaluate_first-length id c [] = refl
evaluate_first-length id c (d ∷ ds) = ground (arith, evaluate_first-length id c ds)

-- No node is counted right more often than it is counted.
abbrev IsCount : String → Performance → Type 0
IsCount node p = p.correct ≤ p.total

rounded-bound :
    (p : Performance) (n : ℕ)
    → p.correct ≤ p.total
    → 0 < p.total
    → n ≤ p.total
    → (200 * p.correct + n) / (2 * p.total) ≤ 100
rounded-bound p n h pos small =
    let below : (200 * p.correct + n) / (2 * p.total) < 101 =
      (div-lt_iff_lt-mul (omega (arith, pos))).1 (omega (arith, h, pos, small)) in
    omega (arith, below)

trust_of-bound :
    (ties_up : Performance → Bool) (p : Performance)
    → p.correct ≤ p.total
    → 0 < p.total
    → trust_of ties_up p ≤ 100
unfolding trust_of
trust_of-bound ties_up p h pos = elim (Bool-cases (ties_up p)) [
  | inl e ↦ rw e (rounded-bound p p.total h pos (omega arith))
  | inr e ↦ rw e (rounded-bound p (p.total - 1) h pos (omega arith))
]

count_node-IsCount :
    (c : Bool) (node : String) (t : Dict Performance)
    → AllItems IsCount t
    → AllItems IsCount (count_node c node t)
unfolding count_node
count_node-IsCount c node t h = elim (Option-cases (Dict.get node t)) [
  | inl new ↦ AllItems-put IsCount node _ t (rw new (ground arith)) h
  | inr (p, found) ↦
      let bound = AllItems-get IsCount node p t h found in
      AllItems-put IsCount node _ t (rw found (ground (arith, bound))) h
]

count_nodes-IsCount :
    (c : Bool) (nodes : List String) (t : Dict Performance)
    → AllItems IsCount t
    → AllItems IsCount (count_nodes c nodes t)
unfolding count_nodes
count_nodes-IsCount c [] t h = h
count_nodes-IsCount c (node ∷ rest) t h =
    count_nodes-IsCount c rest (count_node c node t) (count_node-IsCount c node t h)

node_performance-IsCount :
    (ds : List Decision) (t : Dict Performance)
    → AllItems IsCount t
    → AllItems IsCount (node_performance ds t)
unfolding node_performance
node_performance-IsCount [] t h = h
node_performance-IsCount (d ∷ ds) t h =
    node_performance-IsCount ds (count_nodes (is_correct d) d.contributing_nodes t)
      (count_nodes-IsCount (is_correct d) d.contributing_nodes t h)

abbrev IsTrust : String → ℕ → Type 0
IsTrust node t = t ≤ 100

update_trust-IsTrust :
    (ties_up : Performance → Bool) (ps : Dict Performance) (trust : Dict ℕ)
    → AllItems IsCount ps
    → AllItems IsTrust trust
    → AllItems IsTrust (update_trust ties_up ps trust)
unfolding update_trust
update_trust-IsTrust ties_up [] trust h k = k
update_trust-IsTrust ties_up ((node, p) ∷ ps) trust h k = elim (Bool-cases (leb 3 p.total)) [
  | inl e ↦ rw e (
      update_trust-IsTrust ties_up ps _ h.1
        (AllItems-put IsTrust node _ trust (trust_of-bound ties_up p h.0 (ground (arith, e))) k))
  | inr e ↦ rw e (update_trust-IsTrust ties_up ps trust h.1 k)
]

adjust_threshold-bounds :
    (fp a c t old : ℕ)
    → 15 ≤ old
    → old ≤ 40
    → (15 ≤ adjust_threshold fp a c t old) × (adjust_threshold fp a c t old ≤ 40)
unfolding adjust_threshold
adjust_threshold-bounds fp a c t old low high = (ground arith, ground arith)

-- An outcome that is recorded keeps the limits.
pub record_outcome-IsEngine :
    (id : String) (correct : Bool) (e : Engine)
    → IsEngine e
    → IsEngine (record_outcome id correct e)
unfolding record_outcome
record_outcome-IsEngine id correct e h = record {
  history = omega (arith, evaluate_first-length id correct e.decision_history, h.history);
  low = h.low;
  high = h.high;
  trust = h.trust;
}

-- Learning keeps the limits, whatever the history is and however a trust half-way between two
-- hundredths is rounded.
pub learn_from_history-IsEngine :
    (ties_up : Performance → Bool) (e : Engine)
    → IsEngine e
    → IsEngine (learn_from_history ties_up e)
unfolding learn_from_history
learn_from_history-IsEngine ties_up e h =
    let evaluated = keep is_evaluated e.decision_history in
    elim (Bool-cases (ltb (length evaluated) 5)) [
      | inl few ↦ rw few h
      | inr enough ↦
          let tuned =
            adjust_threshold-bounds
              (length (keep (λ d. not (is_correct d)) (keep is_anomaly evaluated)))
              (length (keep is_anomaly evaluated)) (count_if is_correct evaluated)
              (length evaluated) e.anomaly_threshold h.low h.high in
          rw enough (record {
            history = h.history;
            low = tuned.0;
            high = tuned.1;
            trust =
                update_trust-IsTrust ties_up (node_performance evaluated []) e.trust_score
                  (node_performance-IsCount evaluated [] tt) h.trust;
          })
    ]
