-- ===== src/Core/Goals/Escalation.antt =====
-- core/goal_manager.py: when the mode rises and when it falls.
use anp_edge_swarm.Base.{
  ℕ, suc, ◌≤◌, ltb, eqb, ◌≡◌, refl, Bool, Option, none, some, List, [], ◌∷◌, count_if, length,
  Bool-cases, inl, inr, arith,
}
use anp_edge_swarm.Core.Goals.{
  Mode, priority, GoalManager, Inputs, has_urgency, lower, next_mode, apply_mode, enter_mode,
  recent, evaluate_and_adjust,
}

abbrev pub anomalies : List Inputs → ℕ
anomalies decisions = count_if (λ h. ltb 0 h.anomaly_count) (recent decisions)

abbrev pub criticals : List Inputs → ℕ
criticals decisions = count_if (has_urgency "CRITICAL") (recent decisions)

abbrev pub highs : List Inputs → ℕ
highs decisions = count_if (has_urgency "HIGH") (recent decisions)

-- What one evaluation does to the mode, with `a` decisions with anomalies, `c` critical and `h`
-- high ones among the 20 most recent.
pub record IsAdjusted (a c h : ℕ) (old new : Mode) : Type 0 where
  pub critical : 2 ≤ c → new ≡ Mode.emergency
  pub high : 5 ≤ h → 3 ≤ priority new
  pub anomalous : 8 ≤ a → 2 ≤ priority new
  pub gradual : priority old ≤ suc (priority new)
  pub falls_when_clear : suc (priority new) ≤ priority old → (a ≤ 1) × (c ≡ 0) × (h ≤ 1)

abbrev adjusted : Mode → Option Mode → Mode
adjusted m none = m
adjusted m (some n) = n

next_mode-IsAdjusted : (a c h : ℕ) (m : Mode) → IsAdjusted a c h m (adjusted m (next_mode a c h m))
unfolding next_mode lower priority
next_mode-IsAdjusted a c h Mode.idle = record {
  critical = ground arith;
  high = ground arith;
  anomalous = ground arith;
  gradual = ground arith;
  falls_when_clear = ground arith;
}
next_mode-IsAdjusted a c h Mode.monitoring = record {
  critical = ground arith;
  high = ground arith;
  anomalous = ground arith;
  gradual = ground arith;
  falls_when_clear = ground arith;
}
next_mode-IsAdjusted a c h Mode.alert = record {
  critical = ground arith;
  high = ground arith;
  anomalous = ground arith;
  gradual = ground arith;
  falls_when_clear = ground arith;
}
next_mode-IsAdjusted a c h Mode.surveillance = record {
  critical = ground arith;
  high = ground arith;
  anomalous = ground arith;
  gradual = ground arith;
  falls_when_clear = ground arith;
}
next_mode-IsAdjusted a c h Mode.emergency = record {
  critical = ground arith;
  high = ground arith;
  anomalous = ground arith;
  gradual = ground arith;
  falls_when_clear = ground arith;
}

unchanged-IsAdjusted : (m : Mode) → IsAdjusted 0 0 0 m m
unchanged-IsAdjusted m = record {
  critical = ground arith;
  high = ground arith;
  anomalous = ground arith;
  gradual = ground arith;
  falls_when_clear = λ h. (omega arith, refl, omega arith);
}

count_if-none : {A : Type 0} (p : A → Bool) (xs : List A) → length xs ≡ 0 → count_if p xs ≡ 0
count_if-none p [] h = refl
count_if-none p (x ∷ xs) h = absurd (omega (arith, h))

apply_mode-current :
    (now : ℕ) (next : Option Mode) (g : GoalManager)
    → (apply_mode now next g).current_mode ≡ adjusted g.current_mode next
unfolding apply_mode enter_mode
apply_mode-current now none g = refl
apply_mode-current now (some m) g = refl

-- One evaluation, on the 20 most recent decisions: two critical ones lead to emergency, from any
-- mode; five high ones lead at least to surveillance, and eight with anomalies at least to alert.
-- The mode falls by one level at most, and only if at most one decision has anomalies, none is
-- critical and at most one is high.
pub evaluate-IsAdjusted :
    (now : ℕ) (decisions : List Inputs) (g : GoalManager)
    → IsAdjusted
        (anomalies decisions)
        (criticals decisions)
        (highs decisions)
        g.current_mode
        (evaluate_and_adjust now decisions g).current_mode
unfolding evaluate_and_adjust
evaluate-IsAdjusted now decisions g = elim (Bool-cases (eqb (length (recent decisions)) 0)) [
  | inl e ↦
      let empty : length (recent decisions) ≡ 0 = ground arith in
      rw
        (
          e,
          count_if-none (λ h. ltb 0 h.anomaly_count) (recent decisions) empty,
          count_if-none (has_urgency "CRITICAL") (recent decisions) empty,
          count_if-none (has_urgency "HIGH") (recent decisions) empty,
        )
        (unchanged-IsAdjusted g.current_mode)
  | inr e ↦
      rw
        (
          e,
          apply_mode-current now
              (next_mode (anomalies decisions) (criticals decisions) (highs decisions)
                g.current_mode)
              g,
        )
        (next_mode-IsAdjusted (anomalies decisions) (criticals decisions) (highs decisions)
          g.current_mode)
]
