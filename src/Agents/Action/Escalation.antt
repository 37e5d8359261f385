-- ===== src/Agents/Action/Escalation.antt =====
-- agents/action_agent.py on the results of ml/result_assembler.py: what is critical is escalated.
use anp_edge_swarm.Base.{
  ℕ, ◌≤◌, ◌<◌, ltb, ltb→lt, ◌==◌, eq_iff, ◌≡◌, ◌⊎◌, ◌∙◌, refl, sym, ap, Bool, true, false, not,
  ◌&&◌, ◌||◌, [], ◌++◌, Option, none, some, some-injective, ◌∷◌, if◌then◌else◌, any, Bool-cases,
  Option-cases, inl, inr, arith,
}
use anp_edge_swarm.Base.Json.{Json, Items}
use anp_edge_swarm.Dict
use anp_edge_swarm.Dict.{Dict, or_default}
use anp_edge_swarm.Ml.Executor.{Results}
use anp_edge_swarm.Ml.Assembler.{
  FinalOutput, rank_of, higher, highest_status, anomaly_status, action_urgency, assemble,
  with_status, sized, output_of,
}
use anp_edge_swarm.Ml.Decomposer.{Task}
use anp_edge_swarm.Agents.Action.{
  Taken, equals, is_alert, is_emergency, only_if, can_print, execute, plan_actions,
}

rank_of-le : (v : Json) (n : ℕ) → rank_of v ≡ some n → n ≤ 6
unfolding rank_of Dict.get
rank_of-le (Json.str s) n h = ground arith
rank_of-le Json.null n h = ground arith
rank_of-le (Json.bool b) n h = ground arith
rank_of-le (Json.num k) n h = ground arith
rank_of-le (Json.arr xs) n h = absurd (cc)
rank_of-le (Json.obj xs) n h = absurd (cc)

-- Only "CRITICAL" has the rank of "CRITICAL".
rank_of-critical : (v : Json) (n : ℕ) → rank_of v ≡ some n → n < 6 → equals v "CRITICAL" ≡ false
unfolding rank_of Dict.get
rank_of-critical (Json.str s) n h less = elim (Bool-cases (s == "CRITICAL")) [
  | inl e ↦
      let six : some 6 ≡ some n =
        ap (λ t. rank_of (Json.str t)) (sym ((eq_iff s "CRITICAL").0 e)) ∙ h in
      absurd (omega (arith, some-injective 6 n six, less))
  | inr e ↦ e
]
rank_of-critical Json.null n h less = refl
rank_of-critical (Json.bool b) n h less = refl
rank_of-critical (Json.num k) n h less = refl
rank_of-critical (Json.arr xs) n h less = refl
rank_of-critical (Json.obj xs) n h less = refl

-- The urgency is the status only where the anomalies are not critical.
highest_status-cases :
    (a u s : Json)
    → highest_status a u ≡ some s
    → (s ≡ a) ⊎ ((s ≡ u) × (equals a "CRITICAL" ≡ false))
unfolding highest_status
highest_status-cases a u s h = elim (Option-cases (rank_of a)) [
  | inl e ↦ let no : none ≡ some s = ap (λ r. higher a u r (rank_of u)) (sym e) ∙ h in absurd (cc)
  | inr (m, e) ↦ elim (Option-cases (rank_of u)) [
    | inl f ↦
        let no : none ≡ some s =
          ap (λ r. higher a u (some m) r) (sym f)
          ∙ ap (λ r. higher a u r (rank_of u)) (sym e)
          ∙ h in
        absurd (cc)
    | inr (n, f) ↦
        let picked : some (if ltb m n then u else a) ≡ some s =
          ap (λ r. higher a u (some m) r) (sym f)
          ∙ ap (λ r. higher a u r (rank_of u)) (sym e)
          ∙ h in
        let is_s = some-injective _ _ picked in
        elim (Bool-cases (ltb m n)) [
          | inl t ↦
              let less : m < n = ltb→lt m n t in
              inr (
                sym is_s ∙ ap (λ b. if b then u else a) t,
                rank_of-critical a m e (omega (arith, less, rank_of-le u n f)),
              )
          | inr t ↦ inl (sym is_s ∙ ap (λ b. if b then u else a) t)
        ]
  ]
]

or_swap : (a b : Bool) → a || b ≡ b || a
or_swap true true = refl
or_swap true false = refl
or_swap false true = refl
or_swap false false = refl

or_same : (a : Bool) → a || a ≡ a
or_same true = refl
or_same false = refl

is_emergency-status :
    (a u s : Json)
    → highest_status a u ≡ some s
    → is_emergency s u ≡ (equals a "CRITICAL" || equals u "CRITICAL")
unfolding is_emergency
is_emergency-status a u s h = elim (highest_status-cases a u s h) [
  | inl e ↦
      ap (λ v. equals u "CRITICAL" || equals v "CRITICAL") e
      ∙ or_swap (equals u "CRITICAL") (equals a "CRITICAL")
  | inr (e, calm) ↦
      ap (λ v. equals u "CRITICAL" || equals v "CRITICAL") e
      ∙ or_same (equals u "CRITICAL")
      ∙ ap (λ b. b || equals u "CRITICAL") (sym calm)
]

abbrev pub is_escalation : Taken → Bool
is_escalation Taken.emergency_escalation = true
is_escalation _ = false

is_alert-emergency : (s u : Json) → is_emergency s u ≡ true → is_alert s u ≡ true
unfolding is_emergency is_alert
is_alert-emergency s u h = ground (arith, h)

any-acted :
    (alert emergency ok : Bool)
    → (emergency ≡ true → alert ≡ true)
    → any is_escalation (
        Taken.logged
        ∷ Taken.work_order
        ∷ (if alert && not ok
            then []
            else only_if alert Taken.alert_printed ++ only_if emergency Taken.emergency_escalation))
      ≡ emergency && ok
any-acted true true true h = refl
any-acted true true false h = refl
any-acted true false true h = refl
any-acted true false false h = refl
any-acted false true ok h = absurd (let no : false ≡ true = h refl in cc)
any-acted false false true h = refl
any-acted false false false h = refl

-- What the assembler gives as the status and the urgency.
with_status-fields :
    (results : Results) (o : Option Json) (out : FinalOutput)
    → with_status results o ≡ some out
    → (o ≡ some out.status) × (out.action_urgency ≡ action_urgency results)
unfolding with_status
with_status-fields results none out h = absurd (cc)
with_status-fields results (some status) out h =
    elim (Bool-cases (
      sized (
        or_default (Json.arr Items.nil) (Dict.get "anomalies" (output_of Task.anomaly results))))) [
          | inl t ↦
              let e = some-injective _ _ (rw t at h) in
              (ap (λ r. some r.status) e, sym (ap (λ r. r.action_urgency) e))
          | inr t ↦ let no : none ≡ some out = rw t at h in absurd (cc)
        ]

plan_actions-escalate :
    (out : FinalOutput) → (plan_actions out).escalate ≡ is_emergency out.status out.action_urgency
unfolding plan_actions is_emergency
plan_actions-escalate out =
    elim (Bool-cases (equals out.status "CRITICAL" || equals out.action_urgency "CRITICAL")) [
      | inl e ↦
          rw e (
            sym (or_swap (equals out.action_urgency "CRITICAL") (equals out.status "CRITICAL") ∙ e))
      | inr e ↦
          elim (Bool-cases (
            equals out.status "WARNING"
            || (equals out.action_urgency "HIGH" || equals out.action_urgency "MEDIUM"))) [
              | inl f ↦
                  rw (e, f)
                    (sym (
                      or_swap (equals out.action_urgency "CRITICAL") (equals out.status "CRITICAL")
                      ∙ e))
              | inr f ↦
                  rw (e, f)
                    (sym (
                      or_swap (equals out.action_urgency "CRITICAL") (equals out.status "CRITICAL")
                      ∙ e))
            ]
    ]

-- The plan of the older planner escalates exactly when the anomaly task, or else the action task,
-- reports "CRITICAL" and succeeded (a task that failed or did not run counts as "UNKNOWN"). The
-- action agent escalates in the same cases, but where the anomalies cannot be printed: one of them
-- is no dict, or they are no list and not empty.
pub execute-assemble :
    (results : Results) (out : FinalOutput)
    → assemble results ≡ some out
    → let critical =
        equals (anomaly_status results) "CRITICAL" || equals (action_urgency results) "CRITICAL" in
      (any is_escalation (execute out).actions_taken ≡ critical && can_print out.anomalies_found)
      × ((plan_actions out).escalate ≡ critical)
unfolding execute plan_actions assemble
execute-assemble results out h =
    let (has_status, same) =
      with_status-fields results (highest_status (anomaly_status results) (action_urgency results))
        out h in
    let judged : is_emergency out.status out.action_urgency ≡ (
        equals (anomaly_status results) "CRITICAL" || equals (action_urgency results) "CRITICAL") =
      ap (is_emergency out.status) same
      ∙ is_emergency-status (anomaly_status results) (action_urgency results) out.status
          has_status in
    (
      any-acted (is_alert out.status out.action_urgency)
            (is_emergency out.status out.action_urgency) (can_print out.anomalies_found)
            (is_alert-emergency out.status out.action_urgency)
          ∙ ap (λ b. b && can_print out.anomalies_found) judged,
      plan_actions-escalate out ∙ judged,
    )
