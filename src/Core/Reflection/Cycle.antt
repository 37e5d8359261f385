-- ===== src/Core/Reflection/Cycle.antt =====
-- core/pipeline_trigger.py on core/reflective_decision.py: the reflection of a pipeline cycle.
use anp_edge_swarm.Base.{
  ℕ, ◌<◌, ltb, lt→ltb, ◌≡◌, ◌⊎◌, refl, ap, none, some, List, [], ◌∷◌, map, All, All-take, All-keep,
  Bool-cases, inl, inr,
}
use anp_edge_swarm.Base.Sort.{sort-All, max_by-All}
use anp_edge_swarm.Base.Json.{Json, json_eq}
use anp_edge_swarm.Dict.{Dict, or_default, AllItems-put}
use anp_edge_swarm.Ml.Assembler.{FinalOutput}
use anp_edge_swarm.Core.Reflection.{
  Inputs, Case, similarity, find_similar_cases, is_similar, past_strategy, votes_of, most_votes,
  default_strategy, vote, select_best_strategy, calculate_confidence, reflect_and_decide,
}

-- The inputs that are recorded of a cycle for later reflections.
unfoldable pub recorded_inputs : (anomalies : ℕ) → FinalOutput → Inputs
recorded_inputs anomalies final = record {
  status = some final.status;
  anomaly_count = some anomalies;
  urgency = some final.action_urgency;
  strategy = none;
}

-- The cycle reflects on the assembler's output itself, whose keys are "action_urgency" and
-- "anomalies_found": of the keys that are read it has the status only.
unfoldable pub current_input : FinalOutput → Inputs
current_input final = record {
  status = some final.status;
  anomaly_count = none;
  urgency = none;
  strategy = none;
}

abbrev NoStrategy : Case → Type 0
NoStrategy c = past_strategy c ≡ "log_only"

map-NoStrategy :
    (current : Inputs) (history : List Inputs)
    → All (λ past. past.strategy ≡ none) history
    → All NoStrategy
        (map (λ past. record { inputs = past; similarity = similarity current past }) history)
map-NoStrategy current [] h = tt
map-NoStrategy current (p ∷ ps) h = (ap (or_default "log_only") h.0, map-NoStrategy current ps h.1)

find_similar_cases-NoStrategy :
    (current : Inputs) (history : List Inputs)
    → All (λ past. past.strategy ≡ none) history
    → All NoStrategy (find_similar_cases current history)
unfolding find_similar_cases
find_similar_cases-NoStrategy current history h =
    All-take NoStrategy 10 _ (
      sort-All _ NoStrategy _ (All-keep NoStrategy is_similar _ (map-NoStrategy current history h)))

votes_of-log_only :
    (cases : List Case) (votes : Dict ℕ)
    → All NoStrategy cases
    → All (λ v. v.0 ≡ "log_only") votes
    → All (λ v. v.0 ≡ "log_only") (votes_of cases votes)
unfolding votes_of
votes_of-log_only [] votes h k = k
votes_of-log_only (c ∷ cases) votes h k =
    votes_of-log_only cases _ h.1
      (AllItems-put (λ s n. s ≡ "log_only") (past_strategy c) _ votes h.0 k)

most_votes-log_only :
    (votes : Dict ℕ) → All (λ v. v.0 ≡ "log_only") votes → most_votes votes ≡ "log_only"
most_votes-log_only [] h = refl
most_votes-log_only (v ∷ rest) h = max_by-All (λ w. w.1) (λ w. w.0 ≡ "log_only") v rest h.0 h.1

vote-log_only :
    (cases : List Case) → All NoStrategy cases → vote (Json.str "LOW") cases ≡ "log_only"
unfolding vote default_strategy json_eq
vote-log_only [] h = refl
vote-log_only (c ∷ cases) h = most_votes-log_only _ (votes_of-log_only (c ∷ cases) [] h tt)

recorded-none :
    (past : List (ℕ × FinalOutput))
    → All (λ i. i.strategy ≡ none) (map (λ (n, final). recorded_inputs n final) past)
unfolding recorded_inputs
recorded-none [] = tt
recorded-none (p ∷ past) = (refl, recorded-none past)

-- After cycles that were recorded as the pipeline records them, the reflection on a cycle's output
-- chooses "log_only", or "investigate_further" where its confidence is too low, whatever the
-- output's urgency and status.
pub reflect_and_decide-recorded :
    (round : ℕ → ℕ → ℕ) (min_confidence : ℕ) (final : FinalOutput) (past : List (ℕ × FinalOutput))
    → let d =
        reflect_and_decide round min_confidence
          (current_input final)
          (map (λ (n, f). recorded_inputs n f) past) in
      (d.strategy ≡ "log_only") ⊎ (d.strategy ≡ "investigate_further")
unfolding reflect_and_decide select_best_strategy current_input json_eq
reflect_and_decide-recorded round min_confidence final past =
    let history = map (λ (n, f). recorded_inputs n f) past in
    let cases = find_similar_cases (current_input final) history in
    let best : select_best_strategy (current_input final) cases ≡ "log_only" =
      vote-log_only cases
        (find_similar_cases-NoStrategy (current_input final) history (recorded-none past)) in
    elim (Bool-cases (
      ltb (calculate_confidence round cases (select_best_strategy (current_input final) cases))
        min_confidence)) [ inl e ↦ inr (rw e refl) | inr e ↦ inl (rw e best) ]

-- Without a similar case, and with the least confidence above 0.5, as it is by default, every
-- decision is to investigate, also where the urgency is critical.
pub reflect_and_decide-no_cases :
    (round : ℕ → ℕ → ℕ) (min_confidence : ℕ) (current : Inputs) (history : List Inputs)
    → find_similar_cases current history ≡ []
    → 500 < min_confidence
    → let d = reflect_and_decide round min_confidence current history in
      (d.strategy ≡ "investigate_further")
      × (d.original_strategy ≡ some (select_best_strategy current []))
      × (d.confidence ≡ 500)
unfolding reflect_and_decide calculate_confidence
reflect_and_decide-no_cases round min_confidence current history none_similar above =
    rw (reflect_and_decide, none_similar) (rw (lt→ltb 500 min_confidence above) (refl, refl, refl))
