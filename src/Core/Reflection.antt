-- ===== src/Core/Reflection.antt =====
-- core/reflective_decision.py: `ReflectiveDecisionMaker`. Similarities are in tenths, the
-- confidence and its least value in thousandths; `round` is Python's rounding of a fraction to
-- thousandths. The inputs that the code reads of a dict are a record; counts are numbers and
-- strategies texts. The text of the reasoning is left out.
pub mod Cycle
use anp_edge_swarm.Base.{
  ℕ, ◌+◌, ◌-◌, ◌*◌, min, ltb, leb, String, ◌==◌, Bool, true, false, ◌&&◌, Option, none, some, List,
  [], ◌∷◌, map, if◌then◌else◌, count_if, keep, length, take,
}
use anp_edge_swarm.Base.Sort.{sort, by_key_reverse, max_by}
use anp_edge_swarm.Base.Json.{Json, json_eq}
use anp_edge_swarm.Dict
use anp_edge_swarm.Dict.{Dict, or_default}

-- The keys that are read, where they are present.
pub record Inputs : Type 0 where
  pub status : Option Json
  pub anomaly_count : Option ℕ
  pub urgency : Option Json
  pub strategy : Option String

pub record Case : Type 0 where
  pub inputs : Inputs
  pub similarity : ℕ

abbrev text_or : String → Option Json → Json
text_or t v = or_default (Json.str t) v

abbrev points : ℕ → Bool → ℕ
points n b = if b then n else 0

-- in tenths
unfoldable pub similarity : Inputs → Inputs → ℕ
similarity current past =
    let a = or_default 0 past.anomaly_count in
    let b = or_default 0 current.anomaly_count in
    points 4 (json_eq (text_or "OK" past.status) (text_or "OK" current.status))
    + points 3 (json_eq (text_or "LOW" past.urgency) (text_or "LOW" current.urgency))
    + points 3 (leb (a - b) 1 && leb (b - a) 1)

abbrev pub is_similar : Case → Bool
is_similar c = leb 5 c.similarity

abbrev pub by_similarity : Case → Case → Bool
by_similarity = by_key_reverse (λ c. c.similarity)

unfoldable pub find_similar_cases : Inputs → List Inputs → List Case
unfolding similarity
find_similar_cases current history = take 10 (
    sort by_similarity (
      keep is_similar
        (map (λ past. record { inputs = past; similarity = similarity current past }) history)))

-- `case["case"].get("strategy", "log_only")`
abbrev pub past_strategy : Case → String
past_strategy c = or_default "log_only" c.inputs.strategy

-- `strategy_votes[s] += similarity`, from 0
unfoldable pub votes_of : List Case → Dict ℕ → Dict ℕ
votes_of [] votes = votes
votes_of (c ∷ rest) votes =
    let s = past_strategy c in
    votes_of rest (Dict.put s (or_default 0 (Dict.get s votes) + c.similarity) votes)

-- The first of the most votes.
abbrev pub most_votes : Dict ℕ → String
most_votes [] = "log_only"
most_votes (v ∷ rest) = (max_by (λ w. w.1) v rest).0

abbrev is_text : String → Json → Bool
is_text t v = json_eq v (Json.str t)

-- Without similar cases the urgency decides.
unfoldable pub default_strategy : (urgency : Json) → String
default_strategy urgency =
    if is_text "HIGH" urgency
    then "alert_supervisor"
    else if is_text "MEDIUM" urgency
    then "create_workorder"
    else "log_only"

unfoldable pub vote : (urgency : Json) → List Case → String
unfolding default_strategy votes_of
vote urgency [] = default_strategy urgency
vote urgency (c ∷ cases) = most_votes (votes_of (c ∷ cases) [])

unfoldable pub select_best_strategy : Inputs → List Case → String
unfolding vote
select_best_strategy current cases =
    let urgency = text_or "LOW" current.urgency in
    if is_text "CRITICAL" urgency then "auto_escalate" else vote urgency cases

abbrev pub has_strategy : String → Case → Bool
has_strategy chosen c = elim c.inputs.strategy [ none ↦ false | some s ↦ s == chosen ]

pub record Decision : Type 0 where
  pub strategy : String
  pub original_strategy : Option String
  pub confidence : ℕ
  pub similar_cases : ℕ

module _ (round : (numerator denominator : ℕ) → ℕ) where
  -- 0.4 * top + 0.3 * min(1, n / 5) + 0.3 * agreeing / n, over the denominator 100 * n
  unfoldable pub calculate_confidence : List Case → String → ℕ
  calculate_confidence [] chosen = 500
  calculate_confidence (c ∷ cases) chosen =
      let n = length (c ∷ cases) in
      round
        (4 * c.similarity * n
          + min 30 (6 * n) * n
          + 30 * count_if (has_strategy chosen) (c ∷ cases))
        (100 * n)

  unfoldable pub reflect_and_decide : (min_confidence : ℕ) → Inputs → List Inputs → Decision
  unfolding find_similar_cases select_best_strategy calculate_confidence
  reflect_and_decide min_confidence current history =
      let cases = find_similar_cases current history in
      let best = select_best_strategy current cases in
      let confidence = calculate_confidence cases best in
      if ltb confidence min_confidence
      then record {
        strategy = "investigate_further";
        original_strategy = some best;
        confidence = confidence;
        similar_cases = length cases;
      }
      else record {
        strategy = best;
        original_strategy = none;
        confidence = confidence;
        similar_cases = length cases;
      }

pub record Stats : Type 0 where
  pub success : ℕ
  pub total : ℕ

abbrev pub add_outcome : Bool → Stats → Stats
add_outcome success s = record {
  success = if success then s.success + 1 else s.success;
  total = s.total + 1;
}

abbrev put_outcome : String → Bool → Option Stats → Dict Stats → Dict Stats
put_outcome strategy success none strategies = strategies
put_outcome strategy success (some s) strategies =
    Dict.put strategy (add_outcome success s) strategies

-- `learn_from_strategy_outcome`: an unknown strategy is passed over.
unfoldable pub learn_from_strategy_outcome : String → Bool → Dict Stats → Dict Stats
learn_from_strategy_outcome strategy success strategies =
    put_outcome strategy success (Dict.get strategy strategies) strategies
