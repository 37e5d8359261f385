-- ===== src/Core/Intent/Agents.antt =====
-- core/intent_parser.py with agent_factory/factory.py: a parsed intent has its agents.
use anp_edge_swarm.Base.{
  ℕ, ◌-◌, ◌<◌, lt→ltb, String, ◌==◌, ◌≡◌, ◌∙◌, refl, sym, ap, subst, Bool, true, false, Option,
  none, some, List, [], ◌∷◌, map, if◌then◌else◌, any, keep, length, Bool-cases, inl, inr, arith,
}
use anp_edge_swarm.Dict
use anp_edge_swarm.Dict.{Dict, get-put_self}
use anp_edge_swarm.Agents.Factory.{Factory, is_sensor_agent, get_template, create_from_intent}
use anp_edge_swarm.Agents.Factory.Lifetime.{create_from_intent-sensors}
use anp_edge_swarm.Core.Intent.{
  Intent, Cached, cache_ttl, fresh, all_sensors, keywords, mentions, or_all, required_sensors,
  parse_intent, or_ask, parse_intent_llm,
}

-- Some of the three sensors, by a choice of each.
IsServed : List String → Type 0
IsServed required =
    (keep (λ s. is_sensor_agent (get_template s)) required ≡ required) × (0 < length required)

chosen-IsServed :
    (a t m : Bool)
    → IsServed (
        or_all (
          map
            (λ k. k.0)
            (keep
              (λ (sensor, kws).
                if sensor == "attendance" then a else if sensor == "temperature" then t else m)
              keywords)))
unfolding IsServed get_template
chosen-IsServed true true true = (refl, omega arith)
chosen-IsServed true true false = (refl, omega arith)
chosen-IsServed true false true = (refl, omega arith)
chosen-IsServed true false false = (refl, omega arith)
chosen-IsServed false true true = (refl, omega arith)
chosen-IsServed false true false = (refl, omega arith)
chosen-IsServed false false true = (refl, omega arith)
chosen-IsServed false false false = (refl, omega arith)

required_sensors-IsServed :
    (text : String) (words : List String) → IsServed (required_sensors text words)
unfolding required_sensors
required_sensors-IsServed text words =
    let found = map (λ k. k.0) (keep (λ (sensor, kws). mentions text kws) keywords) in
    elim (Bool-cases (any (λ w. w == "all") words)) [
      | inl e ↦
          subst (λ b. IsServed (or_all (if b then all_sensors else found))) (sym e)
            (chosen-IsServed true true true)
      | inr e ↦
          subst (λ b. IsServed (or_all (if b then all_sensors else found))) (sym e)
            (chosen-IsServed
              (mentions text ("attendance" ∷ "headcount" ∷ "people" ∷ "workers" ∷ "staff" ∷ []))
              (mentions text ("temperature" ∷ "temp" ∷ "heat" ∷ "celsius" ∷ "humidity" ∷ []))
              (mentions text ("materials" ∷ "inventory" ∷ "stock" ∷ "items" ∷ "supplies" ∷ [])))
    ]

-- The factory makes an agent for every sensor that a parsed intent requires, in their order, and
-- it requires at least one.
pub create_from_intent-parse_intent :
    (new_id : String → ℕ → String) (text : String) (words : List String) (f : Factory)
    → let intent = parse_intent text words in
      let (agents, _) = create_from_intent new_id intent.data_required (some intent.priority) f in
      (map (λ a. a.sensor_type) agents ≡ intent.data_required) × (0 < length intent.data_required)
unfolding parse_intent IsServed
create_from_intent-parse_intent new_id text words f =
    let served = required_sensors-IsServed text words in
    (
      create_from_intent-sensors new_id (required_sensors text words)
            (some (parse_intent text words).priority) f
          ∙ served.0,
      served.1,
    )

-- An intent that the language model gave is given again, without asking, for a minute.
pub parse_intent_llm-again :
    (now later : ℕ) (key : String) (intent fallback : Intent) (llm : Option Intent)
    (cache : Dict Cached)
    → fresh now (Dict.get key cache) ≡ none
    → later - now < cache_ttl
    → let asked = parse_intent_llm now key (some intent) fallback cache in
      parse_intent_llm later key llm fallback asked.1 ≡ (intent, asked.1)
unfolding parse_intent_llm
parse_intent_llm-again now later key intent fallback llm cache stale soon =
    let kept = Dict.put key (record { result = intent; ts = now }) cache in
    let asked : parse_intent_llm now key (some intent) fallback cache ≡ (intent, kept) =
      ap (λ o. or_ask o now key (some intent) fallback cache) stale in
    let found : fresh later (Dict.get key kept) ≡ some intent =
      ap (fresh later) (get-put_self key (record { result = intent; ts = now }) cache)
      ∙ ap (λ b. if b then some intent else none) (lt→ltb (later - now) cache_ttl soon) in
    ap (λ r. parse_intent_llm later key llm fallback r.1) asked
    ∙ ap (λ o. or_ask o later key llm fallback kept) found
    ∙ ap (λ r. (intent, r.1)) (sym asked)
