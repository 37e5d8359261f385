-- ===== src/Core/Intent.antt =====
-- core/intent_parser.py. `text` is the user's text in lower case and `words` its words. What the
-- language model makes of the text is an argument, `none` where the request fails.
pub mod Agents
use anp_edge_swarm.Base.{
  ℕ, ◌-◌, ltb, String, ◌==◌, Bool, true, false, ◌||◌, Option, none, some, List, [], ◌∷◌, map,
  if◌then◌else◌, any, keep,
}
use text.Mathlib.Text.{find?}
use anp_edge_swarm.Dict
use anp_edge_swarm.Dict.{Dict, is_some}

pub record Intent : Type 0 where
  pub goal : String
  pub data_required : List String
  pub priority : String
  pub auto_spawn : Bool

abbrev pub all_sensors : List String
all_sensors = "attendance" ∷ "temperature" ∷ "materials" ∷ []

abbrev pub keywords : Dict (List String)
keywords =
    ("attendance", "attendance" ∷ "headcount" ∷ "people" ∷ "workers" ∷ "staff" ∷ [])
    ∷ ("temperature", "temperature" ∷ "temp" ∷ "heat" ∷ "celsius" ∷ "humidity" ∷ [])
    ∷ ("materials", "materials" ∷ "inventory" ∷ "stock" ∷ "items" ∷ "supplies" ∷ [])
    ∷ []

-- `any(kw in text for kw in kws)`
unfoldable pub mentions : (text : String) → List String → Bool
mentions text kws = any (λ kw. is_some (find? text kw)) kws

-- `xs if xs else ys`
abbrev pub or_all : List String → List String
or_all [] = all_sensors
or_all (x ∷ xs) = x ∷ xs

unfoldable pub required_sensors : (text : String) (words : List String) → List String
unfolding mentions
required_sensors text words = or_all (
    if any (λ w. w == "all") words
    then all_sensors
    else map (λ k. k.0) (keep (λ (sensor, kws). mentions text kws) keywords))

unfoldable pub parse_intent : (text : String) (words : List String) → Intent
unfolding mentions required_sensors
parse_intent text words = record {
  goal = "site_check";
  data_required = required_sensors text words;
  priority =
      if mentions text ("urgent" ∷ "critical" ∷ "now" ∷ "immediately" ∷ [])
      then "high"
      else "normal";
  auto_spawn = true;
}

-- An entry of `_cache`.
pub record Cached : Type 0 where
  pub result : Intent
  pub ts : ℕ

abbrev pub cache_ttl : ℕ
cache_ttl = 60

abbrev pub fresh : (now : ℕ) → Option Cached → Option Intent
fresh now none = none
fresh now (some c) = if ltb (now - c.ts) cache_ttl then some c.result else none

abbrev pub ask :
    (now : ℕ) (cache_key : String) (llm : Option Intent) (fallback : Intent)
    → Dict Cached
    → Intent × Dict Cached
ask now cache_key none fallback cache = (fallback, cache)
ask now cache_key (some intent) fallback cache =
    (intent, Dict.put cache_key (record { result = intent; ts = now }) cache)

abbrev pub or_ask :
    Option Intent
    → (now : ℕ) (cache_key : String) (llm : Option Intent) (fallback : Intent) → Dict Cached
    → Intent × Dict Cached
or_ask (some intent) now cache_key llm fallback cache = (intent, cache)
or_ask none now cache_key llm fallback cache = ask now cache_key llm fallback cache

-- `fallback` is what `parse_intent` gives.
unfoldable pub parse_intent_llm :
    (now : ℕ) (cache_key : String) (llm : Option Intent) (fallback : Intent)
    → Dict Cached
    → Intent × Dict Cached
parse_intent_llm now cache_key llm fallback cache =
    or_ask (fresh now (Dict.get cache_key cache)) now cache_key llm fallback cache
