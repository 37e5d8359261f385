-- ===== src/Agents/Factory/Lifetime.antt =====
-- agent_factory/: which agents an intent makes, and that none of them outlives its timer.
use anp_edge_swarm.Base.{
  ℕ, String, ◌==◌, eq_iff, eq_refl, ◌≡◌, refl, sym, ap, subst, Bool, true, false, Option, none,
  List, [], ◌∷◌, ◌++◌, map, keep, any, Bool-cases, Option-cases, All-map, inl, inr, arith,
}
use mathlib.Core.Bool.{false≢true}
use anp_edge_swarm.Dict
use anp_edge_swarm.Dict.{Dict, AllItems, AllItems-put}
use anp_edge_swarm.Agents.Factory.{
  Agent, Lifecycle, Factory, get_template, spawn, destroy, destroy_each, auto_destroy_after,
  is_sensor_agent, ttl_of, create, create_each, create_from_intent,
}

abbrev timed : List (String × ℕ) → String → Bool
timed ts id = any (λ t. t.0 == id) ts

-- Every active agent has a timer.
abbrev pub IsTimed : Lifecycle → Type 0
IsTimed l = AllItems (λ id agent. timed l.timers id ≡ true) l.active_agents

any-append :
    (id : String) (ts : List (String × ℕ)) (t : String × ℕ)
    → timed ts id ≡ true
    → timed (ts ++ t ∷ []) id ≡ true
any-append id [] t h = absurd (false≢true h)
any-append id (u ∷ ts) t h = ground (arith, any-append id ts t)

any-last : (id : String) (ts : List (String × ℕ)) (n : ℕ) → timed (ts ++ (id, n) ∷ []) id ≡ true
any-last id [] n = ground (arith, eq_refl id)
any-last id (u ∷ ts) n = ground (arith, any-last id ts n)

module _ (new_id : String → ℕ → String) (ttl : ℕ) where
  create-IsTimed :
      (s : String) (f : Factory) → IsTimed f.lifecycle → IsTimed (create new_id ttl s f).1.lifecycle
  unfolding create spawn auto_destroy_after
  create-IsTimed s f h =
      let id = new_id s f.created_count in
      let ts = f.lifecycle.timers in
      AllItems-put (λ i agent. timed (ts ++ (id, ttl) ∷ []) i ≡ true) id _ f.lifecycle.active_agents
        (any-last id ts ttl)
        (All-map _ _ (λ (i, agent) k. any-append i ts (id, ttl) k) f.lifecycle.active_agents h)

  create_each-IsTimed :
      (required : List String) (f : Factory)
      → IsTimed f.lifecycle
      → IsTimed (create_each new_id ttl required f).1.lifecycle
  unfolding create_each
  create_each-IsTimed [] f h = h
  create_each-IsTimed (s ∷ rest) f h = elim (Bool-cases (is_sensor_agent (get_template s))) [
    | inl e ↦ rw e (create_each-IsTimed rest (create new_id ttl s f).1 (create-IsTimed s f h))
    | inr e ↦ rw e (create_each-IsTimed rest f h)
  ]

  create_each-sensors :
      (required : List String) (f : Factory)
      → map (λ a. a.sensor_type) (create_each new_id ttl required f).0
        ≡ keep (λ s. is_sensor_agent (get_template s)) required
  unfolding create_each create
  create_each-sensors [] f = refl
  create_each-sensors (s ∷ rest) f = elim (Bool-cases (is_sensor_agent (get_template s))) [
    | inl e ↦ rw e (ap (λ xs. s ∷ xs) (create_each-sensors rest (create new_id ttl s f).1))
    | inr e ↦ rw e (create_each-sensors rest f)
  ]

-- The agents that an intent makes are one for each required sensor that has a SensorAgent, in
-- their order; the other sensors are left out.
pub create_from_intent-sensors :
    (new_id : String → ℕ → String) (required : List String) (priority : Option String) (f : Factory)
    → map (λ a. a.sensor_type) (create_from_intent new_id required priority f).0
      ≡ keep (λ s. is_sensor_agent (get_template s)) required
unfolding create_from_intent
create_from_intent-sensors new_id required priority f =
    create_each-sensors new_id (ttl_of priority) required f

-- The timers run out, in the order of the list.
abbrev pub run_out : List (String × ℕ) → Lifecycle → Lifecycle
run_out ts l = destroy_each (map (λ t. t.0) ts) l

remove-absent : {V : Type 0} (k : String) (d : Dict V) → Dict.get k d ≡ none → Dict.remove k d ≡ d
unfolding Dict.get Dict.remove
remove-absent k [] h = refl
remove-absent k ((j, v) ∷ d) h = ground (arith, remove-absent k d)

destroy-active :
    (id : String) (l : Lifecycle) → (destroy id l).active_agents ≡ Dict.remove id l.active_agents
unfolding destroy
destroy-active id l = elim (Option-cases (Dict.get id l.active_agents)) [
  | inl gone ↦ rw (gone, destroy) (sym (remove-absent id l.active_agents gone))
  | inr (a, found) ↦ rw (found, destroy) refl
]

remove-timed :
    (t : String × ℕ) (ts : List (String × ℕ)) (d : Dict Agent)
    → AllItems (λ id agent. timed (t ∷ ts) id ≡ true) d
    → AllItems (λ id agent. timed ts id ≡ true) (Dict.remove t.0 d)
unfolding Dict.remove
remove-timed t ts [] h = tt
remove-timed t ts ((j, a) ∷ d) h = elim (Bool-cases (j == t.0)) [
  | inl e ↦ rw e (remove-timed t ts d h.1)
  | inr e ↦ rw e (ground (arith, h.0, e, eq_iff t.0 j, eq_iff j t.0), remove-timed t ts d h.1)
]

run_out-empty :
    (ts : List (String × ℕ)) (l : Lifecycle)
    → AllItems (λ id agent. timed ts id ≡ true) l.active_agents
    → (run_out ts l).active_agents ≡ []
unfolding destroy_each
run_out-empty [] l h = no_items l.active_agents h
  where
    no_items : (d : Dict Agent) → AllItems (λ id agent. false ≡ true) d → d ≡ []
    no_items [] k = refl
    no_items ((i, a) ∷ d) k = absurd (false≢true k.0)
run_out-empty (t ∷ ts) l h = run_out-empty ts (destroy t.0 l) (
    subst (AllItems (λ id agent. timed ts id ≡ true)) (sym (destroy-active t.0 l))
      (remove-timed t ts l.active_agents h))

-- If every active agent has a timer, then so has every one after an intent, and when all timers
-- have run out no agent is active.
pub create_from_intent-run_out :
    (new_id : String → ℕ → String) (required : List String) (priority : Option String) (f : Factory)
    → IsTimed f.lifecycle
    → let made = (create_from_intent new_id required priority f).1.lifecycle in
      (run_out made.timers made).active_agents ≡ []
unfolding create_from_intent
create_from_intent-run_out new_id required priority f h =
    let made = (create_each new_id (ttl_of priority) required f).1.lifecycle in
    run_out-empty made.timers made (create_each-IsTimed new_id (ttl_of priority) required f h)
