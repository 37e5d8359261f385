-- ===== src/Swarm/Distributor/Plans.antt =====
-- swarm/task_distributor.py: what `distribute_tasks` does with the required sensors.
use anp_edge_swarm.Base.{
  ℕ, ◌+◌, ◌<◌, ◌%◌, String, ◌==◌, ◌≡◌, ◌∙◌, refl, Bool, true, List, [], ◌∷◌, ◌++◌, arith, All,
  All-map, All-if_cons, All-get_elem?, get_elem?-some, any, ◌&&◌, eq_refl, length, get_elem?,
  Option-cases, Bool-cases, inl, inr,
}
use anp_edge_swarm.Base.Counts.{times, times-append}
use native.Mathlib.Nat.{mod-lt}
use anp_edge_swarm.Dict
use anp_edge_swarm.Dict.{Dict, AllItems, AllItems-put, or_default}
use anp_edge_swarm.Swarm.Distributor.{
  KnownNode, Plan, is_worker, keep_local, assign_remote, place, distribute_from, distribute_tasks,
}

-- How often a sensor stands in the lists of a dict.
abbrev pub times_in : String → Dict (List String) → ℕ
times_in x [] = 0
times_in x ((k, l) ∷ d) = times x l + times_in x d

times_in-put :
    (x k : String) (l : List String) (d : Dict (List String))
    → times_in x (Dict.put k l d) + times x (or_default [] (Dict.get k d))
      ≡ times_in x d + times x l
unfolding Dict.put Dict.get
times_in-put x k l [] = omega arith
times_in-put x k l ((j, m) ∷ d) = ground (arith, times_in-put x k l d)

-- How often a plan has a sensor, on this node or on another.
abbrev pub planned : String → Plan → ℕ
planned x p = times x p.local_tasks + times_in x p.remote_tasks

keep_local-planned :
    (x sensor : String) (p : Plan)
    → planned x (keep_local sensor p) ≡ planned x p + times x (sensor ∷ [])
unfolding keep_local
keep_local-planned x sensor p = omega (arith, times-append x p.local_tasks (sensor ∷ []))

assign_remote-planned :
    (x target sensor : String) (p : Plan)
    → planned x (assign_remote target sensor p) ≡ planned x p + times x (sensor ∷ [])
unfolding assign_remote
assign_remote-planned x target sensor p =
    let old = or_default [] (Dict.get target p.remote_tasks) in
    omega (
      arith,
      times_in-put x target (old ++ sensor ∷ []) p.remote_tasks,
      times-append x old (sensor ∷ []),
    )

module _ (deliver : ℕ → String → Bool) (workers : Dict KnownNode) (x : String) where
  place-planned :
      (i : ℕ) (sensor : String) (p : Plan)
      → planned x (place deliver workers i sensor p) ≡ planned x p + times x (sensor ∷ [])
  unfolding place
  place-planned i sensor p = elim (Option-cases (get_elem? workers (i % length workers))) [
    | inl none_left ↦ rw (none_left, place) (keep_local-planned x sensor p)
    | inr ((target, info), found) ↦ elim (Bool-cases (deliver i info.addr)) [
      | inl sent ↦ rw (found, place) (rw sent (assign_remote-planned x target sensor p))
      | inr lost ↦ rw (found, place) (rw lost (keep_local-planned x sensor p))
    ]
  ]

  distribute_from-planned :
      (i : ℕ) (sensors : List String) (p : Plan)
      → planned x (distribute_from deliver workers i sensors p) ≡ planned x p + times x sensors
  unfolding distribute_from
  distribute_from-planned i [] p = omega arith
  distribute_from-planned i (sensor ∷ rest) p = ground (
    arith,
    distribute_from-planned (i + 1) rest (place deliver workers i sensor p),
    place-planned i sensor p,
  )

-- No task is lost and none is doubled: every sensor is planned as often as it is required, on this
-- node or on one other, whatever sends fail.
pub distribute_tasks-planned :
    (deliver : ℕ → String → Bool) (my_id : String) (known : Dict KnownNode) (required : List String)
    (x : String)
    → planned x (distribute_tasks deliver my_id known required) ≡ times x required
unfolding distribute_tasks
distribute_tasks-planned deliver my_id known required x = omega (
  arith,
  distribute_from-planned deliver (Dict.keep_items (is_worker my_id) known) x 0 required
      (record { local_tasks = []; remote_tasks = [] }),
)

-- `id` is a key of `known` whose node is a worker, and is not the own id.
abbrev pub offers : String → Dict KnownNode → String → Bool
offers my_id known id = any (λ (j, info). j == id && is_worker my_id j info) known

keep_items-offers :
    (my_id : String) (known : Dict KnownNode)
    → All (λ (j, info). offers my_id known j ≡ true) (Dict.keep_items (is_worker my_id) known)
unfolding Dict.keep_items
keep_items-offers my_id [] = tt
keep_items-offers my_id ((j, info) ∷ known) =
    let later =
      All-map (λ (i, w). offers my_id known i ≡ true)
        (λ (i, w). offers my_id ((j, info) ∷ known) i ≡ true) (λ (i, w) h. ground (arith, h))
        (Dict.keep_items (is_worker my_id) known) (keep_items-offers my_id known) in
    All-if_cons (λ (i, w). offers my_id ((j, info) ∷ known) i ≡ true) (is_worker my_id j info)
      (j, info) (Dict.keep_items (is_worker my_id) known) (λ works. ground (arith, eq_refl j)) later

module _ (my_id : String) (known : Dict KnownNode) (deliver : ℕ → String → Bool) where
  abbrev workers : Dict KnownNode
  workers = Dict.keep_items (is_worker my_id) known

  abbrev TargetsOffer : Plan → Type 0
  TargetsOffer p = AllItems (λ id _. offers my_id known id ≡ true) p.remote_tasks

  place-TargetsOffer :
      (i : ℕ) (sensor : String) (p : Plan)
      → TargetsOffer p
      → TargetsOffer (place deliver workers i sensor p)
  unfolding place keep_local assign_remote
  place-TargetsOffer i sensor p h = elim (Option-cases (get_elem? workers (i % length workers))) [
    | inl none_left ↦ rw (none_left, place) h
    | inr ((target, info), found) ↦ elim (Bool-cases (deliver i info.addr)) [
      | inl sent ↦
          rw (found, place)
            (rw sent (
              AllItems-put (λ id _. offers my_id known id ≡ true) target _ p.remote_tasks
                (All-get_elem? (λ (j, w). offers my_id known j ≡ true) workers (i % length workers)
                  (target, info) (keep_items-offers my_id known) found)
                h))
      | inr lost ↦ rw (found, place) (rw lost h)
    ]
  ]

  distribute_from-TargetsOffer :
      (i : ℕ) (sensors : List String) (p : Plan)
      → TargetsOffer p
      → TargetsOffer (distribute_from deliver workers i sensors p)
  unfolding distribute_from
  distribute_from-TargetsOffer i [] p h = h
  distribute_from-TargetsOffer i (sensor ∷ rest) p h =
      distribute_from-TargetsOffer (i + 1) rest (place deliver workers i sensor p)
        (place-TargetsOffer i sensor p h)

  -- A task goes to another node only if that is a known worker and not this node.
  pub distribute_tasks-targets :
      (required : List String)
      → AllItems
          (λ id _. offers my_id known id ≡ true)
          (distribute_tasks deliver my_id known required).remote_tasks
  unfolding distribute_tasks
  distribute_tasks-targets required =
      distribute_from-TargetsOffer 0 required (record { local_tasks = []; remote_tasks = [] }) tt

-- Every send is delivered.
abbrev pub always : ℕ → String → Bool
always i addr = true

module _ (workers : Dict KnownNode) (some_worker : 0 < length workers) where
  place-local :
      (i : ℕ) (sensor : String) (p : Plan)
      → (place always workers i sensor p).local_tasks ≡ p.local_tasks
  unfolding place assign_remote
  place-local i sensor p =
      let ((target, info), found) =
        get_elem?-some workers (i % length workers) (mod-lt i some_worker) in
      rw (found, place) refl

  distribute_from-local :
      (i : ℕ) (sensors : List String) (p : Plan)
      → (distribute_from always workers i sensors p).local_tasks ≡ p.local_tasks
  unfolding distribute_from
  distribute_from-local i [] p = refl
  distribute_from-local i (sensor ∷ rest) p =
      distribute_from-local (i + 1) rest (place always workers i sensor p) ∙ place-local i sensor p

-- Where some known node is a worker and every send is delivered, no task stays on this node.
pub distribute_tasks-all_remote :
    (my_id : String) (known : Dict KnownNode) (required : List String)
    → 0 < length (Dict.keep_items (is_worker my_id) known)
    → (distribute_tasks always my_id known required).local_tasks ≡ []
unfolding distribute_tasks
distribute_tasks-all_remote my_id known required h =
    distribute_from-local (Dict.keep_items (is_worker my_id) known) h 0 required
      (record { local_tasks = []; remote_tasks = [] })
