-- ===== src/Ml/Decomposer/Plans.antt =====
-- ml/task_decomposer.py: every task has a node of the swarm that can run it, if there is one.
use anp_edge_swarm.Base.{
  ℕ, ◌%◌, ◌<◌, String, ◌==◌, ◌≡◌, ◌⊎◌, refl, sym, subst, Bool, true, false, not, List, [], ◌∷◌, map,
  any, eqb, count_if, keep, length, get_elem?, All, All-keep, All-keep_test, All-map, All-get_elem?,
  Bool-cases, Option-cases, inl, inr, arith,
}
use anp_edge_swarm.Base.Sort.{max_by-All, sort-All, sort-length}
use anp_edge_swarm.Dict
use anp_edge_swarm.Dict.{Dict, or_default}
use anp_edge_swarm.Ml.Decomposer.{
  Task, Entry, Ranked, can_run, eligible_for, or_first, pick_preferred, best_by, pick, light_node,
  assigned_ids, assign, Assignment, place_tasks, place, rank, all_nodes, decompose,
}

-- `n` can run the task, or no node of the list can.
abbrev pub Suits : Task → List Ranked → Ranked → Type 0
Suits t nodes n = (can_run t n ≡ true) ⊎ All (λ m. can_run t m ≡ false) nodes

keep-none : {A : Type 0} (p : A → Bool) (xs : List A) → keep p xs ≡ [] → All (λ x. p x ≡ false) xs
keep-none p [] h = tt
keep-none p (x ∷ xs) h = elim (Bool-cases (p x)) [
  | inl e ↦ let found : x ∷ keep p xs ≡ [] = rw e at h in absurd (cc)
  | inr e ↦ (e, keep-none p xs (rw e at h))
]

All-both :
    {A : Type 0} (P Q : A → Type 0) (xs : List A) → All P xs → All Q xs → All (λ x. P x × Q x) xs
All-both P Q [] h k = tt
All-both P Q (x ∷ xs) h k = ((h.0, k.0), All-both P Q xs h.1 k.1)

-- What holds of a first element and of the rest.
abbrev AllOf : (Ranked → Type 0) → Ranked × List Ranked → Type 0
AllOf P c = P c.0 × All P c.1

module _ (P : Ranked → Type 0) where
  or_first-AllOf :
      (n : Ranked) (xs : List Ranked) → (xs ≡ [] → P n) → All P xs → AllOf P (or_first n xs)
  or_first-AllOf n [] h k = (h refl, tt)
  or_first-AllOf n (x ∷ xs) h k = k

  best_by-All : (metric : Ranked → ℕ) (c : Ranked × List Ranked) → AllOf P c → P (best_by metric c)
  unfolding best_by
  best_by-All metric (n, ns) h = max_by-All metric P n ns h.0 h.1

  pick-All : (i : ℕ) (c : Ranked × List Ranked) → AllOf P c → P (pick i c)
  unfolding pick
  pick-All i (n, ns) h =
      let found = get_elem? (n ∷ ns) (i % length (n ∷ ns)) in
      elim (Option-cases found) [
        | inl e ↦ subst (λ o. P (or_default n o)) (sym e) h.0
        | inr (m, e) ↦
            subst (λ o. P (or_default n o)) (sym e)
              (All-get_elem? P (n ∷ ns) (i % length (n ∷ ns)) m h e)
      ]

  pick_preferred-All :
      (i : ℕ) (c : Ranked × List Ranked) (idle : List Ranked)
      → AllOf P c
      → All P idle
      → P (pick_preferred i c idle)
  unfolding pick_preferred
  pick_preferred-All i c [] h k = pick-All i c h
  pick_preferred-All i c (m ∷ ms) h k = pick-All i (m, ms) k

  light_node-All :
      (i : ℕ) (assigned : List String) (c : Ranked × List Ranked)
      → AllOf P c
      → P (light_node i assigned c)
  unfolding light_node
  light_node-All i assigned (n, ns) h =
      pick_preferred-All i (n, ns) _ h
        (All-keep P (λ m. not (any (λ a. a == m.0) assigned)) (n ∷ ns) h)

module _ (P : Ranked → Type 0) where
  -- What is given to a task is a node of the list that suits it.
  abbrev Placed : List Ranked → Task × Ranked → Type 0
  Placed nodes (t, n) = P n × Suits t nodes n

  eligible_for-AllOf :
      (t : Task) (first : Ranked) (rest : List Ranked)
      → All P (first ∷ rest)
      → AllOf (λ n. Placed (first ∷ rest) (t, n)) (eligible_for t first rest)
  unfolding eligible_for
  eligible_for-AllOf t first rest h =
      let able = keep (can_run t) (first ∷ rest) in
      or_first-AllOf (λ n. Placed (first ∷ rest) (t, n)) first able
        (λ none_able. (h.0, inr (keep-none (can_run t) (first ∷ rest) none_able)))
        (All-map _ _ (λ n k. (k.0, inl k.1)) able
          (All-both P (λ n. can_run t n ≡ true) able (All-keep P (can_run t) (first ∷ rest) h)
            (All-keep_test (can_run t) (first ∷ rest))))

  place-Placed : (nodes : List Ranked) → All P nodes → All (Placed nodes) (place nodes)
  unfolding place place_tasks
  place-Placed [] h = tt
  place-Placed (only ∷ []) h = (
    only_suits Task.clean,
    (
      only_suits Task.anomaly,
      (only_suits Task.trend, (only_suits Task.history, (only_suits Task.action, tt))),
    ),
  )
    where
      only_suits : (t : Task) → Placed (only ∷ []) (t, only)
      only_suits t = elim (Bool-cases (can_run t only)) [
        | inl e ↦ (h.0, inl e)
        | inr e ↦ (h.0, inr (e, tt))
      ]
  place-Placed (first ∷ second ∷ rest) h =
      let able = λ (t : Task). eligible_for-AllOf t first (second ∷ rest) h in
      (
        best_by-All _ _ _ (able Task.action),
        (
          best_by-All _ _ _ (able Task.trend),
          (
            best_by-All _ _ _ (able Task.anomaly),
            (
              light_node-All _ 0 (assigned_ids first (second ∷ rest)) _ (able Task.clean),
              (light_node-All _ 1 (assigned_ids first (second ∷ rest)) _ (able Task.history), tt),
            ),
          ),
        ),
      )

abbrev task_number : Task → ℕ
task_number Task.clean = 0
task_number Task.anomaly = 1
task_number Task.trend = 2
task_number Task.history = 3
task_number Task.action = 4

-- How often a plan places a task.
abbrev times_placed : Task → List (Task × Assignment) → ℕ
times_placed t plan = count_if (λ (u, a). eqb (task_number u) (task_number t)) plan

-- Each task once, on a node of which `P` holds and that can run it, if any node can. The
-- assignment has the node's id and address, and says whether it is the local one.
pub record IsPlan (P : Ranked → Type 0) (local_id : String) (nodes : List Ranked)
    (plan : List (Task × Assignment)) : Type 0 where
  pub once : (t : Task) → times_placed t plan ≡ 1
  pub placed : All (λ (t, a). (n : Ranked) × (a ≡ assign local_id n) × P n × Suits t nodes n) plan

abbrev assigned_plan : String → List (Task × Ranked) → List (Task × Assignment)
assigned_plan local_id ps = map (λ (t, n). (t, assign local_id n)) ps

place-once :
    (local_id : String) (first : Ranked) (rest : List Ranked) (t : Task)
    → times_placed t (assigned_plan local_id (place (first ∷ rest))) ≡ 1
unfolding place place_tasks
place-once local_id first [] Task.clean = refl
place-once local_id first [] Task.anomaly = refl
place-once local_id first [] Task.trend = refl
place-once local_id first [] Task.history = refl
place-once local_id first [] Task.action = refl
place-once local_id first (second ∷ rest) Task.clean = refl
place-once local_id first (second ∷ rest) Task.anomaly = refl
place-once local_id first (second ∷ rest) Task.trend = refl
place-once local_id first (second ∷ rest) Task.history = refl
place-once local_id first (second ∷ rest) Task.action = refl

assigned-Placed :
    (P : Ranked → Type 0) (local_id : String) (nodes : List Ranked) (ps : List (Task × Ranked))
    → All (Placed P nodes) ps
    → All
        (λ (t, a). (n : Ranked) × (a ≡ assign local_id n) × P n × Suits t nodes n)
        (assigned_plan local_id ps)
assigned-Placed P local_id nodes [] h = tt
assigned-Placed P local_id nodes ((t, n) ∷ ps) h =
    ((n, refl, h.0.0, h.0.1), assigned-Placed P local_id nodes ps h.1)

ranked-IsPlan :
    (P : Ranked → Type 0) (local_id : String) (nodes : List Ranked)
    → 0 < length nodes
    → All P nodes
    → IsPlan P local_id nodes (assigned_plan local_id (place nodes))
ranked-IsPlan P local_id [] pos h = absurd (omega (arith, pos))
ranked-IsPlan P local_id (first ∷ rest) pos h = record {
  once = place-once local_id first rest;
  placed = assigned-Placed P local_id (first ∷ rest) _ (place-Placed P (first ∷ rest) h);
}

pub all_nodes-nonempty :
    (local_id : String) (known : Dict Entry) → 0 < length (all_nodes local_id known)
unfolding all_nodes Dict.has Dict.get
all_nodes-nonempty local_id [] = omega arith
all_nodes-nonempty local_id ((nid, e) ∷ known) = ground arith

-- For any known nodes the plan places each of the five tasks exactly once, on one of the known
-- nodes or the local node (whatever holds of all of them, `P`, holds of it), and on one that meets
-- the task's requirements, unless none of them does.
pub decompose-IsPlan :
    (P : Ranked → Type 0) (local_id : String) (known : Dict Entry)
    → All P (all_nodes local_id known)
    → IsPlan P local_id (rank (all_nodes local_id known)) (decompose local_id known)
unfolding decompose rank
decompose-IsPlan P local_id known h =
    let nodes = all_nodes local_id known in
    ranked-IsPlan P local_id (rank nodes)
      (subst (λ n. 0 < n) (sym (sort-length _ nodes)) (all_nodes-nonempty local_id known))
      (sort-All _ P nodes h)
