-- ===== src/Ml/Hierarchy/Route.antt =====
-- ml/model_hierarchy.py: which node a task is routed to.
use anp_edge_swarm.Base.{
  ℕ, leb, leb→le, ◌≤◌, ◌<◌, String, ◌≡◌, ◌⊎◌, inl, inr, refl, ap, true, false, [], ◌∷◌, ◌++◌, All,
  Bool-cases, arith,
}
use anp_edge_swarm.Dict.{Dict}
use anp_edge_swarm.Ml.Decomposer.{Entry}
use anp_edge_swarm.Ml.Hierarchy.{task_tier, fits, first_fitting, route_task}

-- No peer's benchmark satisfies the tier.
abbrev pub NoneFits : ℕ → Dict Entry → Type 0
NoneFits required known = All (λ (nid, info). fits required info ≡ false) known

-- The first of the peers whose benchmark satisfies the tier.
pub record IsFirst (required : ℕ) (known : Dict Entry) (nid : String) : Type 0 where
  pub before : Dict Entry
  pub info : Entry
  pub after : Dict Entry
  pub split : known ≡ before ++ (nid, info) ∷ after
  pub fitting : fits required info ≡ true
  pub others : NoneFits required before

module _ (own : String) (required : ℕ) where
  abbrev Found : Dict Entry → Type 0
  Found known =
      ((first_fitting own required known ≡ own) × NoneFits required known)
      ⊎ IsFirst required known (first_fitting own required known)

  later-IsFirst :
      (nid to : String) (info : Entry) (rest : Dict Entry)
      → fits required info ≡ false
      → IsFirst required rest to
      → IsFirst required ((nid, info) ∷ rest) to
  later-IsFirst nid to info rest e f = record {
    before = (nid, info) ∷ f.before;
    info = f.info;
    after = f.after;
    split = ap (λ d. (nid, info) ∷ d) f.split;
    fitting = f.fitting;
    others = (e, f.others);
  }

  first_fitting-Found : (known : Dict Entry) → Found known
  first_fitting-Found [] = inl (refl, tt)
  first_fitting-Found ((nid, info) ∷ rest) = elim (Bool-cases (fits required info)) [
    | inl e ↦ rw e (
        inr (record {
          before = [];
          info = info;
          after = rest;
          split = refl;
          fitting = e;
          others = tt;
        }))
    | inr e ↦ rw e (elim (first_fitting-Found rest) [
      | inl (p, n) ↦ inl (p, (refl, n))
      | inr f ↦ inr (later-IsFirst nid _ info rest e f)
    ])
  ]

-- A task is routed to this node where its tier is high enough, or no known peer's benchmark
-- satisfies the tier of the task; and otherwise to the first known peer whose does.
pub route_task-IsFirst :
    (own : String) (level : ℕ) (task_type : String) (known : Dict Entry)
    → let to = route_task own level task_type known in
      ((to ≡ own) × ((task_tier task_type ≤ level) ⊎ NoneFits (task_tier task_type) known))
      ⊎ ((level < task_tier task_type) × IsFirst (task_tier task_type) known to)
unfolding route_task
route_task-IsFirst own level task_type known =
    let required = task_tier task_type in
    elim (Bool-cases (leb required level)) [
      | inl e ↦ rw e (inl (refl, inl (leb→le required level e)))
      | inr e ↦ rw e (elim (first_fitting-Found own required known) [
        | inl (p, n) ↦ inl (p, inr n)
        | inr f ↦ inr (ground arith, f)
      ])
    ]
