-- ===== src/Swarm/Results/Stopped.antt =====
-- swarm/result_collector.py: what ends the collection.
use anp_edge_swarm.Base.{
  ◌≡◌, ◌≢◌, inl, inr, refl, ap, ◌∙◌, false, List, [], ◌∷◌, ◌++◌, if◌then◌else◌, Bool-cases,
}
use anp_edge_swarm.Base.Json.{Json, Fields}
use anp_edge_swarm.Swarm.Results.{
  Received, Collector, collect, collect_all, put_received, put_value, stop,
}

-- The value is no JSON object.
abbrev pub NoObject : Json → Type 0
NoObject v = (r : Fields) → v ≢ Json.obj r

collect-stopped : (x : Received) (c : Collector) → c.listening ≡ false → collect x c ≡ c
unfolding collect
collect-stopped x c h = ap (λ b. if b then put_received x c else c) h

collect_all-stopped :
    (xs : List Received) (c : Collector) → c.listening ≡ false → collect_all xs c ≡ c
unfolding collect_all
collect_all-stopped [] c h = refl
collect_all-stopped (x ∷ xs) c h =
    ap (collect_all xs) (collect-stopped x c h) ∙ collect_all-stopped xs c h

put_value-NoObject : (v : Json) (c : Collector) → NoObject v → put_value v c ≡ stop c
put_value-NoObject Json.null c h = refl
put_value-NoObject (Json.bool b) c h = refl
put_value-NoObject (Json.num m) c h = refl
put_value-NoObject (Json.str s) c h = refl
put_value-NoObject (Json.arr vs) c h = refl
put_value-NoObject (Json.obj r) c h = absurd (h r refl)

collect-NoObject :
    (v : Json) (c : Collector)
    → NoObject v
    → let after = collect (Received.value v) c in
      (after.listening ≡ false) × (after.results ≡ c.results)
unfolding collect
collect-NoObject v c h = elim (Bool-cases c.listening) [
  | inl e ↦
      let p : collect (Received.value v) c ≡ stop c =
        ap (λ b. if b then put_value v c else c) e ∙ put_value-NoObject v c h in
      (ap (λ x. x.listening) p, ap (λ x. x.results) p)
  | inr e ↦
      let p = collect-stopped (Received.value v) c e in
      (ap (λ x. x.listening) p ∙ e, ap (λ x. x.results) p)
]

-- Once a JSON value that is no object is received, no later result is collected.
pub collect_all-NoObject :
    (before after : List Received) (v : Json) (c : Collector)
    → NoObject v
    → (collect_all (before ++ Received.value v ∷ after) c).results ≡ (collect_all before c).results
unfolding collect_all
collect_all-NoObject (x ∷ before) after v c h = collect_all-NoObject before after v (collect x c) h
collect_all-NoObject [] after v c h =
    let (silent, same) = collect-NoObject v c h in
    ap (λ x. x.results) (collect_all-stopped after (collect (Received.value v) c) silent) ∙ same
