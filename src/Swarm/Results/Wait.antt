-- ===== src/Swarm/Results/Wait.antt =====
-- swarm/result_collector.py: what a wait returns, and what is collected.
use anp_edge_swarm.Base.{
  ℕ, ◌≤◌, ◌<◌, leb, leb→le, le→leb, ◌≡◌, ◌⊎◌, inl, inr, refl, ap, Bool, true, false, Option, none,
  some, List, [], ◌∷◌, ◌++◌, length, if◌then◌else◌, Bool-cases, arith,
}
use anp_edge_swarm.Base.Json.{Json, get_field}
use anp_edge_swarm.Swarm.Results.{
  Key, Reports, put_report, values, Received, Collector, Round, collect, collect_all, put_received,
  put_value, put_under, is_result, wait_for_results,
}

-- What has been collected when the turns are over.
abbrev pub collect_rounds : List Round → Collector → Collector
collect_rounds [] c = c
collect_rounds (r ∷ rs) c = collect_rounds rs (collect_all r.arrived c)

module _ (n deadline : ℕ) where
  -- After none of the turns were there enough results, or had the deadline passed.
  abbrev pub Waiting : List Round → Collector → Type 0
  Waiting [] c = Unit
  Waiting (r ∷ rs) c =
      (r.now < deadline)
      × (length (values (collect_all r.arrived c).results) < n)
      × Waiting rs (collect_all r.arrived c)

  -- The wait returns in the turn `last`, with all that has been collected then: enough, or the
  -- deadline has passed. In the turns before, there were not enough and it had not.
  pub record IsAnswer (rounds : List Round) (c : Collector) (answer : Option (List Json))
      : Type 0 where
    pub seen : List Round
    pub last : Round
    pub rest : List Round
    pub split : rounds ≡ seen ++ last ∷ rest
    pub returned : answer ≡ some (values (collect_rounds (seen ++ last ∷ []) c).results)
    pub ended :
        (n ≤ length (values (collect_rounds (seen ++ last ∷ []) c).results)) ⊎ (deadline ≤ last.now)
    pub waited : Waiting seen c

  enough :
      (r : Round) (rs : List Round) (c : Collector)
      → (n ≤ length (values (collect_all r.arrived c).results)) ⊎ (deadline ≤ r.now)
      → IsAnswer (r ∷ rs) c (some (values (collect_all r.arrived c).results))
  enough r rs c h = record {
    seen = [];
    last = r;
    rest = rs;
    split = refl;
    returned = refl;
    ended = h;
    waited = tt;
  }

  again :
      (r : Round) (rs : List Round) (c : Collector) (answer : Option (List Json))
      → r.now < deadline
      → length (values (collect_all r.arrived c).results) < n
      → IsAnswer rs (collect_all r.arrived c) answer
      → IsAnswer (r ∷ rs) c answer
  again r rs c answer h few a = record {
    seen = r ∷ a.seen;
    last = a.last;
    rest = a.rest;
    split = ap (λ xs. r ∷ xs) a.split;
    returned = a.returned;
    ended = a.ended;
    waited = (h, few, a.waited);
  }

  turn-IsAnswer :
      (r : Round) (rs : List Round) (c : Collector)
      → (r.now < deadline
          → IsAnswer rs
              (collect_all r.arrived c)
              (wait_for_results n deadline rs (collect_all r.arrived c)))
      → IsAnswer (r ∷ rs) c (wait_for_results n deadline (r ∷ rs) c)
  unfolding wait_for_results
  turn-IsAnswer r rs c later =
      elim (Bool-cases (leb n (length (values (collect_all r.arrived c).results)))) [
        | inl e ↦ rw e (enough r rs c (inl (leb→le n _ e)))
        | inr e ↦ rw e (elim (Bool-cases (leb deadline r.now)) [
          | inl f ↦ rw f (enough r rs c (inr (leb→le deadline r.now f)))
          | inr f ↦
              let early : r.now < deadline = ground arith in
              let few : length (values (collect_all r.arrived c).results) < n = ground arith in
              rw f (again r rs c _ early few (later early))
        ])
      ]

  -- A wait in whose turns the deadline passes returns in the first turn in which there are enough
  -- results or the deadline has passed, with all the results collected until then.
  pub wait_for_results-IsAnswer :
      (before after : List Round) (r : Round) (c : Collector)
      → deadline ≤ r.now
      → IsAnswer (before ++ r ∷ after) c (wait_for_results n deadline (before ++ r ∷ after) c)
  wait_for_results-IsAnswer [] after r c h = turn-IsAnswer r after c (λ e. absurd (omega arith))
  wait_for_results-IsAnswer (b ∷ before) after r c h =
      turn-IsAnswer b (before ++ r ∷ after) c
        (λ e. wait_for_results-IsAnswer before after r (collect_all b.arrived c) h)

length-put_report :
    (k : Key) (v : Json) (d : Reports) → length (values d) ≤ length (values (put_report k v d))
unfolding put_report values
length-put_report k v [] = omega arith
length-put_report k v ((j, w) ∷ d) = ground (arith, length-put_report k v d)

-- No fewer results than before.
abbrev Grown : Collector → Collector → Type 0
Grown c c' = length (values c.results) ≤ length (values c'.results)

put_under-Grown : (o : Option Json) (msg : Json) (c : Collector) → Grown c (put_under o msg c)
put_under-Grown none msg c = length-put_report (Key.text "unknown") msg c.results
put_under-Grown (some Json.null) msg c = length-put_report Key.nothing msg c.results
put_under-Grown (some (Json.bool b)) msg c =
    length-put_report (Key.number (if b then 1 else 0)) msg c.results
put_under-Grown (some (Json.num m)) msg c = length-put_report (Key.number m) msg c.results
put_under-Grown (some (Json.str id)) msg c = length-put_report (Key.text id) msg c.results
put_under-Grown (some (Json.arr vs)) msg c = omega arith
put_under-Grown (some (Json.obj r)) msg c = omega arith

if-Grown : (b : Bool) (c c' : Collector) → Grown c c' → Grown c (if b then c' else c)
if-Grown true c c' h = h
if-Grown false c c' h = omega arith

put_value-Grown : (v : Json) (c : Collector) → Grown c (put_value v c)
put_value-Grown Json.null c = omega arith
put_value-Grown (Json.bool b) c = omega arith
put_value-Grown (Json.num m) c = omega arith
put_value-Grown (Json.str s) c = omega arith
put_value-Grown (Json.arr vs) c = omega arith
put_value-Grown (Json.obj r) c =
    if-Grown (is_result (get_field "type" (Json.obj r))) c _
      (put_under-Grown (get_field "task_id" (Json.obj r)) (Json.obj r) c)

put_received-Grown : (x : Received) (c : Collector) → Grown c (put_received x c)
put_received-Grown Received.nothing c = omega arith
put_received-Grown Received.no_text c = omega arith
put_received-Grown (Received.value v) c = put_value-Grown v c

collect-Grown : (x : Received) (c : Collector) → Grown c (collect x c)
unfolding collect
collect-Grown x c = if-Grown c.listening c (put_received x c) (put_received-Grown x c)

collect_all-Grown : (xs : List Received) (c : Collector) → Grown c (collect_all xs c)
unfolding collect_all
collect_all-Grown [] c = omega arith
collect_all-Grown (x ∷ xs) c = omega (arith, collect-Grown x c, collect_all-Grown xs (collect x c))

-- A wait for no more results than there already are, be they of earlier tasks, returns in its first
-- turn, with those and what has arrived in it.
pub wait_for_results-old :
    (n deadline : ℕ) (r : Round) (rs : List Round) (c : Collector)
    → n ≤ length (values c.results)
    → wait_for_results n deadline (r ∷ rs) c ≡ some (values (collect_all r.arrived c).results)
unfolding wait_for_results
wait_for_results-old n deadline r rs c h =
    let enough : leb n (length (values (collect_all r.arrived c).results)) ≡ true =
      le→leb n _ (omega (arith, collect_all-Grown r.arrived c)) in
    rw enough refl
