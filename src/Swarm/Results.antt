-- ===== src/Swarm/Results.antt =====
-- swarm/result_collector.py: the results that workers send back, and the wait for them. What the
-- connections deliver and the times are arguments.
pub mod Wait
pub mod Stopped
use anp_edge_swarm.Base.{
  ℕ, leb, eqb, String, ◌==◌, Bool, true, false, Option, none, some, List, [], ◌∷◌, length,
  if◌then◌else◌,
}
use anp_edge_swarm.Base.Json.{Json, get_field}

-- What a connection delivers: nothing, no JSON or an OSError; bytes that are no UTF-8; or a value.
pub data Received : Type 0 where
  nothing : Received
  no_text : Received
  value : Json → Received

-- A key of `_results`: Python's True and False are the keys 1 and 0.
pub data Key : Type 0 where
  text : String → Key
  number : ℕ → Key
  nothing : Key

unfoldable pub same_key : Key → Key → Bool
same_key (Key.text s) (Key.text t) = s == t
same_key (Key.number m) (Key.number n) = eqb m n
same_key Key.nothing Key.nothing = true
same_key _ _ = false

-- `_results`, in the order in which its keys were first assigned.
abbrev pub Reports : Type 0
Reports = List (Key × Json)

-- `_results[task_id] = msg`
unfoldable pub put_report : Key → Json → Reports → Reports
unfolding same_key
put_report k msg [] = (k, msg) ∷ []
put_report k msg ((j, w) ∷ rest) =
    let later = put_report k msg rest in if same_key j k then (j, msg) ∷ rest else (j, w) ∷ later

-- `list(_results.values())`
unfoldable pub values : Reports → List Json
values [] = []
values ((j, w) ∷ rest) = w ∷ values rest

-- `_results`, and whether the thread of `_listen_loop` still runs.
pub record Collector : Type 0 where
  pub listening : Bool
  pub results : Reports

abbrev pub is_result : Option Json → Bool
is_result (some (Json.str t)) = t == "TASK_RESULT"
is_result _ = false

abbrev pub put_message : Key → Json → Collector → Collector
put_message task_id msg c = record c { results = put_report task_id msg c.results }

-- An exception that the loop does not catch ends its thread.
abbrev pub stop : Collector → Collector
stop c = record c { listening = false }

-- A message whose type is TASK_RESULT; a list or a dict cannot be a key.
abbrev pub put_under : Option Json → Json → Collector → Collector
put_under none msg c = put_message (Key.text "unknown") msg c
put_under (some (Json.str task_id)) msg c = put_message (Key.text task_id) msg c
put_under (some (Json.num n)) msg c = put_message (Key.number n) msg c
put_under (some (Json.bool b)) msg c = put_message (Key.number (if b then 1 else 0)) msg c
put_under (some Json.null) msg c = put_message Key.nothing msg c
put_under (some (Json.arr vs)) msg c = stop c
put_under (some (Json.obj r)) msg c = stop c

abbrev pub put_value : Json → Collector → Collector
put_value (Json.obj r) c =
    if is_result (get_field "type" (Json.obj r))
    then put_under (get_field "task_id" (Json.obj r)) (Json.obj r) c
    else c
put_value _ c = stop c

abbrev pub put_received : Received → Collector → Collector
put_received Received.nothing c = c
put_received Received.no_text c = stop c
put_received (Received.value msg) c = put_value msg c

-- A turn of `_listen_loop`
unfoldable pub collect : Received → Collector → Collector
unfolding get_field
collect x c = if c.listening then put_received x c else c

unfoldable pub collect_all : List Received → Collector → Collector
unfolding collect
collect_all [] c = c
collect_all (x ∷ xs) c = collect_all xs (collect x c)

-- A turn of the loop of `wait_for_results`: what has arrived since the turn before, and the time.
pub record Round : Type 0 where
  pub arrived : List Received
  pub now : ℕ

-- `wait_for_results`; `none` is a wait that has not returned after the turns.
unfoldable pub wait_for_results :
    (expected_count deadline : ℕ) → List Round → Collector → Option (List Json)
unfolding collect_all values
wait_for_results n deadline [] c = none
wait_for_results n deadline (r ∷ rs) c =
    let c' = collect_all r.arrived c in
    let current = values c'.results in
    let later = wait_for_results n deadline rs c' in
    if leb n (length current)
    then some current
    else if leb deadline r.now
    then some current
    else later
