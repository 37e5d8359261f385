-- ===== src/Agents/Action.antt =====
-- agents/action_agent.py: `ActionAgent.execute` on what the assembler gives, and the older
-- core/action_planner.py. Files and printing are the list of actions taken; a publication on the
-- event bus is an event with its priority.
pub mod Escalation
use anp_edge_swarm.Base.{
  ℕ, String, ◌==◌, Bool, true, false, not, ◌&&◌, ◌||◌, Option, none, some, List, [], ◌∷◌, ◌++◌,
  if◌then◌else◌,
}
use anp_edge_swarm.Base.Json.{Json, Items, truthy}
use anp_edge_swarm.Ml.Assembler.{FinalOutput}

pub data Taken : Type 0 where
  logged work_order alert_printed emergency_escalation : Taken

pub record Published : Type 0 where
  pub event_type : String
  pub priority : Json

-- What `execute` does, and whether it returns: an exception ends it.
pub record Executed : Type 0 where
  pub actions_taken : List Taken
  pub published : List Published
  pub urgency : Json
  pub status : Json
  pub returns : Bool

-- `value == text`
abbrev pub equals : Json → String → Bool
equals (Json.str s) t = s == t
equals _ t = false

-- Whether the alert is printed.
unfoldable pub is_alert : (status urgency : Json) → Bool
is_alert status urgency =
    (equals status "WARNING" || equals status "CRITICAL")
    || (equals urgency "HIGH" || equals urgency "CRITICAL")

unfoldable pub is_emergency : (status urgency : Json) → Bool
is_emergency status urgency = equals urgency "CRITICAL" || equals status "CRITICAL"

abbrev pub only_if : {A : Type 0} → Bool → A → List A
only_if b x = if b then x ∷ [] else []

abbrev pub is_dict : Json → Bool
is_dict (Json.obj r) = true
is_dict _ = false

abbrev pub are_dicts : Items → Bool
are_dicts Items.nil = true
are_dicts (Items.cons v vs) = is_dict v && are_dicts vs

-- Whether `_send_alert` can print the anomalies: it asks each for its "field", which raises where one
-- is no dict, as the characters of a text and the keys of a dict are none.
unfoldable pub can_print : Json → Bool
unfolding truthy
can_print (Json.arr vs) = are_dicts vs
can_print anomalies = not (truthy anomalies)

-- The default priority of an event is "MEDIUM".
unfoldable pub execute : FinalOutput → Executed
unfolding is_alert is_emergency can_print
execute decision =
    let alert = is_alert decision.status decision.action_urgency in
    let emergency = is_emergency decision.status decision.action_urgency in
    let raises = alert && not (can_print decision.anomalies_found) in
    record {
      actions_taken =
          Taken.logged
          ∷ Taken.work_order
          ∷ (if raises
              then []
              else only_if alert Taken.alert_printed
                ++ only_if emergency Taken.emergency_escalation);
      published =
          record { event_type = "action.workorder"; priority = Json.str "MEDIUM" }
          ∷ (if raises
              then []
              else only_if alert
                  (record { event_type = "action.alert"; priority = decision.action_urgency })
                ++ only_if emergency
                    (record { event_type = "action.emergency"; priority = Json.str "CRITICAL" }));
      urgency = decision.action_urgency;
      status = decision.status;
      returns = not raises;
    }

-- core/action_planner.py; the number of the anomalies is left out.
pub record ActionPlan : Type 0 where
  pub urgency : Json
  pub status : Json
  pub actions : List String
  pub escalate : Bool
  pub create_workorder : Bool

unfoldable pub plan_actions : FinalOutput → ActionPlan
plan_actions result =
    let status = result.status in
    let urgency = result.action_urgency in
    let plan : List String → Bool → ActionPlan = λ actions escalate. record {
      urgency = urgency;
      status = status;
      actions = actions;
      escalate = escalate;
      create_workorder = true;
    } in
    if equals status "CRITICAL" || equals urgency "CRITICAL"
    then plan ("emergency_escalation" ∷ "alert_supervisor" ∷ []) true
    else if equals status "WARNING" || (equals urgency "HIGH" || equals urgency "MEDIUM")
    then plan ("alert_supervisor" ∷ "schedule_inspection" ∷ []) false
    else plan ("log_and_monitor" ∷ []) false
