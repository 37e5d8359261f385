-- ===== src/Ml/Context.antt =====
-- ml/context_manager.py: `ContextManager`, and ml/stream_buffer.py, the window of `StreamBuffer`.
-- The texts that are built for a prompt are not modelled.
pub mod Window
use anp_edge_swarm.Base.{
  ℕ, ◌-◌, ltb, leb, String, ◌==◌, Bool, true, false, Option, none, some, List, [], ◌∷◌, ◌++◌,
  length, last_n, count_if, if◌then◌else◌,
}
use anp_edge_swarm.Base.Json.{Json}
use anp_edge_swarm.Dict
use anp_edge_swarm.Dict.{Dict}

pub data Event : Type 0 where
  goal_set : (goal : String) → Event
  task_start : (task_type node : String) → Event
  task_complete : (task_id : String) (status : Option Json) → Event

-- `result` once the task is complete.
pub record LocalTask : Type 0 where
  pub type_of : String
  pub node : String
  pub started_at : ℕ
  pub result : Option Json

pub record Context : Type 0 where
  pub global_goal : String
  pub local_tasks : Dict LocalTask
  pub context_window : List (ℕ × Event)
  pub max_context : ℕ
  pub created_at : ℕ

unfoldable pub add_context : (now : ℕ) → Event → Context → Context
add_context now e c =
    let window = c.context_window ++ (now, e) ∷ [] in
    record c {
      context_window =
          if ltb c.max_context (length window) then last_n c.max_context window else window;
    }

unfoldable pub set_global_goal : (now : ℕ) → String → Context → Context
unfolding add_context
set_global_goal now goal c = add_context now (Event.goal_set goal) (record c { global_goal = goal })

abbrev pub with_task : (now : ℕ) → String → String → String → Context → Context
with_task now task_id task_type node_id c = record c {
  local_tasks =
      Dict.put task_id
        (record { type_of = task_type; node = node_id; started_at = now; result = none })
        c.local_tasks;
}

-- `short` is `node_id[:12]`.
unfoldable pub add_local_task :
    (now : ℕ) (short : String → String) → String → String → String → Context → Context
unfolding add_context
add_local_task now short task_id task_type node_id c =
    add_context now (Event.task_start task_type (short node_id))
      (with_task now task_id task_type node_id c)

-- A task that is not known is not entered.
abbrev pub with_result : String → Json → Context → Context
with_result task_id result c = record c {
  local_tasks = elim (Dict.get task_id c.local_tasks) [
    | none ↦ c.local_tasks
    | some t ↦ Dict.put task_id (record t { result = some result }) c.local_tasks
  ];
}

-- `short` is `task_id[:8]`, `status` is what the result has as its status.
unfoldable pub complete_task :
    (now : ℕ) (short : String → String) (status : Json → Option Json)
    → String
    → Json
    → Context
    → Context
unfolding add_context
complete_task now short status task_id result c =
    add_context now (Event.task_complete (short task_id) (status result))
      (with_result task_id result c)

abbrev pub is_active : LocalTask → Bool
is_active t = elim t.result [ none ↦ true | some r ↦ false ]

abbrev pub is_complete : LocalTask → Bool
is_complete t = elim t.result [ none ↦ false | some r ↦ true ]

pub record Status : Type 0 where
  pub active_tasks : ℕ
  pub complete_tasks : ℕ
  pub context_size : ℕ
  pub uptime : ℕ

unfoldable pub get_status : (now : ℕ) → Context → Status
get_status now c = record {
  active_tasks = count_if is_active (Dict.values c.local_tasks);
  complete_tasks = count_if is_complete (Dict.values c.local_tasks);
  context_size = length c.context_window;
  uptime = now - c.created_at;
}

-- `deque(maxlen=maxlen)`, for a length that is not 0
unfoldable pub add_reading : {A : Type 0} → (maxlen : ℕ) → A → List A → List A
add_reading maxlen reading window = last_n maxlen (window ++ reading ∷ [])

unfoldable pub is_ready : {A : Type 0} → List A → Bool
is_ready window = leb 3 (length window)
