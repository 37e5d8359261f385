-- ===== src/Swarm/Distributor/Pending.antt =====
-- swarm/task_distributor.py: which tasks are pending for a node, and what a reassignment does.
use anp_edge_swarm.Base.{
  String, ◌==◌, eq_iff, ◌≡◌, refl, Bool, true, some, [], ◌∷◌, arith, if◌then◌else◌, Option-cases,
  Bool-cases, inl, inr, any,
}
use mathlib.Core.Option
use anp_edge_swarm.Dict
use anp_edge_swarm.Dict.{Dict, AllItems, get-put}
use anp_edge_swarm.Swarm.Distributor.{ActiveTask, Distributor, move_task, get_pending_tasks}

abbrev pub names : String → Dict ActiveTask → Bool
names task_id tasks = any (λ (j, t). j == task_id) tasks

-- Every task in flight on a node is listed as pending for it.
keep_items-names :
    (node task_id : String) (t : ActiveTask) (tasks : Dict ActiveTask)
    → Dict.get task_id tasks ≡ some t
    → t.node_id ≡ node
    → names task_id (Dict.keep_items (λ _ a. a.node_id == node) tasks) ≡ true
unfolding Dict.get Dict.keep_items
keep_items-names node task_id t [] h e = absurd (cc)
keep_items-names node task_id t ((j, w) ∷ tasks) h e = elim (Bool-cases (j == task_id)) [
  | inl here ↦
      let val : w ≡ t = ground arith in
      let kept : (w.node_id == node) ≡ true = (eq_iff w.node_id node).1 (rw val e) in
      rw kept (rw here refl)
  | inr there ↦ ground (arith, keep_items-names node task_id t tasks (rw there at h) e)
]

pub get_pending_tasks-names :
    (node task_id : String) (t : ActiveTask) (d : Distributor)
    → Dict.get task_id d.active_tasks ≡ some t
    → t.node_id ≡ node
    → names task_id (get_pending_tasks node d) ≡ true
unfolding get_pending_tasks
get_pending_tasks-names node task_id t d h e = keep_items-names node task_id t d.active_tasks h e

abbrev pub on_node : String → ActiveTask → ActiveTask
on_node best t = record t { node_id = best }

-- A move gives the task to the node and leaves the other tasks alone.
pub get-move_task :
    (task_id best j : String) (tasks : Dict ActiveTask)
    → Dict.get j (move_task task_id best tasks) ≡ (
        if task_id == j
        then Option.map (on_node best) (Dict.get task_id tasks)
        else Dict.get j tasks)
unfolding move_task
get-move_task task_id best j tasks = elim (Option-cases (Dict.get task_id tasks)) [
  | inl gone ↦ ground (arith, eq_iff task_id j)
  | inr (t, found) ↦ ground (arith, eq_iff task_id j, get-put task_id j (on_node best t) tasks)
]
