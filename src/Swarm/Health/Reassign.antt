-- ===== src/Swarm/Health/Reassign.antt =====
-- swarm/health_monitor.py: what `_on_node_dead` does with the tasks of a node.
use mathlib.Core.Option
use anp_edge_swarm.Base.{
  ℕ, ◌<◌, String, ◌==◌, eq_iff, ◌≡◌, ◌≢◌, ◌∙◌, refl, sym, ap, Bool, true, false, not, none, some,
  [], ◌∷◌, arith, All-map, length, Option-cases, Bool-cases, inl, inr, ◌&&◌,
}
use anp_edge_swarm.Base.Sort.{max_by-All}
use anp_edge_swarm.Dict
use anp_edge_swarm.Dict.{Dict, AllItems, get-put, keep_items-test}
use anp_edge_swarm.Swarm.Distributor.{
  ActiveTask, Distributor, Peer, peer_score, best_peer, move_task, reassign_task, get_pending_tasks,
  run_locally, address_of,
}
use anp_edge_swarm.Swarm.Distributor.Pending.{
  names, on_node, get-move_task, get_pending_tasks-names,
}
use anp_edge_swarm.Swarm.Health.{
  Monitor, run_all_locally, reassign_all, alive_peers, hand_over, on_node_dead, get_node_status,
  status_is_alive,
}

module _ (deliver : ℕ → String → Bool) (delivered : (i : ℕ) (addr : String) → deliver i addr ≡ true)
    (node : String) (first : String × Peer) (others : Dict Peer)
    (elsewhere : AllItems (λ id _. id ≢ node) (first ∷ others)) where
  best_ne : (best_peer first others).0 ≢ node
  unfolding best_peer
  best_ne =
      max_by-All (λ (id, p). peer_score p) (λ (id, p). id ≢ node) first others elsewhere.0
        elsewhere.1

  -- A reassignment that is delivered is a move to the best peer.
  reassign_task-moves :
      (task_id : String) (t : ActiveTask) (d : Distributor)
      → (reassign_task deliver task_id t first others d).active_tasks
        ≡ move_task task_id (best_peer first others).0 d.active_tasks
  unfolding reassign_task
  reassign_task-moves task_id t d =
      rw (delivered (length d.sent) (address_of (best_peer first others).1)) refl

  move_task-stays :
      (task_id j : String) (a : ActiveTask) (tasks : Dict ActiveTask)
      → Dict.get j (move_task task_id (best_peer first others).0 tasks) ≡ some a
      → a.node_id ≡ node
      → (Dict.get j tasks ≡ some a) × ((task_id == j) ≡ false)
  move_task-stays task_id j a tasks h on = elim (Bool-cases (task_id == j)) [
    | inr other ↦ ground (arith, get-move_task task_id (best_peer first others).0 j tasks)
    | inl same ↦
        let e : Option.map (on_node (best_peer first others).0) (Dict.get task_id tasks) ≡ some a =
          ground (arith, get-move_task task_id (best_peer first others).0 j tasks) in
        elim (Option-cases (Dict.get task_id tasks)) [
          | inl gone ↦ absurd (let e' : none ≡ some a = rw gone at e in cc)
          | inr (b, found) ↦
              let e' : some (on_node (best_peer first others).0 b) ≡ some a = rw found at e in
              absurd (best_ne (ground arith))
        ]
  ]

  reassign_all-stays :
      (pending : Dict ActiveTask) (d : Distributor) (j : String) (a : ActiveTask)
      → Dict.get j (reassign_all deliver first others pending d).active_tasks ≡ some a
      → a.node_id ≡ node
      → (Dict.get j d.active_tasks ≡ some a) × (names j pending ≡ false)
  unfolding reassign_all
  reassign_all-stays [] d j a h on = (h, refl)
  reassign_all-stays ((task_id, t) ∷ rest) d j a h on =
      let ih = reassign_all-stays rest (reassign_task deliver task_id t first others d) j a h on in
      let moved : Dict.get j (move_task task_id (best_peer first others).0 d.active_tasks)
          ≡ some a =
        ap (Dict.get j) (sym (reassign_task-moves task_id t d)) ∙ ih.0 in
      let (stays, differs) = move_task-stays task_id j a d.active_tasks moved on in
      (stays, rw differs ih.1)

hand_over-clears :
    (deliver : ℕ → String → Bool) (node : String) (alive : Dict Peer) (d : Distributor)
    → ((i : ℕ) (addr : String) → deliver i addr ≡ true)
    → AllItems (λ id _. id ≢ node) alive
    → 0 < length alive
    → (j : String) (a : ActiveTask)
    → Dict.get j (hand_over deliver alive (get_pending_tasks node d) d).active_tasks ≡ some a
    → a.node_id ≢ node
unfolding hand_over
hand_over-clears deliver node [] d delivered elsewhere some_alive j a h on = absurd (omega arith)
hand_over-clears deliver node (first ∷ others) d delivered elsewhere some_alive j a h on =
    let (stays, unnamed) =
      reassign_all-stays deliver delivered node first others elsewhere (get_pending_tasks node d) d
        j a h on in
    let named = get_pending_tasks-names node j a d stays on in
    let clash : false ≡ true = sym unnamed ∙ named in absurd (cc)

alive_peers-elsewhere :
    (peers : Dict Peer) (node : String) (m : Monitor)
    → AllItems (λ id _. id ≢ node) (alive_peers peers node m)
unfolding alive_peers
alive_peers-elsewhere peers node m =
    All-map _ (λ (id, p). id ≢ node) (λ (id, p) e. ground (arith, e, eq_iff id node))
      (alive_peers peers node m)
      (keep_items-test (λ pid _. status_is_alive (get_node_status pid m) && not (pid == node))
        peers)

-- After a call of `_on_node_dead` while another peer is alive, and the sends are delivered, no task
-- in flight is assigned to the node any more.
pub on_node_dead-clears :
    (deliver : ℕ → String → Bool) (peers : Dict Peer) (node : String) (m : Monitor)
    → ((i : ℕ) (addr : String) → deliver i addr ≡ true)
    → 0 < length (alive_peers peers node m)
    → (j : String) (a : ActiveTask)
    → Dict.get j (on_node_dead deliver peers node m).distributor.active_tasks ≡ some a
    → a.node_id ≢ node
unfolding on_node_dead
on_node_dead-clears deliver peers node m delivered some_alive =
    hand_over-clears deliver node (alive_peers peers node m) m.distributor delivered
      (alive_peers-elsewhere peers node m) some_alive

run_all_locally-keeps :
    (pending : Dict ActiveTask) (d : Distributor)
    → (run_all_locally pending d).active_tasks ≡ d.active_tasks
unfolding run_all_locally run_locally
run_all_locally-keeps [] d = refl
run_all_locally-keeps ((task_id, t) ∷ rest) d =
    run_all_locally-keeps rest (run_locally task_id t d) ∙ ground arith

has-move_task :
    (task_id best j : String) (tasks : Dict ActiveTask)
    → Dict.has j (move_task task_id best tasks) ≡ Dict.has j tasks
unfolding Dict.has
has-move_task task_id best j tasks = elim (Bool-cases (task_id == j)) [
  | inr other ↦ ground (arith, get-move_task task_id best j tasks)
  | inl same ↦
      let e : task_id ≡ j = (eq_iff task_id j).0 same in
      ground (arith, get-move_task task_id best j tasks, eq_iff task_id j)
]

reassign_task-has :
    (deliver : ℕ → String → Bool) (task_id : String) (t : ActiveTask) (first : String × Peer)
    (others : Dict Peer) (d : Distributor) (j : String)
    → Dict.has j (reassign_task deliver task_id t first others d).active_tasks
      ≡ Dict.has j d.active_tasks
unfolding reassign_task
reassign_task-has deliver task_id t first others d j =
    let best = best_peer first others in
    elim (Bool-cases (deliver (length d.sent) (address_of best.1))) [
      | inl sent ↦ rw sent (has-move_task task_id best.0 j d.active_tasks)
      | inr lost ↦ rw lost refl
    ]

reassign_all-has :
    (deliver : ℕ → String → Bool) (first : String × Peer) (others : Dict Peer)
    (pending : Dict ActiveTask) (d : Distributor) (j : String)
    → Dict.has j (reassign_all deliver first others pending d).active_tasks
      ≡ Dict.has j d.active_tasks
unfolding reassign_all
reassign_all-has deliver first others [] d j = refl
reassign_all-has deliver first others ((task_id, t) ∷ rest) d j =
    reassign_all-has deliver first others rest (reassign_task deliver task_id t first others d) j
    ∙ reassign_task-has deliver task_id t first others d j

hand_over-has :
    (deliver : ℕ → String → Bool) (alive : Dict Peer) (pending : Dict ActiveTask) (d : Distributor)
    (j : String)
    → Dict.has j (hand_over deliver alive pending d).active_tasks ≡ Dict.has j d.active_tasks
unfolding hand_over
hand_over-has deliver [] pending d j = ap (Dict.has j) (run_all_locally-keeps pending d)
hand_over-has deliver (first ∷ others) pending d j =
    reassign_all-has deliver first others pending d j

-- Whoever is alive and whatever sends fail, the tasks in flight after a call of `_on_node_dead` are
-- those that were in flight before: a task that runs locally is not completed by it.
pub on_node_dead-has :
    (deliver : ℕ → String → Bool) (peers : Dict Peer) (node : String) (m : Monitor) (j : String)
    → Dict.has j (on_node_dead deliver peers node m).distributor.active_tasks
      ≡ Dict.has j m.distributor.active_tasks
unfolding on_node_dead
on_node_dead-has deliver peers node m j =
    hand_over-has deliver (alive_peers peers node m) (get_pending_tasks node m.distributor)
      m.distributor j
