-- ===== src/Swarm/Kbucket/Closest.antt =====
-- swarm/kbucket.py: what `find_closest` and `get_closest` select.
use Prim.Native.Nat.{bit_xor}
use mathlib.Core.List.{Perm}
use anp_edge_swarm.Base.{
  ℕ, ◌≤◌, String, ◌≡◌, refl, some, List, [], ◌∷◌, ◌++◌, arith, Option-cases, inl, inr, length, take,
  drop, All, All-map, min, length-take, take-append-drop, leb→le,
}
use anp_edge_swarm.Base.Sort.{
  sort, by_key, sort-length, take-IsSorted, IsSorted, sort-perm, sort-IsSorted, by_key-IsOrder,
  take-drop-IsSorted,
}
use anp_edge_swarm.Swarm.Kbucket.Distance.{IsId, xor_distance-IsId}
use anp_edge_swarm.Swarm.Kbucket.{
  Node, RoutingTable, distances, distance_key, closest, find_closest, all_nodes,
}

-- `found` are the `count` nodes of `nodes` (all, if there are fewer) that are nearest to
-- `target_id`, the nearest first; `rest` are the others.
pub record IsNearest (target_id : String) (count : ℕ) (nodes found rest : List Node) : Type 0 where
  pub parts : Perm (found ++ rest) nodes
  pub size : length found ≡ min count (length nodes)
  pub sorted : IsSorted (by_key (distance_key target_id)) found
  pub nearer : All (λ x. All (λ y. distance_key target_id x ≤ distance_key target_id y) rest) found

closest-IsNearest :
    (target_id : String) (count : ℕ) (nodes found : List Node)
    → closest target_id count nodes ≡ some found
    → (rest : List Node) × IsNearest target_id count nodes found rest
unfolding closest
closest-IsNearest target_id count nodes found h =
    let key = distance_key target_id in
    let sorted = sort (by_key key) nodes in
    let same : take count sorted ≡ found = elim (Option-cases (distances target_id nodes)) [
      | inl gone ↦ absurd (ground arith)
      | inr (ds, computed) ↦ ground arith
    ] in
    let order = sort-IsSorted (by_key key) (by_key-IsOrder key) nodes in
    (
      drop count sorted,
      rw (← same) (record {
        parts = rw take-append-drop (sort-perm (by_key key) nodes);
        size = rw length-take (rw sort-length refl);
        sorted = take-IsSorted (by_key key) count sorted order;
        nearer =
            All-map _ _ (λ x. All-map _ _ (λ y e. leb→le (key x) (key y) e) (drop count sorted))
              (take count sorted) (take-drop-IsSorted (by_key key) count sorted order);
      }),
    )

-- A search that returns gives the nodes of the table nearest to the target, the nearest first, as
-- many as asked or all there are, and no other node of the table is nearer than one of them.
pub find_closest-IsNearest :
    (target_id : String) (count : ℕ) (t : RoutingTable) (found : List Node)
    → find_closest target_id count t ≡ some found
    → (rest : List Node) × IsNearest target_id count (all_nodes t) found rest
unfolding find_closest
find_closest-IsNearest target_id count t found h =
    closest-IsNearest target_id count (all_nodes t) found h

-- The distances of ids that can be read exist.
distances_total :
    (target_id : String) (nodes : List Node)
    → IsId target_id
    → All (λ n. IsId n.node_id) nodes
    → (ds : List ℕ) × (distances target_id nodes ≡ some ds)
unfolding distances
distances_total target_id [] p a = ([], refl)
distances_total target_id (n ∷ rest) p a =
    let (ds, e) = distances_total target_id rest p a.1 in
    (bit_xor a.0.value p.value ∷ ds, rw (xor_distance-IsId n.node_id target_id a.0 p, e, distances))

-- Among 160-bit ids a search returns: the ValueError is not raised.
pub find_closest_total :
    (target_id : String) (count : ℕ) (t : RoutingTable)
    → IsId target_id
    → All (λ n. IsId n.node_id) (all_nodes t)
    → (found : List Node) × (find_closest target_id count t ≡ some found)
unfolding find_closest closest
find_closest_total target_id count t p a =
    let (ds, e) = distances_total target_id (all_nodes t) p a in
    (take count (sort (by_key (distance_key target_id)) (all_nodes t)), rw (e, closest))
