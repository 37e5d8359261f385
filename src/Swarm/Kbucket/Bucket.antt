-- ===== src/Swarm/Kbucket/Bucket.antt =====
-- swarm/kbucket.py: what `KBucket.add` and `KBucket.evict_stale` keep.
use anp_edge_swarm.Base.{
  suc, ◌≤◌, ◌<◌, String, ◌≡◌, ◌≢◌, ◌⊎◌, sym, Option-cases, refl, none, some, arith, if◌then◌else◌,
  Bool-cases, inl, inr, List, [], ◌∷◌, ◌++◌, length, drop, keep, All, All-append, All-drop,
  All-keep, length-append, ltb, ltb→lt, length-keep, length-drop, ◌==◌, eq_iff, Bool,
}
use anp_edge_swarm.Swarm.Kbucket.{Node, k, pop_node, add_nodes}

abbrev pub Other : String → Node → Type 0
Other id n = n.node_id ≢ id

-- No two nodes have the same id.
abbrev pub NoRepeat : List Node → Type 0
NoRepeat [] = Unit
NoRepeat (n ∷ rest) = All (Other n.node_id) rest × NoRepeat rest

pop_node-none : (id : String) (ns : List Node) → pop_node id ns ≡ none → All (Other id) ns
unfolding pop_node
pop_node-none id [] h = tt
pop_node-none id (n ∷ rest) h =
    (ground (arith, eq_iff n.node_id id), pop_node-none id rest (ground arith))

abbrev PopCases : String → Node → List Node → List Node → Type 0
PopCases id n rest others =
    (n.node_id ≡ id) × (others ≡ rest)
    ⊎ (n.node_id ≢ id) × (o : List Node) × (pop_node id rest ≡ some o) × (others ≡ n ∷ o)

pop_node_cases :
    (id : String) (n : Node) (rest others : List Node)
    → pop_node id (n ∷ rest) ≡ some others
    → PopCases id n rest others
unfolding pop_node
pop_node_cases id n rest others h = elim (Bool-cases (n.node_id == id)) [
  | inl e ↦ inl ((eq_iff n.node_id id).0 e, ground arith)
  | inr e ↦ elim (Option-cases (pop_node id rest)) [
    | inl gone ↦ absurd (ground arith)
    | inr (o, found) ↦ inr (ground (arith, eq_iff n.node_id id), o, found, ground arith)
  ]
]

-- The scan takes out one node, the only one of its id where no id repeats.
pop_node-length :
    (id : String) (ns others : List Node)
    → pop_node id ns ≡ some others
    → length ns ≡ suc (length others)
unfolding pop_node
pop_node-length id [] others h = absurd (cc)
pop_node-length id (n ∷ rest) others h = elim (pop_node_cases id n rest others h) [
  | inl (e, p) ↦ rw p refl
  | inr (e, o, found, p) ↦ rw p (omega (arith, pop_node-length id rest o found))
]

pop_node-All :
    (P : Node → Type 0) (id : String) (ns others : List Node)
    → pop_node id ns ≡ some others
    → All P ns
    → All P others
unfolding pop_node
pop_node-All P id [] others h a = absurd (cc)
pop_node-All P id (n ∷ rest) others h a = elim (pop_node_cases id n rest others h) [
  | inl (e, p) ↦ rw p a.1
  | inr (e, o, found, p) ↦ rw p (a.0, pop_node-All P id rest o found a.1)
]

pop_node-NoRepeat :
    (id : String) (ns others : List Node)
    → pop_node id ns ≡ some others
    → NoRepeat ns
    → NoRepeat others × All (Other id) others
unfolding pop_node
pop_node-NoRepeat id [] others h a = absurd (cc)
pop_node-NoRepeat id (n ∷ rest) others h a = elim (pop_node_cases id n rest others h) [
  | inl (e, p) ↦ rw (p, ← e) (a.1, a.0)
  | inr (e, o, found, p) ↦
      let ih = pop_node-NoRepeat id rest o found a.1 in
      rw p ((pop_node-All (Other n.node_id) id rest o found a.0, ih.0), (e, ih.1))
]

NoRepeat-snoc :
    (n : Node) (ns : List Node) → NoRepeat ns → All (Other n.node_id) ns → NoRepeat (ns ++ n ∷ [])
NoRepeat-snoc n [] h a = (tt, tt)
NoRepeat-snoc n (m ∷ ns) h a = (
  All-append (Other m.node_id) ns (n ∷ []) h.0 ((λ e. a.0 (sym e)), tt),
  NoRepeat-snoc n ns h.1 a.1,
)

NoRepeat-drop_one : (ns : List Node) → NoRepeat ns → NoRepeat (drop 1 ns)
NoRepeat-drop_one [] h = tt
NoRepeat-drop_one (n ∷ ns) h = h.1

-- A bucket's nodes: at most `k`, with no id twice, each with the property `P`.
pub record IsBucket (P : Node → Type 0) (ns : List Node) : Type 0 where
  pub bounded : length ns ≤ k
  pub distinct : NoRepeat ns
  pub all : All P ns

module _ (P : Node → Type 0) (ns : List Node) (new : Node) where
  pub add_nodes-IsBucket : IsBucket P ns → P new → IsBucket P (add_nodes ns new)
  unfolding add_nodes
  add_nodes-IsBucket b p = elim (Option-cases (pop_node new.node_id ns)) [
    | inl gone ↦ rw (gone, add_nodes) (absent (pop_node-none new.node_id ns gone))
    | inr (others, found) ↦
        rw (found, add_nodes)
          (record {
            bounded = omega (
              arith,
              b.bounded,
              length-append others (new ∷ []),
              pop_node-length new.node_id ns others found,
            );
            distinct =
                let r = pop_node-NoRepeat new.node_id ns others found b.distinct in
                NoRepeat-snoc new others r.0 r.1;
            all =
                All-append P others (new ∷ []) (pop_node-All P new.node_id ns others found b.all)
                  (p, tt);
          })
  ]
    where
      snoc-IsBucket :
          (front : List Node)
          → length front < k
          → NoRepeat front
          → All (Other new.node_id) front
          → All P front
          → IsBucket P (front ++ new ∷ [])
      snoc-IsBucket front short distinct others all = record {
        bounded = omega (arith, length-append front (new ∷ []));
        distinct = NoRepeat-snoc new front distinct others;
        all = All-append P front (new ∷ []) all (p, tt);
      }

      absent :
          All (Other new.node_id) ns
          → IsBucket P (if ltb (length ns) k then ns ++ new ∷ [] else drop 1 ns ++ new ∷ [])
      absent others = elim (Bool-cases (ltb (length ns) k)) [
        | inl room ↦ rw room (snoc-IsBucket ns (ltb→lt _ _ room) b.distinct others b.all)
        | inr full ↦ rw full (
            snoc-IsBucket (drop 1 ns) (omega (arith, length-drop 1 ns, b.bounded))
              (NoRepeat-drop_one ns b.distinct) (All-drop (Other new.node_id) 1 ns others)
              (All-drop P 1 ns b.all))
      ]

NoRepeat-keep : (p : Node → Bool) (ns : List Node) → NoRepeat ns → NoRepeat (keep p ns)
NoRepeat-keep p [] h = tt
NoRepeat-keep p (n ∷ ns) h = elim (Bool-cases (p n)) [
  | inl e ↦ rw e (All-keep (Other n.node_id) p ns h.0, NoRepeat-keep p ns h.1)
  | inr e ↦ rw e (NoRepeat-keep p ns h.1)
]

pub keep-IsBucket :
    (P : Node → Type 0) (p : Node → Bool) (ns : List Node) → IsBucket P ns → IsBucket P (keep p ns)
keep-IsBucket P p ns b = record {
  bounded = omega (arith, length-keep p ns, b.bounded);
  distinct = NoRepeat-keep p ns b.distinct;
  all = All-keep P p ns b.all;
}

-- Where the nodes of a bucket end up after an insertion. The new node is at the tail. A node of
-- its id gives way to it; else the oldest node does, if the bucket is full; else none does.
pub data Inserted (ns : List Node) (new : Node) : List Node → Type 0 where
  refreshed :
      (others : List Node)
      → pop_node new.node_id ns ≡ some others
      → Inserted ns new (others ++ new ∷ [])
  appended : All (Other new.node_id) ns → length ns < k → Inserted ns new (ns ++ new ∷ [])
  evicted : All (Other new.node_id) ns → k ≤ length ns → Inserted ns new (drop 1 ns ++ new ∷ [])

-- An insertion into a bucket puts the new node at its tail: in place of the node of its id, where
-- there is one, else after the others, of which the oldest leaves if the bucket is full.
pub add_nodes-Inserted : (ns : List Node) (new : Node) → Inserted ns new (add_nodes ns new)
unfolding add_nodes
add_nodes-Inserted ns new = elim (Option-cases (pop_node new.node_id ns)) [
  | inr (others, found) ↦ rw (found, add_nodes) (Inserted.refreshed others found)
  | inl gone ↦
      let others = pop_node-none new.node_id ns gone in
      elim (Bool-cases (ltb (length ns) k)) [
        | inl room ↦ rw (gone, room, add_nodes) (Inserted.appended others (ltb→lt _ _ room))
        | inr full ↦ rw (gone, full, add_nodes) (Inserted.evicted others (ground arith))
      ]
]
