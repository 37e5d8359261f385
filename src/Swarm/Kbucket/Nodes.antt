-- ===== src/Swarm/Kbucket/Nodes.antt =====
-- swarm/kbucket.py: the nodes of a whole `RoutingTable`.
use anp_edge_swarm.Base.{
  ℕ, suc, ◌≤◌, String, ◌≡◌, ◌≢◌, refl, sym, ◌∙◌, some, List, [], ◌∷◌, ◌++◌, arith, length, All,
  All-append, All-map, length-append,
}
use anp_edge_swarm.Swarm.Kbucket.{
  Node, KBucket, RoutingTable, k, bucket_index, bucket_nodes, all_nodes, size, sum_sizes,
}
use anp_edge_swarm.Swarm.Kbucket.Bucket.{Other, NoRepeat}
use anp_edge_swarm.Swarm.Kbucket.Table.{BelongsIn, AreBuckets, IsTable}

-- No id twice in the whole table: nodes of one id have one index, so they share a bucket.
abbrev BelongsAfter : String → ℕ → Node → Type 0
BelongsAfter own i n = (j : ℕ) × (bucket_index own n.node_id ≡ some j) × (i ≤ j)

NoRepeat-append :
    (xs ys : List Node)
    → NoRepeat xs
    → NoRepeat ys
    → All (λ x. All (Other x.node_id) ys) xs
    → NoRepeat (xs ++ ys)
NoRepeat-append [] ys h k a = k
NoRepeat-append (x ∷ xs) ys h k a =
    (All-append (Other x.node_id) xs ys h.0 a.0, NoRepeat-append xs ys h.1 k a.1)

module _ (own : String) where
  bucket_nodes-BelongsAfter :
      (i : ℕ) (bs : List KBucket) → AreBuckets own i bs → All (BelongsAfter own i) (bucket_nodes bs)
  bucket_nodes-BelongsAfter i [] a = tt
  bucket_nodes-BelongsAfter i (b ∷ bs) a =
      All-append (BelongsAfter own i) b.nodes (bucket_nodes bs)
        (All-map (BelongsIn own i) (BelongsAfter own i) (λ n h. (i, h.placed, omega arith)) b.nodes
          a.0.all)
        (All-map (BelongsAfter own (suc i)) (BelongsAfter own i)
          (λ n (j, placed, later). (j, placed, omega arith)) (bucket_nodes bs)
          (bucket_nodes-BelongsAfter (suc i) bs a.1))

  bucket_nodes-NoRepeat :
      (i : ℕ) (bs : List KBucket) → AreBuckets own i bs → NoRepeat (bucket_nodes bs)
  bucket_nodes-NoRepeat i [] a = tt
  bucket_nodes-NoRepeat i (b ∷ bs) a =
      NoRepeat-append b.nodes (bucket_nodes bs) a.0.distinct (bucket_nodes-NoRepeat (suc i) bs a.1)
        (All-map (BelongsIn own i) (λ x. All (Other x.node_id) (bucket_nodes bs))
          (λ x here.
            All-map (BelongsAfter own (suc i)) (Other x.node_id)
              (λ y after same. apart x y here after same) (bucket_nodes bs)
              (bucket_nodes-BelongsAfter (suc i) bs a.1))
          b.nodes a.0.all)
    where
      apart : (x y : Node) → BelongsIn own i x → BelongsAfter own (suc i) y → y.node_id ≢ x.node_id
      apart x y here (j, placed, later) same =
          let e : some j ≡ some i = sym placed ∙ rw same here.placed in absurd (ground arith)

-- A well-formed table lists no id twice.
pub all_nodes-NoRepeat : (t : RoutingTable) → IsTable t → NoRepeat (all_nodes t)
unfolding all_nodes
all_nodes-NoRepeat t w = bucket_nodes-NoRepeat t.own_id 0 t.buckets w.sound

sum_sizes_lem : (bs : List KBucket) → sum_sizes bs ≡ length (bucket_nodes bs)
sum_sizes_lem [] = refl
sum_sizes_lem (b ∷ bs) = omega (arith, sum_sizes_lem bs, length-append b.nodes (bucket_nodes bs))

-- `size` counts the nodes that `all_nodes` lists.
pub size-eq-length : (t : RoutingTable) → size t ≡ length (all_nodes t)
unfolding size all_nodes
size-eq-length t = sum_sizes_lem t.buckets
