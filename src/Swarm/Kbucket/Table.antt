-- ===== src/Swarm/Kbucket/Table.antt =====
-- swarm/kbucket.py: the invariant of `RoutingTable`, and that its operations keep it.
use anp_edge_swarm.Base.{
  ℕ, zero, suc, ◌+◌, ◌<◌, String, ◌≡◌, ◌≢◌, refl, ◌∙◌, some, List, [], ◌∷◌, arith, Bool-cases,
  Option-cases, inl, inr, length, ◌==◌, eq_iff, leb, ◌-◌,
}
use anp_edge_swarm.Swarm.Kbucket.{
  Node, KBucket, RoutingTable, add, evict_stale_bucket, bucket_index, modify_at, add_node,
  evict_buckets, evict_stale, empty_buckets, new_table,
}
use anp_edge_swarm.Swarm.Kbucket.Bucket.{IsBucket, add_nodes-IsBucket, keep-IsBucket}
use anp_edge_swarm.Swarm.Kbucket.Distance.{IsId, bucket_index_total}

-- A node stands in the bucket of its index, and is not the owner of the table.
pub record BelongsIn (own : String) (i : ℕ) (n : Node) : Type 0 where
  pub foreign : n.node_id ≢ own
  pub placed : bucket_index own n.node_id ≡ some i

abbrev pub AreBuckets : String → ℕ → List KBucket → Type 0
AreBuckets own i [] = Unit
AreBuckets own i (b ∷ bs) = IsBucket (BelongsIn own i) b.nodes × AreBuckets own (suc i) bs

pub record IsTable (t : RoutingTable) : Type 0 where
  pub count : length t.buckets ≡ 160
  pub sound : AreBuckets t.own_id 0 t.buckets

module _ (own : String) where
  modify_at-AreBuckets :
      (f : KBucket → KBucket) (m i j : ℕ) (bs bs' : List KBucket)
      → m ≡ i + j
      → ((b : KBucket)
          → IsBucket (BelongsIn own m) b.nodes
          → IsBucket (BelongsIn own m) (f b).nodes)
      → modify_at j f bs ≡ some bs'
      → AreBuckets own i bs
      → AreBuckets own i bs'
  unfolding modify_at
  modify_at-AreBuckets f m i j [] bs' e step h a = absurd (cc)
  modify_at-AreBuckets f m i zero (b ∷ bs) bs' e step h a =
      let same : i ≡ m = omega arith in
      let p : f b ∷ bs ≡ bs' = ground arith in
      rw (← p) (rw (← same) at (step b (rw same at a.0)), a.1)
  modify_at-AreBuckets f m i (suc j) (b ∷ bs) bs' e step h a =
      elim (Option-cases (modify_at j f bs)) [
        | inl gone ↦ absurd (ground arith)
        | inr (cs, found) ↦
            let p : b ∷ cs ≡ bs' = ground arith in
            rw (← p) (a.0, modify_at-AreBuckets f m (suc i) j bs cs (omega arith) step found a.1)
      ]

  modify_at-length :
      (f : KBucket → KBucket) (j : ℕ) (bs bs' : List KBucket)
      → modify_at j f bs ≡ some bs'
      → length bs' ≡ length bs
  unfolding modify_at
  modify_at-length f j [] bs' h = absurd (cc)
  modify_at-length f zero (b ∷ bs) bs' h = let p : f b ∷ bs ≡ bs' = ground arith in rw (← p) refl
  modify_at-length f (suc j) (b ∷ bs) bs' h = elim (Option-cases (modify_at j f bs)) [
    | inl gone ↦ absurd (ground arith)
    | inr (cs, found) ↦
        let p : b ∷ cs ≡ bs' = ground arith in
        rw (← p) (omega (arith, modify_at-length f j bs cs found))
  ]

  modify_at_total :
      (f : KBucket → KBucket) (j : ℕ) (bs : List KBucket)
      → j < length bs
      → (bs' : List KBucket) × (modify_at j f bs ≡ some bs')
  unfolding modify_at
  modify_at_total f j [] h = absurd (omega arith)
  modify_at_total f zero (b ∷ bs) h = (f b ∷ bs, refl)
  modify_at_total f (suc j) (b ∷ bs) h =
      let (cs, e) = modify_at_total f j bs (omega arith) in (b ∷ cs, rw e)

  evict_buckets-AreBuckets :
      (now max_age i : ℕ) (bs : List KBucket)
      → AreBuckets own i bs
      → AreBuckets own i (evict_buckets now max_age bs)
  unfolding evict_stale_bucket
  evict_buckets-AreBuckets now max_age i [] a = tt
  evict_buckets-AreBuckets now max_age i (b ∷ bs) a = (
    keep-IsBucket (BelongsIn own i) (λ n. leb (now - n.last_seen) max_age) b.nodes a.0,
    evict_buckets-AreBuckets now max_age (suc i) bs a.1,
  )

  empty_buckets-AreBuckets : (i n : ℕ) → AreBuckets own i (empty_buckets i n)
  unfolding empty_buckets
  empty_buckets-AreBuckets i zero = tt
  empty_buckets-AreBuckets i (suc n) = (
    record { bounded = omega arith; distinct = tt; all = tt },
    empty_buckets-AreBuckets (suc i) n,
  )

add-IsBucket :
    (own : String) (i now : ℕ) (node_id ip : String) (port : ℕ) (b : KBucket)
    → IsBucket (BelongsIn own i) b.nodes
    → node_id ≢ own
    → bucket_index own node_id ≡ some i
    → IsBucket (BelongsIn own i) (add now node_id ip port b).nodes
unfolding add
add-IsBucket own i now node_id ip port b w foreign placed =
    add_nodes-IsBucket (BelongsIn own i) b.nodes _ w (record { foreign = foreign; placed = placed })

length-evict_buckets :
    (now max_age : ℕ) (bs : List KBucket) → length (evict_buckets now max_age bs) ≡ length bs
length-evict_buckets now max_age [] = refl
length-evict_buckets now max_age (b ∷ bs) = omega (arith, length-evict_buckets now max_age bs)

-- A new table is well formed.
pub new_table-IsTable : (own : String) → IsTable (new_table own)
unfolding new_table empty_buckets
new_table-IsTable own = record { count = refl; sound = empty_buckets-AreBuckets own 0 160 }

-- An insertion that returns keeps a table well formed: 160 buckets of at most 20 nodes, no id
-- twice in one, each node in the bucket of its index, the owner in none.
pub add_node-IsTable :
    (now : ℕ) (node_id ip : String) (port : ℕ) (t t' : RoutingTable)
    → IsTable t
    → add_node now node_id ip port t ≡ some t'
    → IsTable t'
unfolding add_node
add_node-IsTable now node_id ip port t t' w h = elim (Bool-cases (node_id == t.own_id)) [
  | inl own ↦ let same : t ≡ t' = ground arith in rw (← same) w
  | inr foreign ↦ elim (Option-cases (bucket_index t.own_id node_id)) [
    | inl gone ↦ absurd (ground arith)
    | inr (i, found) ↦ elim (Option-cases (modify_at i (add now node_id ip port) t.buckets)) [
      | inl gone ↦ absurd (ground arith)
      | inr (bs, done) ↦
          let same : record t { buckets = bs } ≡ t' = ground arith in
          rw (← same) (record {
            count = modify_at-length t.own_id _ i t.buckets bs done ∙ w.count;
            sound =
                modify_at-AreBuckets t.own_id _ i 0 i t.buckets bs (omega arith)
                  (λ b h.
                    add-IsBucket t.own_id i now node_id ip port b h
                      (ground (arith, eq_iff node_id t.own_id)) found)
                  done w.sound;
          })
    ]
  ]
]

-- The table keeps its owner.
pub add_node-own_id :
    (now : ℕ) (node_id ip : String) (port : ℕ) (t t' : RoutingTable)
    → add_node now node_id ip port t ≡ some t'
    → t'.own_id ≡ t.own_id
unfolding add_node
add_node-own_id now node_id ip port t t' h = elim (Bool-cases (node_id == t.own_id)) [
  | inl own ↦ ground arith
  | inr foreign ↦ elim (Option-cases (bucket_index t.own_id node_id)) [
    | inl gone ↦ absurd (ground arith)
    | inr (i, found) ↦ elim (Option-cases (modify_at i (add now node_id ip port) t.buckets)) [
      | inl gone ↦ absurd (ground arith)
      | inr (bs, done) ↦ ground arith
    ]
  ]
]

-- Stale nodes may be taken out of a well-formed table.
pub evict_stale-IsTable :
    (now max_age : ℕ) (t : RoutingTable) → IsTable t → IsTable (evict_stale now max_age t)
unfolding evict_stale
evict_stale-IsTable now max_age t w = record {
  count = length-evict_buckets now max_age t.buckets ∙ w.count;
  sound = evict_buckets-AreBuckets t.own_id now max_age 0 t.buckets w.sound;
}

-- In a well-formed table the insertion of a 160-bit id returns: neither exception is raised.
pub add_node_total :
    (now : ℕ) (node_id ip : String) (port : ℕ) (t : RoutingTable)
    → IsTable t
    → IsId t.own_id
    → IsId node_id
    → (t' : RoutingTable) × (add_node now node_id ip port t ≡ some t')
unfolding add_node
add_node_total now node_id ip port t w p q = elim (Bool-cases (node_id == t.own_id)) [
  | inl own ↦ (t, rw own)
  | inr foreign ↦
      let (i, found, small) = bucket_index_total t.own_id node_id p q in
      let (bs, done) =
        modify_at_total t.own_id (add now node_id ip port) i t.buckets (rw w.count small) in
      (record t { buckets = bs }, rw (foreign, found, done, add_node))
]
