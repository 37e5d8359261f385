-- ===== src/Db/Sync/Spread.antt =====
-- db/sync.py: how far a reading gets: what is sent to whom.
use anp_edge_swarm.Base.{
  ℕ, String, ◌==◌, ◌≡◌, refl, sym, subst, Bool, true, false, not, ◌||◌, List, [], ◌∷◌, keep, All,
  All-append, All-take, All-keep, All-map, Bool-cases, inl, inr, arith,
}
use anp_edge_swarm.Dict.{Dict}
use anp_edge_swarm.Swarm.Distributor.{Peer, address_of}
use anp_edge_swarm.Db.Sync.{
  Reading, Table, Batch, sync_limit, get_unsynced, mark_synced, mark_all, is_sent, sync_with_peer,
  sync_turn,
}

-- Every row of the id is marked as synced.
abbrev pub IsMarked : String → Table → Type 0
IsMarked id rows = All (λ r. (r.synced || not (r.record_id == id)) ≡ true) rows

abbrev Avoids : String → List Reading → Type 0
Avoids id batch = All (λ r. not (r.record_id == id) ≡ true) batch

mark_synced-IsMarked : (id : String) (rows : Table) → IsMarked id (mark_synced id rows)
unfolding mark_synced
mark_synced-IsMarked id [] = tt
mark_synced-IsMarked id (r ∷ rows) = (ground arith, mark_synced-IsMarked id rows)

mark_synced-keeps :
    (id other : String) (rows : Table) → IsMarked id rows → IsMarked id (mark_synced other rows)
unfolding mark_synced
mark_synced-keeps id other [] h = tt
mark_synced-keeps id other (r ∷ rows) h = (ground arith, mark_synced-keeps id other rows h.1)

mark_all-keeps :
    (id : String) (batch : List Reading) (rows : Table)
    → IsMarked id rows
    → IsMarked id (mark_all batch rows)
unfolding mark_all
mark_all-keeps id [] rows h = h
mark_all-keeps id (r ∷ batch) rows h = elim (Bool-cases (r.record_id == "")) [
  | inl e ↦ rw e (mark_all-keeps id batch rows h)
  | inr e ↦ rw e (mark_all-keeps id batch _ (mark_synced-keeps id r.record_id rows h))
]

-- An id that is not empty; every generated one is.
abbrev pub HasId : Reading → Type 0
HasId r = (r.record_id == "") ≡ false

mark_all-IsMarked :
    (batch : List Reading) (rows : Table)
    → All HasId batch
    → All (λ r. IsMarked r.record_id (mark_all batch rows)) batch
unfolding mark_all
mark_all-IsMarked [] rows h = tt
mark_all-IsMarked (r ∷ batch) rows h =
    let marked = mark_synced r.record_id rows in
    let opened : mark_all (r ∷ batch) rows ≡ mark_all batch marked = rw h.0 refl in
    subst (λ t. All (λ q. IsMarked q.record_id t) (r ∷ batch)) (sym opened)
      (
        mark_all-keeps r.record_id batch marked (mark_synced-IsMarked r.record_id rows),
        mark_all-IsMarked batch marked h.1,
      )

mark_synced-HasId : (id : String) (rows : Table) → All HasId rows → All HasId (mark_synced id rows)
unfolding mark_synced
mark_synced-HasId id [] h = tt
mark_synced-HasId id (r ∷ rows) h = (ground (arith, h.0), mark_synced-HasId id rows h.1)

mark_all-HasId :
    (batch : List Reading) (rows : Table) → All HasId rows → All HasId (mark_all batch rows)
unfolding mark_all
mark_all-HasId [] rows h = h
mark_all-HasId (r ∷ batch) rows h = elim (Bool-cases (r.record_id == "")) [
  | inl e ↦ rw e (mark_all-HasId batch rows h)
  | inr e ↦ rw e (mark_all-HasId batch _ (mark_synced-HasId r.record_id rows h))
]

get_unsynced-HasId : (rows : Table) → All HasId rows → All HasId (get_unsynced sync_limit rows)
unfolding get_unsynced
get_unsynced-HasId rows h = All-take _ sync_limit _ (All-keep _ (λ r. not r.synced) rows h)

get_unsynced-Avoids :
    (id : String) (rows : Table) → IsMarked id rows → Avoids id (get_unsynced sync_limit rows)
unfolding get_unsynced
get_unsynced-Avoids id rows h =
    All-take _ sync_limit (keep (λ r. not r.synced) rows) (keep-Avoids rows h)
  where
    keep-Avoids : (rs : Table) → IsMarked id rs → Avoids id (keep (λ r. not r.synced) rs)
    keep-Avoids [] k = tt
    keep-Avoids (r ∷ rs) k = elim (Bool-cases r.synced) [
      | inl e ↦ rw e (keep-Avoids rs k.1)
      | inr e ↦ rw e (ground (arith, k.0, e), keep-Avoids rs k.1)
    ]

-- No batch has a reading of the id.
abbrev AllAvoid : String → List Batch → Type 0
AllAvoid id bs = All (λ (ip, batch). Avoids id batch) bs

-- No reading is in two of the batches.
abbrev pub Disjoint : List Batch → Type 0
Disjoint [] = Unit
Disjoint ((ip, batch) ∷ bs) = All (λ r. AllAvoid r.record_id bs) batch × Disjoint bs

module _ (payload_size : List Reading → ℕ) (max_payload : ℕ) (connects : String → Bool) where
  abbrev sync : String → Table → List Batch × Table
  sync = sync_with_peer payload_size max_payload connects

  abbrev turn : String → Dict Peer → Table → List Batch × Table
  turn = sync_turn payload_size max_payload connects

  sync-keeps :
      (id ip : String) (rows : Table)
      → IsMarked id rows
      → IsMarked id (sync ip rows).1 × AllAvoid id (sync ip rows).0
  unfolding sync_with_peer
  sync-keeps id ip rows h =
      let unsynced = get_unsynced sync_limit rows in
      elim (Bool-cases (is_sent payload_size max_payload connects ip unsynced)) [
        | inl e ↦ rw e (mark_all-keeps id unsynced rows h, (get_unsynced-Avoids id rows h, tt))
        | inr e ↦ rw e (h, tt)
      ]

  sync-HasId : (ip : String) (rows : Table) → All HasId rows → All HasId (sync ip rows).1
  unfolding sync_with_peer
  sync-HasId ip rows h =
      let unsynced = get_unsynced sync_limit rows in
      elim (Bool-cases (is_sent payload_size max_payload connects ip unsynced)) [
        | inl e ↦ rw e (mark_all-HasId unsynced rows h)
        | inr e ↦ rw e h
      ]

  turn-keeps :
      (id own : String) (peers : Dict Peer) (rows : Table)
      → IsMarked id rows
      → AllAvoid id (turn own peers rows).0
  unfolding sync_turn
  turn-keeps id own [] rows h = tt
  turn-keeps id own ((peer_id, info) ∷ rest) rows h =
      let ip = address_of info in
      elim (Bool-cases ((ip == "") || (ip == own))) [
        | inl e ↦ rw e (turn-keeps id own rest rows h)
        | inr e ↦
            let kept = sync-keeps id ip rows h in
            rw e (
              All-append _ (sync ip rows).0 _ kept.1
                (turn-keeps id own rest (sync ip rows).1 kept.0))
      ]

  -- In one turn of the loop over the peers no reading is sent to two peers, whatever connects.
  pub sync_turn-Disjoint :
      (own : String) (peers : Dict Peer) (rows : Table)
      → All HasId rows
      → Disjoint (turn own peers rows).0
  unfolding sync_turn sync_with_peer
  sync_turn-Disjoint own [] rows h = tt
  sync_turn-Disjoint own ((peer_id, info) ∷ rest) rows h =
      let ip = address_of info in
      let unsynced = get_unsynced sync_limit rows in
      elim (Bool-cases ((ip == "") || (ip == own))) [
        | inl e ↦ rw e (sync_turn-Disjoint own rest rows h)
        | inr e ↦ elim (Bool-cases (is_sent payload_size max_payload connects ip unsynced)) [
          | inl f ↦
              rw (e, f)
                (
                  All-map _ _
                      (λ r marked. turn-keeps r.record_id own rest (mark_all unsynced rows) marked)
                      unsynced (mark_all-IsMarked unsynced rows (get_unsynced-HasId rows h)),
                  sync_turn-Disjoint own rest (mark_all unsynced rows)
                      (mark_all-HasId unsynced rows h),
                )
          | inr f ↦ rw (e, f) (sync_turn-Disjoint own rest rows h)
        ]
      ]
