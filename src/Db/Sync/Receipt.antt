-- ===== src/Db/Sync/Receipt.antt =====
-- db/sync.py: what the receiver of a payload makes of it.
use anp_edge_swarm.Base.{
  ℕ, ◌+◌, String, ◌==◌, ◌≡◌, ◌∙◌, refl, sym, ap, false, none, some, List, [], ◌∷◌, ◌++◌, any,
  length, length-append, ◌≤◌, All, All-append, Bool-cases, inl, inr, arith,
}
use mathlib.Core.List.{append-nil, append_assoc}
use anp_edge_swarm.Base.Json.{Json}
use anp_edge_swarm.Dict.{or_default}
use anp_edge_swarm.Db.Sync.{
  Table, Received, RawJson, save_sensor_reading, save_received, save_all_received, Payload,
  handle_sync,
}

-- `after` is `before` with at most `n` new rows at its end, each of them not synced.
pub record IsReceived (n : ℕ) (before after : Table) : Type 0 where
  pub new : Table
  pub kept : after ≡ before ++ new
  pub bounded : length new ≤ n
  pub unsynced : All (λ r. r.synced ≡ false) new

nothing_new : (n : ℕ) (rows : Table) → IsReceived n rows rows
nothing_new n rows = record {
  new = [];
  kept = sym (append-nil rows);
  bounded = omega arith;
  unsynced = tt;
}

save-IsReceived :
    (now : ℕ) (fresh sensor_type : String) (raw : Json) (node_id : String) (rows : Table)
    → IsReceived 1 rows (save_sensor_reading now fresh sensor_type raw node_id rows)
unfolding save_sensor_reading
save-IsReceived now fresh sensor_type raw node_id rows =
    elim (Bool-cases (any (λ r. r.record_id == fresh) rows)) [
      | inl e ↦ rw e (nothing_new 1 rows)
      | inr e ↦ rw e (record { new = _; kept = refl; bounded = omega arith; unsynced = (refl, tt) })
    ]

received-IsReceived :
    (now : ℕ) (fresh : String) (r : Received) (rows : Table)
    → IsReceived 1 rows (save_received now fresh r rows)
unfolding save_received
received-IsReceived now fresh Received.no_dict rows = nothing_new 1 rows
received-IsReceived now fresh (Received.row s n (RawJson.text none)) rows = nothing_new 1 rows
received-IsReceived now fresh (Received.row s n (RawJson.text (some raw))) rows =
    save-IsReceived now fresh _ _ _ rows
received-IsReceived now fresh (Received.row s n RawJson.other) rows =
    save-IsReceived now fresh _ _ _ rows

all_received-IsReceived :
    (now : ℕ) (fresh : ℕ → String) (n : ℕ) (rs : List Received) (rows : Table)
    → IsReceived (length rs) rows (save_all_received now fresh n rs rows)
unfolding save_all_received
all_received-IsReceived now fresh n [] rows = nothing_new 0 rows
all_received-IsReceived now fresh n (r ∷ rs) rows =
    let first = received-IsReceived now (fresh n) r rows in
    let later = all_received-IsReceived now fresh (n + 1) rs (save_received now (fresh n) r rows) in
    record {
      new = first.new ++ later.new;
      kept =
          later.kept ∙ ap (λ t. t ++ later.new) first.kept ∙ append_assoc rows first.new later.new;
      bounded = omega (arith, length-append first.new later.new, first.bounded, later.bounded);
      unsynced = All-append _ first.new later.new first.unsynced later.unsynced;
    }

-- A payload leaves the receiver's rows as they were, in place, and adds at most one row for each
-- record. Each new row is not synced, so that the receiver sends it on.
pub handle_sync-IsReceived :
    (now : ℕ) (fresh : ℕ → String) (p : Payload) (rows : Table)
    → IsReceived (length p.records) rows (handle_sync now fresh p rows)
unfolding handle_sync
handle_sync-IsReceived now fresh p rows = elim (Bool-cases (p.type_of == "DB_SYNC")) [
  | inl e ↦ elim (Bool-cases (or_default "sensor_readings" p.table == "sensor_readings")) [
    | inl f ↦ rw (e, f) (all_received-IsReceived now fresh 0 p.records rows)
    | inr f ↦ rw (e, f) (nothing_new (length p.records) rows)
  ]
  | inr e ↦ rw e (nothing_new (length p.records) rows)
]
