-- ===== src/Db/Sync.antt =====
-- db/sync.py: `DBSync`, with the table of sensor readings of db/store.py and db/query.py that it
-- works on. A row is a reading; SQLite keeps the rows in the order of their insertion. The other
-- columns of a row (unit, status, number and text of the value) are read off `raw_json`.
pub mod Spread
pub mod Receipt
use anp_edge_swarm.Base.{
  ℕ, ◌+◌, ltb, String, ◌==◌, Bool, true, false, not, ◌&&◌, ◌||◌, Option, none, some, List, [], ◌∷◌,
  ◌++◌, map, if◌then◌else◌, any, keep, take,
}
use anp_edge_swarm.Base.Json.{Json, Fields}
use anp_edge_swarm.Dict
use anp_edge_swarm.Dict.{Dict, or_default}
use anp_edge_swarm.Swarm.Distributor.{Peer, address_of}

abbrev pub sync_limit : ℕ
sync_limit = 20

pub record Reading : Type 0 where
  pub record_id : String
  pub timestamp : ℕ
  pub node_id : String
  pub sensor_type : String
  pub raw_json : Json
  pub synced : Bool

abbrev pub Table : Type 0
Table = List Reading

-- `save_sensor_reading`: INSERT OR IGNORE, by the unique record_id, which `fresh` is.
unfoldable pub save_sensor_reading :
    (now : ℕ) (fresh : String) → String → Json → String → Table → Table
save_sensor_reading now fresh sensor_type raw_data node_id rows =
    if any (λ r. r.record_id == fresh) rows
    then rows
    else rows
      ++ record {
        record_id = fresh;
        timestamp = now;
        node_id = node_id;
        sensor_type = sensor_type;
        raw_json = raw_data;
        synced = false;
      }
        ∷ []

-- `get_unsynced("sensor_readings", limit)`
unfoldable pub get_unsynced : ℕ → Table → List Reading
get_unsynced limit rows = take limit (keep (λ r. not r.synced) rows)

abbrev pub with_mark : String → Reading → Reading
with_mark record_id r = if r.record_id == record_id then record r { synced = true } else r

-- `mark_synced("sensor_readings", record_id)`
unfoldable pub mark_synced : String → Table → Table
mark_synced record_id rows = map (with_mark record_id) rows

unfoldable pub mark_all : List Reading → Table → Table
unfolding mark_synced
mark_all [] rows = rows
mark_all (r ∷ rest) rows =
    mark_all rest (if r.record_id == "" then rows else mark_synced r.record_id rows)

-- What goes to a peer, by its address.
abbrev pub Batch : Type 0
Batch = String × List Reading

module _ (payload_size : List Reading → ℕ) (max_payload : ℕ) (connects : String → Bool) where
  -- Whether the batch is sent: there is one, it is not too large, and the peer takes it.
  unfoldable pub is_sent : String → List Reading → Bool
  is_sent ip [] = false
  is_sent ip (r ∷ rest) = not (ltb max_payload (payload_size (r ∷ rest))) && connects ip

  -- `_sync_with_peer`
  unfoldable pub sync_with_peer : String → Table → List Batch × Table
  unfolding is_sent get_unsynced mark_all
  sync_with_peer ip rows =
      let unsynced = get_unsynced sync_limit rows in
      if is_sent ip unsynced then ((ip, unsynced) ∷ [], mark_all unsynced rows) else ([], rows)

  -- One turn of `_sync_loop`, at a node whose own address is `own`.
  unfoldable pub sync_turn : (own : String) → Dict Peer → Table → List Batch × Table
  unfolding sync_with_peer
  sync_turn own [] rows = ([], rows)
  sync_turn own ((peer_id, info) ∷ rest) rows =
      let ip = address_of info in
      let (sent, rows') =
        if (ip == "") || (ip == own) then ([], rows) else sync_with_peer ip rows in
      let (later, rows'') = sync_turn own rest rows' in (sent ++ later, rows'')

-- `raw_json` of a received record: a text, with what `json.loads` makes of it, or no text.
pub data RawJson : Type 0 where
  text : Option Json → RawJson
  other : RawJson

pub data Received : Type 0 where
  no_dict : Received
  row : (sensor_type node_id : Option String) (raw : RawJson) → Received

pub record Payload : Type 0 where
  pub type_of : String
  pub table : Option String
  pub records : List Received

-- One turn of the loop over the records; a text that is no JSON raises, and the record is left out.
unfoldable pub save_received : (now : ℕ) (fresh : String) → Received → Table → Table
unfolding save_sensor_reading
save_received now fresh Received.no_dict rows = rows
save_received now fresh (Received.row sensor_type node_id (RawJson.text none)) rows = rows
save_received now fresh (Received.row sensor_type node_id (RawJson.text (some raw))) rows =
    save_sensor_reading now fresh (or_default "unknown" sensor_type) raw
      (or_default "unknown" node_id) rows
save_received now fresh (Received.row sensor_type node_id RawJson.other) rows =
    save_sensor_reading now fresh (or_default "unknown" sensor_type) (Json.obj Fields.end)
      (or_default "unknown" node_id) rows

-- `fresh n` is the id that the n-th call of `_record_id` gives.
unfoldable pub save_all_received :
    (now : ℕ) (fresh : ℕ → String) → ℕ → List Received → Table → Table
unfolding save_received
save_all_received now fresh n [] rows = rows
save_all_received now fresh n (r ∷ rest) rows =
    save_all_received now fresh (n + 1) rest (save_received now (fresh n) r rows)

-- `_handle_sync`, from the parsed payload on.
unfoldable pub handle_sync : (now : ℕ) (fresh : ℕ → String) → Payload → Table → Table
unfolding save_all_received
handle_sync now fresh p rows =
    if p.type_of == "DB_SYNC"
    then (if or_default "sensor_readings" p.table == "sensor_readings"
        then save_all_received now fresh 0 p.records rows
        else rows)
    else rows
