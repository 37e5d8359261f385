-- ===== src/Db/Agent.antt =====
-- db/db_agent.py: `DBAgent` over any adapter with the interface of db/adapters/base.py. The adapter
-- is a record of operations on its own state; the time, the ids that `uuid4` gives and what a peer
-- accepts are arguments. Python's `str` of a value that is no text is the argument `shown`.
pub mod Interface
pub mod Incoming
use anp_edge_swarm.Base.{
  ℕ, zero, suc, ◌+◌, ltb, String, ◌==◌, Bool, true, false, not, ◌&&◌, ◌||◌, Option, none, some,
  List, [], ◌∷◌, ◌++◌, map, if◌then◌else◌,
}
use anp_edge_swarm.Base.Json.{Json, Items, Fields, truthy, get_field, lookup_field}
use anp_edge_swarm.Dict
use anp_edge_swarm.Dict.{Dict, or_default}
use anp_edge_swarm.Db.JsonAdapter.{Row, set_default}
use anp_edge_swarm.Swarm.Distributor.{Peer, address_of}

-- `BaseDBAdapter`, on the tables `T`.
pub record Adapter (T : Type 0) : Type 0 where
  pub save : (now fresh table : String) → Row → T → Json × T
  pub fetch : (table : String) → Dict Json → ℕ → T → List Row
  pub update : (table : String) → Json → Dict Json → T → T
  pub delete : (table : String) → Json → T → T
  pub count : (table : String) → T → ℕ

abbrev pub readings : String
readings = "sensor_readings"

abbrev pub text_of : (shown : Json → String) → Json → String
text_of shown (Json.str s) = s
text_of shown v = shown v

abbrev pub number_or_null : Json → Json
number_or_null (Json.num n) = Json.num n
number_or_null (Json.bool b) = Json.bool b
number_or_null _ = Json.null

abbrev pub text_or_empty : Json → Json
text_or_empty (Json.str s) = Json.str s
text_or_empty _ = Json.str "{}"

-- `s[:n]`, the first `n` characters.
abbrev pub cut : ℕ → String → String
cut zero s = String.[]
cut (suc n) String.[] = String.[]
cut (suc n) (String.◌∷◌ c s) = String.◌∷◌ c (cut n s)

-- `_normalize_record`
unfoldable pub normalize_record : (shown : Json → String) (now fresh : String) → Fields → Row
unfolding lookup_field
normalize_record shown now fresh r =
    let text : String → String → String =
      λ key missing. text_of shown (or_default (Json.str missing) (lookup_field key r)) in
    let value_text = or_default Json.null (lookup_field "value_text" r) in
    ("record_id", Json.str (text "record_id" fresh))
    ∷ ("timestamp", Json.str (text "timestamp" now))
    ∷ ("node_id", Json.str (cut 64 (text "node_id" "unknown")))
    ∷ ("sensor_type", Json.str (cut 32 (text "sensor_type" "unknown")))
    ∷ ("value_num", number_or_null (or_default Json.null (lookup_field "value_num" r)))
    ∷ (
      "value_text",
      if truthy value_text then Json.str (cut 256 (text_of shown value_text)) else Json.null,
    )
    ∷ ("raw_json", text_or_empty (or_default Json.null (lookup_field "raw_json" r)))
    ∷ ("synced", Json.num 1)
    ∷ []

abbrev is_str : String → Json → Bool
is_str t (Json.str s) = s == t
is_str t _ = false

-- `a or b`
abbrev pub or_else : Option Json → Option Json → Option Json
or_else (some a) b = if truthy a then some a else b
or_else none b = b

abbrev pub value_or_null : Option Json → Json
value_or_null v = or_default Json.null v

module _ {T : Type 0} (A : Adapter T) (node_id : String) where
  unfoldable pub save : (now fresh table : String) → Row → T → Json × T
  unfolding set_default
  save now fresh table record_in t =
      A.save now fresh table (set_default "node_id" (Json.str node_id) record_in) t

  -- `dumped` is `json.dumps(raw_data)`.
  unfoldable pub save_sensor_reading :
      (now fresh sensor_type dumped : String) → (raw_data : Dict Json) → T → Json × T
  unfolding save
  save_sensor_reading now fresh sensor_type dumped raw_data t =
      save now fresh readings
        (("sensor_type", Json.str sensor_type)
          ∷ (
            "value_num",
            value_or_null (
                or_else (or_else (Dict.get "celsius" raw_data) (Dict.get "count" raw_data))
                  (Dict.get "qty" raw_data)),
          )
          ∷ (
            "value_text",
            value_or_null (or_else (Dict.get "item" raw_data) (Dict.get "status" raw_data)),
          )
          ∷ ("raw_json", Json.str dumped)
          ∷ ("synced", Json.num 0)
          ∷ [])
        t

  unfoldable pub save_work_order : (now fresh other dumped : String) → Dict Json → T → Json × T
  unfolding save
  save_work_order now fresh other dumped wo t =
      save now other "work_orders"
        (("record_id", or_default (Json.str fresh) (Dict.get "work_order_id" wo))
          ∷ ("priority", or_default (Json.str "LOW") (Dict.get "priority" wo))
          ∷ ("status", Json.str "OPEN")
          ∷ ("description", or_default (Json.str "") (Dict.get "description" wo))
          ∷ ("raw_json", Json.str dumped)
          ∷ ("synced", Json.num 0)
          ∷ [])
        t

  unfoldable pub save_prediction : (now fresh dumped : String) → Dict Json → T → Json × T
  unfolding save
  save_prediction now fresh dumped result t =
      save now fresh "predictions"
        (("status", or_default (Json.str "OK") (Dict.get "status" result))
          ∷ ("urgency", or_default (Json.str "LOW") (Dict.get "action_urgency" result))
          ∷ ("action", or_default (Json.str "") (Dict.get "recommended_action" result))
          ∷ ("raw_json", Json.str dumped)
          ∷ ("synced", Json.num 0)
          ∷ [])
        t

  unfoldable pub get_recent_readings : Option String → ℕ → T → List Row
  get_recent_readings none limit t = A.fetch readings [] limit t
  get_recent_readings (some sensor_type) limit t =
      if sensor_type == ""
      then A.fetch readings [] limit t
      else A.fetch readings (("sensor_type", Json.str sensor_type) ∷ []) limit t

  -- The loop over the records that were sent.
  unfoldable pub mark_sent : List Row → T → T
  mark_sent [] t = t
  mark_sent (r ∷ rest) t =
      let rid = value_or_null (Dict.get "record_id" r) in
      mark_sent rest
        (if truthy rid then A.update readings rid (("synced", Json.num 1) ∷ []) t else t)

  -- `_push_to_peer`, with the batch that was sent.
  unfoldable pub push_to_peer :
      (payload_size : List Row → ℕ) (max_payload : ℕ) (connects : String → Bool)
      → String
      → T
      → List (String × List Row) × T
  unfolding mark_sent
  push_to_peer payload_size max_payload connects ip t =
      let unsynced = A.fetch readings (("synced", Json.num 0) ∷ []) 20 t in push_batch unsynced
    where
      push_batch : List Row → List (String × List Row) × T
      push_batch [] = ([], t)
      push_batch (r ∷ rest) =
          if ltb max_payload (payload_size (r ∷ rest)) || not (connects ip)
          then ([], t)
          else ((ip, r ∷ rest) ∷ [], mark_sent (r ∷ rest) t)

  -- One turn of `_sync_loop`.
  unfoldable pub push_turn :
      (payload_size : List Row → ℕ) (max_payload : ℕ) (connects : String → Bool)
      → (own : String) → Dict Peer
      → T
      → List (String × List Row) × T
  unfolding push_to_peer
  push_turn payload_size max_payload connects own [] t = ([], t)
  push_turn payload_size max_payload connects own ((peer_id, info) ∷ rest) t =
      let ip = address_of info in
      let (sent, t') =
        if (ip == "") || (ip == own)
        then ([], t)
        else push_to_peer payload_size max_payload connects ip t in
      let (later, t'') = push_turn payload_size max_payload connects own rest t' in
      (sent ++ later, t'')

  module _ (shown : Json → String) (now : String) (fresh : ℕ → String) where
    -- The loop over the received records; `fresh n` is the id for the n-th of them. An adapter
    -- that raises keeps its state, and the loop goes on.
    unfoldable pub save_received : ℕ → Items → T → T
    unfolding save normalize_record
    save_received n Items.nil t = t
    save_received n (Items.cons (Json.obj r) rest) t =
        save_received (n + 1) rest
          (save now (fresh n) readings (normalize_record shown now (fresh n) r) t).1
    save_received n (Items.cons _ rest) t = save_received (n + 1) rest t

    abbrev received_items : Json → Items
    received_items (Json.arr items) = items
    received_items _ = Items.nil

    -- What of a payload is saved: the records of a "DB_SYNC" for the table of readings.
    unfoldable pub accepted_items : Json → Items
    unfolding get_field
    accepted_items payload =
        if is_str "DB_SYNC" (value_or_null (get_field "type" payload))
          && is_str readings (value_or_null (get_field "table" payload))
        then received_items (value_or_null (get_field "records" payload))
        else Items.nil

    -- `_handle_incoming`. A payload that is no JSON (`none`) or no object raises, and the outer
    -- `except` ends the call.
    unfoldable pub handle_incoming : (max_payload msg_len : ℕ) → Option Json → T → T
    unfolding save_received accepted_items
    handle_incoming max_payload msg_len none t = t
    handle_incoming max_payload msg_len (some payload) t =
        if ltb max_payload msg_len then t else save_received 0 (accepted_items payload) t
