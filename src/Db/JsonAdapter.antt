-- ===== src/Db/JsonAdapter.antt =====
-- db/adapters/json_adapter.py: `JSONAdapter`. A table is the list of its rows, and a table whose
-- file is missing has no row. Timestamps are texts, as `save` writes them, in
-- the order of their characters.
pub mod RoundTrip
use anp_edge_swarm.Base.{
  ℕ, String, ◌==◌, Bool, true, false, not, ◌&&◌, Option, none, some, List, [], ◌∷◌, ◌++◌, map,
  if◌then◌else◌, length, keep, take,
}
use Prim.Native.Nat.{Ordering}
use Prim.Native.String.{compare}
use anp_edge_swarm.Base.Sort.{sort}
use anp_edge_swarm.Base.Json.{Json, json_eq}
use anp_edge_swarm.Dict
use anp_edge_swarm.Dict.{Dict, or_default}

abbrev pub Row : Type 0
Row = Dict Json

abbrev pub Tables : Type 0
Tables = Dict (List Row)

-- `_load`
unfoldable pub load : String → Tables → List Row
load table t = or_default [] (Dict.get table t)

-- `r.get(k) == v`, where a missing key is `None`
unfoldable pub field_is : String → Json → Row → Bool
field_is k v r = json_eq (or_default Json.null (Dict.get k r)) v

unfoldable pub set_default : String → Json → Row → Row
set_default k v r = if Dict.has k r then r else Dict.put k v r

-- The record as it is written: with an id (`fresh` is a new one) and a timestamp.
unfoldable pub completed : (now fresh : String) → Row → Json × Row
unfolding set_default
completed now fresh record_in =
    let record_id = or_default (Json.str fresh) (Dict.get "record_id" record_in) in
    (record_id, set_default "timestamp" (Json.str now) (Dict.put "record_id" record_id record_in))

unfoldable pub save : (now fresh table : String) → Row → Tables → Json × Tables
unfolding completed load field_is
save now fresh table record_in t =
    let (record_id, row) = completed now fresh record_in in
    let others = keep (λ r. not (field_is "record_id" record_id r)) (load table t) in
    (record_id, Dict.put table (others ++ row ∷ []) t)

unfoldable pub apply_filters : Dict Json → List Row → List Row
unfolding field_is
apply_filters [] rows = rows
apply_filters ((k, v) ∷ rest) rows = apply_filters rest (keep (field_is k v) rows)

abbrev text_of : Option Json → String
text_of (some (Json.str s)) = s
text_of _ = ""

abbrev pub timestamp_of : Row → String
timestamp_of r = text_of (Dict.get "timestamp" r)

abbrev is_at_most : Ordering → Bool
is_at_most Ordering.lt = true
is_at_most Ordering.eq = true
is_at_most Ordering.gt = false

-- `a` may stand before `b`: the later timestamp comes first.
abbrev pub not_earlier : Row → Row → Bool
not_earlier a b = is_at_most (compare (timestamp_of b) (timestamp_of a))

unfoldable pub fetch : (table : String) → Dict Json → ℕ → Tables → List Row
unfolding load apply_filters
fetch table filters limit t = take limit (sort not_earlier (apply_filters filters (load table t)))

-- `r.update(data)`
unfoldable pub update_row : Dict Json → Row → Row
update_row [] r = r
update_row ((k, v) ∷ rest) r = update_row rest (Dict.put k v r)

unfoldable pub update : String → Json → Dict Json → Tables → Tables
unfolding load field_is update_row
update table record_id changes t =
    Dict.put table
      (map (λ r. if field_is "record_id" record_id r then update_row changes r else r)
        (load table t))
      t

unfoldable pub delete : String → Json → Tables → Tables
unfolding load field_is
delete table record_id t =
    Dict.put table (keep (λ r. not (field_is "record_id" record_id r)) (load table t)) t

unfoldable pub count : String → Tables → ℕ
unfolding load
count table t = length (load table t)
