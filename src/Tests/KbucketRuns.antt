-- ===== src/Tests/KbucketRuns.antt =====
-- swarm/kbucket.py: a table with one node, at the distance 1 of its owner.
use anp_edge_swarm.Base.{◌≡◌, refl, List, [], ◌∷◌, some, arith}
use anp_edge_swarm.Base.Sort.{sort}
use anp_edge_swarm.Swarm.Kbucket.{
  Node, RoutingTable, new_table, add_node, all_nodes, find_closest, xor_distance, parse_hex,
  hex_value, hex_digit, drop_blanks, drop_char, drop_prefix, read_char, closest, distances,
  distance_key,
}
use anp_edge_swarm.Swarm.Kbucket.Distance.{IsId}
use anp_edge_swarm.Swarm.Kbucket.Table.{
  IsTable, new_table-IsTable, add_node-IsTable, add_node_total,
}
use anp_edge_swarm.Swarm.Kbucket.Closest.{IsNearest, find_closest-IsNearest}

abbrev one_node : Node
one_node = record { node_id = "1"; ip = "10.0.0.1"; port = 6881; last_seen = 5 }

zero-IsId : IsId "0"
unfolding parse_hex hex_value hex_digit drop_blanks drop_char drop_prefix read_char
zero-IsId = record { value = 0; reads = refl; bound = omega arith }

one-IsId : IsId "1"
unfolding parse_hex hex_value hex_digit drop_blanks drop_char drop_prefix read_char
one-IsId = record { value = 1; reads = refl; bound = omega arith }

inserted : (t' : RoutingTable) × (add_node 5 "1" "10.0.0.1" 6881 (new_table "0") ≡ some t')
unfolding new_table
inserted =
    add_node_total 5 "1" "10.0.0.1" 6881 (new_table "0") (new_table-IsTable "0") zero-IsId one-IsId

abbrev table : RoutingTable
table = inserted.0

added : add_node 5 "1" "10.0.0.1" 6881 (new_table "0") ≡ some table
added = inserted.1

add_node-IsTable_example : IsTable table
add_node-IsTable_example =
    add_node-IsTable 5 "1" "10.0.0.1" 6881 (new_table "0") table (new_table-IsTable "0") added

add_node_total_example :
    (t' : RoutingTable) × (add_node 5 "1" "10.0.0.1" 6881 (new_table "0") ≡ some t')
unfolding new_table
add_node_total_example =
    add_node_total 5 "1" "10.0.0.1" 6881 (new_table "0") (new_table-IsTable "0") zero-IsId one-IsId

abbrev far_node : Node
far_node = record { node_id = "6"; ip = "10.0.0.6"; port = 6881; last_seen = 7 }

abbrev two_nodes : RoutingTable
two_nodes = record {
  own_id = "0";
  buckets = record { range_min = 0; range_max = 1; nodes = one_node ∷ far_node ∷ [] } ∷ [];
}

found : find_closest "7" 1 two_nodes ≡ some (far_node ∷ [])
unfolding find_closest all_nodes closest distances distance_key xor_distance parse_hex hex_value
    hex_digit sort
found = refl

find_closest-IsNearest_example :
    (rest : List Node) × IsNearest "7" 1 (all_nodes two_nodes) (far_node ∷ []) rest
find_closest-IsNearest_example = find_closest-IsNearest "7" 1 two_nodes (far_node ∷ []) found
