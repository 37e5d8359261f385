-- ===== src/Tests/KademliaRuns.antt =====
-- swarm/kademlia_node.py: a node that is sent a STORE, a FIND_VALUE, a FIND_NODE and a bad id.
use anp_edge_swarm.Base.{
  eq_iff, ◌≡◌, ◌≢◌, refl, [], ◌∷◌, ◌++◌, none, some, some-injective, List, All, true,
}
use mathlib.Core.Bool.{false≢true}
use anp_edge_swarm.Base.Json.{Json, truthy_text}
use anp_edge_swarm.Base.Exec.{◌>>=◌, if_some}
use anp_edge_swarm.Dict
use anp_edge_swarm.Dict.{or_default}
use anp_edge_swarm.Swarm.Kbucket.{
  parse_hex, hex_value, hex_digit, find_closest, drop_blanks, drop_char, drop_prefix, read_char,
  add_node, bucket_index, xor_distance, closest, distances, new_table, empty_buckets,
}
use anp_edge_swarm.Swarm.Kademlia.{
  Env, new_kad, handle, listen, meet, dispatch, handle_store, handle_find_value, handle_find_node,
  nearest, store_value, Datagram, table_add,
}
use anp_edge_swarm.Swarm.Kademlia.Messages.{Message, Body}
use anp_edge_swarm.Swarm.Kademlia.Invariant.{IsKad}
use anp_edge_swarm.Swarm.Kademlia.Rounds.{listen-IsKad}
use anp_edge_swarm.Swarm.Kademlia.Replies.{to_sender}
use anp_edge_swarm.Swarm.Kademlia.Stored.{Spares, store_find}
use anp_edge_swarm.Swarm.Kbucket.Malformed.{has_foreign}
use anp_edge_swarm.Swarm.Kademlia.Lookup.{IsAnswered, handle-find_node, handle-malformed}

abbrev env : Env
env = record { now = 9; own_ip = "10.0.0.9"; own_cap = Json.null }

abbrev empty_message : Message
empty_message = record {
  type = "";
  sender_id = none;
  sender_ip = none;
  sender_port = none;
  cap = none;
  target_id = none;
  nodes = none;
  key = none;
  value = none;
}

abbrev store_message : Message
store_message = record empty_message {
  type = "STORE";
  key = some "cap:a";
  value = some (Json.num 7);
}

abbrev find_message : Message
find_message = record empty_message { type = "FIND_VALUE"; key = some "cap:a" }

abbrev find_node_message : Message
find_node_message = record empty_message { type = "FIND_NODE"; target_id = some "5" }

abbrev bad_message : Message
bad_message = record empty_message { type = "PING"; sender_id = some "zz" }

listen-IsKad_example : IsKad (
    listen
      (record { env = env; msg = store_message; addr_ip = "10.0.0.1"; addr_port = 6881 }
        ∷ record { env = env; msg = bad_message; addr_ip = "10.0.0.2"; addr_port = 6881 }
        ∷ [])
      (new_kad "0"))
listen-IsKad_example = listen-IsKad "0" (
    record { env = env; msg = store_message; addr_ip = "10.0.0.1"; addr_port = 6881 }
    ∷ record { env = env; msg = bad_message; addr_ip = "10.0.0.2"; addr_port = 6881 }
    ∷ [])

stored : (handle env store_message "10.0.0.1" 6881 (new_kad "0")).0 ≡ some tt
unfolding handle ◌>>=◌ meet if_some dispatch handle_store
stored = refl

-- Between the two, another value is stored, and a bad message comes.
abbrev between : List Datagram
between =
    record {
      env = env;
      msg = record store_message { key = some "cap:b" };
      addr_ip = "10.0.0.3";
      addr_port = 6881;
    }
    ∷ record { env = env; msg = bad_message; addr_ip = "10.0.0.2"; addr_port = 6881 }
    ∷ []

spared : All (Spares "cap:a") between
spared = (
  λ _ e. false≢true ((eq_iff "cap:b" "cap:a").1 (some-injective "cap:b" "cap:a" e)),
  (λ _ e. absurd (cc), tt),
)

found :
    (handle env find_message "10.0.0.2" 6881
      (listen between (handle env store_message "10.0.0.1" 6881 (new_kad "0")).1)).0
    ≡ some tt
unfolding handle new_kad ◌>>=◌ meet if_some dispatch handle_find_value Dict.get handle_store
    store_value Dict.put listen table_add add_node bucket_index xor_distance parse_hex hex_value
    hex_digit new_table empty_buckets drop_blanks drop_char drop_prefix read_char
found = refl

store_find_example :
    let before = listen between (handle env store_message "10.0.0.1" 6881 (new_kad "0")).1 in
    (handle env find_message "10.0.0.2" 6881 before).1.sent
    ≡ before.sent
      ++ to_sender env find_message "10.0.0.2" 6881 (Body.value "cap:a" (Json.num 7)) ∷ []
store_find_example =
    store_find env env store_message find_message "10.0.0.1" "10.0.0.2" 6881 6881 between
      (new_kad "0") "cap:a" refl refl refl refl spared stored found

answered : (handle env find_node_message "10.0.0.1" 6881 (new_kad "0")).0 ≡ some tt
unfolding handle new_kad ◌>>=◌ meet if_some dispatch handle_find_node nearest find_closest closest
    distances new_table empty_buckets
answered = refl

handle-find_node_example :
    IsAnswered env find_node_message "10.0.0.1" 6881 "5" []
      (handle env find_node_message "10.0.0.1" 6881 (new_kad "0")).1
unfolding new_kad
handle-find_node_example =
    handle-find_node env find_node_message "10.0.0.1" 6881 (new_kad "0") "5" refl refl answered

not_hex : has_foreign "zz" ≡ true
unfolding hex_digit
not_hex = refl

not_own : "zz" ≢ (new_kad "0").routing_table.own_id
unfolding new_kad new_table
not_own = λ e. false≢true ((eq_iff "zz" "0").1 e)

bad_sender : truthy_text bad_message.sender_id ≡ some "zz"
bad_sender = refl

handle-malformed_example :
    handle env bad_message "10.0.0.1" 6881 (new_kad "0") ≡ (none, new_kad "0")
handle-malformed_example =
    handle-malformed env bad_message "10.0.0.1" 6881 (new_kad "0") "zz" bad_sender not_own not_hex
