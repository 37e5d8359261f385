-- ===== src/Swarm/Discovery.antt =====
-- swarm/discovery.py: the peers that a node knows by their broadcasts. What the socket delivers and
-- the times are arguments. An id that is a number, which the program would keep under the number,
-- is left out.
pub mod Known
pub mod Presence
pub mod Targets
use Prim.Native.String.{◌++◌ as ◌<>◌}
use mathlib.Core.Option
use anp_edge_swarm.Base.{
  ℕ, ◌-◌, ltb, String, ◌==◌, Bool, true, false, not, ◌||◌, Option, none, some, List, [], ◌∷◌, ◌++◌,
  if◌then◌else◌, any, map,
}
use anp_edge_swarm.Base.Json.{Json, Fields, get_field}
use anp_edge_swarm.Dict
use anp_edge_swarm.Dict.{Dict}

-- An entry of `_known_nodes`.
pub record Node : Type 0 where
  pub caps : Json
  pub addr : String
  pub last_seen : ℕ

abbrev pub peer_timeout : ℕ
peer_timeout = 15

abbrev pub no_caps : Json
no_caps = Json.obj Fields.end

-- The key of a peer that was added by its address.
abbrev pub static_key : String → String
static_key ip = "static:" <> ip

-- `add_known_peer`
unfoldable pub add_known_peer : (now : ℕ) (ip : String) → Dict Node → Dict Node
add_known_peer now ip known =
    if any (λ v. v.addr == ip) (Dict.values known) || Dict.has (static_key ip) known
    then known
    else Dict.put (static_key ip) (record { caps = no_caps; addr = ip; last_seen = now }) known

-- The id under which a peer is kept: a text, not empty, and not the own.
abbrev pub other_id : (my_id : String) → Option Json → Option String
other_id my_id (some (Json.str id)) = if (id == "") || (id == my_id) then none else some id
other_id my_id _ = none

abbrev pub is_announce : Option Json → Bool
is_announce (some (Json.str t)) = t == "announce"
is_announce _ = false

-- The id and the capabilities that a message announces.
abbrev pub announced_caps : (my_id : String) → Option Json → Option (String × Json)
announced_caps my_id none = none
announced_caps my_id (some caps) =
    Option.map (λ id. (id, caps)) (other_id my_id (get_field "node_id" caps))

unfoldable pub announced : (my_id : String) → Option Json → Option (String × Json)
unfolding get_field
announced my_id none = none
announced my_id (some msg) =
    if is_announce (get_field "type" msg) then announced_caps my_id (get_field "caps" msg) else none

-- What one turn of the loop receives: the message, where it is JSON, the address it is from, the
-- time of its receipt and the time of the eviction that follows.
pub record Heard : Type 0 where
  pub msg : Option Json
  pub addr : String
  pub received : ℕ
  pub now : ℕ

abbrev pub put_announced :
    (addr : String) (now : ℕ) → Option (String × Json) → Dict Node → Dict Node
put_announced addr now none known = known
put_announced addr now (some (id, caps)) known =
    Dict.put id (record { caps = caps; addr = addr; last_seen = now }) known

abbrev pub is_fresh : (now : ℕ) → Node → Bool
is_fresh now v = not (ltb peer_timeout (now - v.last_seen))

-- A turn of `_listen_loop`
unfoldable pub listen_turn : (my_id : String) → Heard → Dict Node → Dict Node
unfolding announced
listen_turn my_id h known =
    Dict.keep_items (λ k v. is_fresh h.now v)
      (put_announced h.addr h.received (announced my_id h.msg) known)

abbrev pub broadcasts : List String
broadcasts = "255.255.255.255" ∷ "192.168.1.255" ∷ []

-- The addresses, added to the targets where they are not among them.
unfoldable pub add_targets : (targets ips : List String) → List String
add_targets targets [] = targets
add_targets targets (ip ∷ ips) =
    add_targets (if any (λ t. t == ip) targets then targets else targets ++ ip ∷ []) ips

-- The targets of one turn of `_broadcast_loop`.
unfoldable pub broadcast_targets : Dict Node → List String
broadcast_targets known = add_targets broadcasts (map (λ v. v.addr) (Dict.values known))
