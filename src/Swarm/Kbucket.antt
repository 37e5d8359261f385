-- ===== src/Swarm/Kbucket.antt =====
-- swarm/kbucket.py: the k-buckets and the routing table of the Kademlia node. `none` is an
-- exception: the ValueError of `int(text, 16)` or the IndexError of `buckets[idx]`.
-- Times are whole ticks of `time.time()`, given as `now`.
pub mod Distance
pub mod Bucket
pub mod Table
pub mod Nodes
pub mod Closest
pub mod Malformed
use Prim.Native.Nat.{bit_xor}
use Prim.Native.Char.{Char, code}
use Prim.Native.String as Text
use anp_edge_swarm.Base.{
  ℕ, zero, suc, ◌+◌, ◌-◌, ◌*◌, ◌==◌, ltb, leb, eqb, if◌then◌else◌, String, Bool, true, false, ◌&&◌,
  ◌||◌, Option, none, some, List, [], ◌∷◌, ◌++◌, length, take, drop, keep,
}
use anp_edge_swarm.Base.Bits.{bit_length}
use anp_edge_swarm.Base.Sort.{sort, by_key}
use anp_edge_swarm.Dict.{or_default}

abbrev pub k : ℕ
k = 20

-- A digit of `int(text, 16)`, by its character's code.
unfoldable pub hex_digit : ℕ → Option ℕ
hex_digit c =
    if leb b'0' c && leb c b'9'
    then some (c - b'0')
    else if leb b'a' c && leb c b'f'
    then some (c - b'a' + 10)
    else if leb b'A' c && leb c b'F'
    then some (c - b'A' + 10)
    else none

abbrev pub is_space : ℕ → Bool
is_space c = eqb c 32 || (leb 9 c && leb c 13)

-- What the digits end in so far: nothing, a digit, an underscore, or the blanks after the number.
pub data Part : Type 0 where
  start digit score blank : Part

abbrev pub read_digit : Part → ℕ → ℕ → Option (Part × ℕ)
read_digit Part.blank n d = none
read_digit _ n d = some (Part.digit, n * 16 + d)

-- One underscore may follow a digit, and blanks may follow the number.
abbrev pub read_other : Part → ℕ → ℕ → Option (Part × ℕ)
read_other Part.digit n c =
    if eqb c b'_' then some (Part.score, n) else if is_space c then some (Part.blank, n) else none
read_other Part.blank n c = if is_space c then some (Part.blank, n) else none
read_other _ n c = none

unfoldable pub read_char : Part → ℕ → ℕ → Option (Part × ℕ)
unfolding hex_digit
read_char part n c = elim (hex_digit c) [
  | none ↦ read_other part n c
  | some d ↦ read_digit part n d
]

-- There is a digit, and the last underscore is followed by one.
abbrev pub read_end : Part → ℕ → Option ℕ
read_end Part.digit n = some n
read_end Part.blank n = some n
read_end _ n = none

unfoldable pub hex_value : Part → ℕ → String → Option ℕ
unfolding read_char
hex_value part n String.[] = read_end part n
hex_value part n (String.◌∷◌ c s) = elim (read_char part n (code c)) [
  | none ↦ none
  | some (part', n') ↦ hex_value part' n' s
]

unfoldable pub drop_blanks : String → String
drop_blanks String.[] = ""
drop_blanks (String.◌∷◌ c s) =
    let rest = drop_blanks s in if is_space (code c) then rest else String.◌∷◌ c s

unfoldable pub drop_char : ℕ → String → String
drop_char a String.[] = ""
drop_char a (String.◌∷◌ c s) = if eqb (code c) a then s else String.◌∷◌ c s

-- The prefix 0x, after which one underscore may follow.
unfoldable pub drop_prefix : String → String
unfolding drop_char
drop_prefix String.[] = ""
drop_prefix (String.◌∷◌ c String.[]) = String.◌∷◌ c String.[]
drop_prefix (String.◌∷◌ c (String.◌∷◌ d s)) =
    if eqb (code c) b'0' && (eqb (code d) b'x' || eqb (code d) b'X')
    then drop_char b'_' s
    else String.◌∷◌ c (String.◌∷◌ d s)

-- int(text, 16) of a text of ASCII characters. A negative number is refused, which Python reads; so
-- are the digits and blanks that are not ASCII.
unfoldable pub parse_hex : String → Option ℕ
unfolding hex_value drop_blanks drop_char drop_prefix
parse_hex s = hex_value Part.start 0 (drop_prefix (drop_char b'+' (drop_blanks s)))

unfoldable pub xor_distance : String → String → Option ℕ
xor_distance id1 id2 = elim (parse_hex id1) [
  | none ↦ none
  | some a ↦ elim (parse_hex id2) [ none ↦ none | some b ↦ some (bit_xor a b) ]
]

-- The tuple (node_id, ip, port, last_seen).
pub record Node : Type 0 where
  pub node_id : String
  pub ip : String
  pub port : ℕ
  pub last_seen : ℕ

pub record KBucket : Type 0 where
  pub range_min : ℕ
  pub range_max : ℕ
  pub nodes : List Node

-- The loop of `add`: the nodes without the first one of this id, where there is one.
unfoldable pub pop_node : String → List Node → Option (List Node)
pop_node node_id [] = none
pop_node node_id (n ∷ rest) =
    let later : Option (List Node) = elim (pop_node node_id rest) [
      | none ↦ none
      | some others ↦ some (n ∷ others)
    ] in
    if n.node_id == node_id then some rest else later

unfoldable pub add_nodes : List Node → Node → List Node
add_nodes nodes new = elim (pop_node new.node_id nodes) [
  | some others ↦ others ++ new ∷ []
  | none ↦ if ltb (length nodes) k then nodes ++ new ∷ [] else drop 1 nodes ++ new ∷ []
]

unfoldable pub add : (now : ℕ) → String → String → ℕ → KBucket → KBucket
add now node_id ip port b = record b {
  nodes = add_nodes b.nodes (record { node_id = node_id; ip = ip; port = port; last_seen = now });
}

-- The keys of `sorted`, which are all computed before it sorts.
unfoldable pub distances : String → List Node → Option (List ℕ)
distances target_id [] = some []
distances target_id (n ∷ rest) = elim (xor_distance n.node_id target_id) [
  | none ↦ none
  | some d ↦ elim (distances target_id rest) [ none ↦ none | some ds ↦ some (d ∷ ds) ]
]

unfoldable pub distance_key : String → Node → ℕ
distance_key target_id n = or_default 0 (xor_distance n.node_id target_id)

unfoldable pub closest : String → ℕ → List Node → Option (List Node)
closest target_id count nodes = elim (distances target_id nodes) [
  | none ↦ none
  | some ds ↦ some (take count (sort (by_key (distance_key target_id)) nodes))
]

unfoldable pub get_closest : String → ℕ → KBucket → Option (List Node)
get_closest target_id count b = closest target_id count b.nodes

unfoldable pub evict_stale_bucket : (now max_age : ℕ) → KBucket → KBucket
evict_stale_bucket now max_age b = record b {
  nodes = keep (λ n. leb (now - n.last_seen) max_age) b.nodes;
}

pub record RoutingTable : Type 0 where
  pub own_id : String
  pub buckets : List KBucket

-- [KBucket(i, i + 1) for i in range(from, from + count)]
unfoldable pub empty_buckets : (from count : ℕ) → List KBucket
empty_buckets from zero = []
empty_buckets from (suc count) =
    record { range_min = from; range_max = from + 1; nodes = [] } ∷ empty_buckets (suc from) count

unfoldable pub new_table : String → RoutingTable
new_table own_id = record { own_id = own_id; buckets = empty_buckets 0 160 }

unfoldable pub bucket_index : String → String → Option ℕ
bucket_index own_id node_id = elim (xor_distance own_id node_id) [
  | none ↦ none
  | some dist ↦ some (if eqb dist 0 then 0 else bit_length dist - 1)
]

-- buckets[idx].update(...), which raises past the end
unfoldable pub modify_at {ℓ} : {A : Type ℓ} → ℕ → (A → A) → List A → Option (List A)
modify_at i f [] = none
modify_at zero f (x ∷ xs) = some (f x ∷ xs)
modify_at (suc i) f (x ∷ xs) = elim (modify_at i f xs) [ none ↦ none | some ys ↦ some (x ∷ ys) ]

unfoldable pub add_node : (now : ℕ) → String → String → ℕ → RoutingTable → Option RoutingTable
add_node now node_id ip port t =
    if node_id == t.own_id then some t else elim (bucket_index t.own_id node_id) [
      | none ↦ none
      | some idx ↦ elim (modify_at idx (add now node_id ip port) t.buckets) [
        | none ↦ none
        | some bs ↦ some (record t { buckets = bs })
      ]
    ]

abbrev pub bucket_nodes : List KBucket → List Node
bucket_nodes [] = []
bucket_nodes (b ∷ bs) = b.nodes ++ bucket_nodes bs

unfoldable pub all_nodes : RoutingTable → List Node
all_nodes t = bucket_nodes t.buckets

unfoldable pub find_closest : String → ℕ → RoutingTable → Option (List Node)
unfolding all_nodes
find_closest target_id count t = closest target_id count (all_nodes t)

abbrev pub evict_buckets : (now max_age : ℕ) → List KBucket → List KBucket
evict_buckets now max_age [] = []
evict_buckets now max_age (b ∷ bs) = evict_stale_bucket now max_age b ∷ evict_buckets now max_age bs

unfoldable pub evict_stale : (now max_age : ℕ) → RoutingTable → RoutingTable
evict_stale now max_age t = record t { buckets = evict_buckets now max_age t.buckets }

abbrev sum_sizes : List KBucket → ℕ
sum_sizes [] = 0
sum_sizes (b ∷ bs) = length b.nodes + sum_sizes bs

unfoldable pub size : RoutingTable → ℕ
size t = sum_sizes t.buckets
