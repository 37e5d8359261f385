-- ===== src/Swarm/Kbucket/Distance.antt =====
-- swarm/kbucket.py: distances and bucket indices of 160-bit ids.
use Prim.Native.Nat.{bit_xor}
use anp_edge_swarm.Base.{ℕ, ◌-◌, ◌^◌, ◌≤◌, ◌<◌, ◌+◌, String, ◌≡◌, some, arith, eqb, if◌then◌else◌}
use anp_edge_swarm.Base.Bits.{
  bit_length, bit_length_bounds, bit_length-le, bit_xor-lt, bit_xor-eq-zero,
}
use anp_edge_swarm.Swarm.Kbucket.{parse_hex, xor_distance, bucket_index}

-- A text that `int(text, 16)` reads as a number of 160 bits, as a node id is meant to be.
pub record IsId (s : String) : Type 0 where
  pub value : ℕ
  pub reads : parse_hex s ≡ some value
  pub bound : value < 2 ^ 160

pub xor_distance-IsId :
    (a b : String) (p : IsId a) (q : IsId b) → xor_distance a b ≡ some (bit_xor p.value q.value)
unfolding xor_distance
xor_distance-IsId a b p q = rw (p.reads, q.reads, xor_distance)

index_of : ℕ → ℕ
index_of dist = if eqb dist 0 then 0 else bit_length dist - 1

index_of-lt : (d : ℕ) → d < 2 ^ 160 → index_of d < 160
unfolding index_of
index_of-lt d h = ground (arith, bit_length-le 160 d h)

-- Between two 160-bit ids a bucket index exists and is below 160.
pub bucket_index_total :
    (own node_id : String)
    → IsId own
    → IsId node_id
    → (i : ℕ) × (bucket_index own node_id ≡ some i) × (i < 160)
unfolding bucket_index index_of
bucket_index_total own node_id p q = (
  index_of (bit_xor p.value q.value),
  rw (xor_distance-IsId own node_id p q, bucket_index),
  index_of-lt _ (bit_xor-lt 160 p.value q.value p.bound q.bound),
)

-- At a distance other than 0, the bucket of index i has the distances from 2 ^ i up to 2 ^ (i + 1).
pub bucket_index_range :
    (own node_id : String) (i d : ℕ)
    → bucket_index own node_id ≡ some i
    → xor_distance own node_id ≡ some d
    → 0 < d
    → (2 ^ i ≤ d) × (d < 2 ^ (i + 1))
unfolding bucket_index
bucket_index_range own node_id i d h e pos =
    let b = bit_length_bounds d pos in
    let i_eq : i ≡ bit_length d - 1 = ground arith in
    let suc_eq : i + 1 ≡ bit_length d = omega (arith, b) in (rw i_eq b.0, rw suc_eq b.1)

-- Two 160-bit ids at the distance 0 are the same number.
pub xor_distance-eq-zero :
    (a b : String) (p : IsId a) (q : IsId b) → xor_distance a b ≡ some 0 → p.value ≡ q.value
xor_distance-eq-zero a b p q h =
    bit_xor-eq-zero 160 p.value q.value p.bound q.bound (ground (arith, xor_distance-IsId a b p q))
