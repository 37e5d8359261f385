-- ===== src/Ml/Frames.antt =====
-- ml/parallel_executor.py and ml/inference_server.py: messages over TCP, each after its length in
-- four bytes. A connection is the list of the byte strings that arrive on it, in order; where the
-- list ends, or has an empty one, the peer has closed. A raised exception is `none`.
pub mod Chunks
pub mod Trip
use anp_edge_swarm.Base.{
  ℕ, zero, suc, ◌+◌, ◌-◌, ◌*◌, ◌/◌, ◌%◌, ◌^◌, ltb, Bool, true, false, Option, none, some, List, [],
  ◌∷◌, ◌++◌, if◌then◌else◌, length, take, drop,
}
use anp_edge_swarm.Base.Exec.{Exec, ◌>>=◌}

abbrev pub Bytes : Type 0
Bytes = List ℕ

abbrev pub Conn : Type 0
Conn = List Bytes

-- n.to_bytes(4, "big")
unfoldable pub to_bytes : ℕ → Bytes
to_bytes n = n / 16777216 % 256 ∷ n / 65536 % 256 ∷ n / 256 % 256 ∷ n % 256 ∷ []

-- int.from_bytes(data, "big")
unfoldable pub from_bytes : Bytes → ℕ
from_bytes bs = go 0 bs
  where
    go : ℕ → Bytes → ℕ
    go n [] = n
    go n (b ∷ rest) = go (n * 256 + b) rest

abbrev pub add_front : Bytes → Option Bytes × Conn → Option Bytes × Conn
add_front c (none, left) = (none, left)
add_front c (some more, left) = (some (c ++ more), left)

-- The loop of `_recv_exact`: `recv(k)` gives at most `k` bytes of what arrived.
unfoldable pub recv_loop : ℕ → Conn → Option Bytes × Conn
recv_loop zero conn = (some [], conn)
recv_loop (suc n) [] = (none, [])
recv_loop (suc n) ([] ∷ rest) = (none, rest)
recv_loop (suc n) ((b ∷ c) ∷ rest) =
    let more = add_front (b ∷ c) (recv_loop (suc n - length (b ∷ c)) rest) in
    if ltb (suc n) (length (b ∷ c))
    then (some (take (suc n) (b ∷ c)), drop (suc n) (b ∷ c) ∷ rest)
    else more

-- `_recv_exact`
unfoldable pub recv_exact : (max_payload : ℕ) → ℕ → Conn → Option Bytes × Conn
unfolding recv_loop
recv_exact max_payload n conn = if ltb max_payload n then (none, conn) else recv_loop n conn

-- A message as it is sent, and as both sides read it.
unfoldable pub frame : Bytes → Bytes
unfolding to_bytes
frame raw = to_bytes (length raw) ++ raw

unfoldable pub recv_frame : (max_payload : ℕ) → Exec Conn Bytes
unfolding recv_exact from_bytes ◌>>=◌
recv_frame max_payload =
    recv_exact max_payload 4 >>= λ head. recv_exact max_payload (from_bytes head)
