-- ===== src/Ml/Frames/Trip.antt =====
-- ml/parallel_executor.py and ml/inference_server.py: a message that is sent is read.
use anp_edge_swarm.Base.{
  ℕ, ◌≤◌, ◌<◌, ltb, false, ◌≡◌, ◌∙◌, refl, sym, ap, subst, some, List, [], ◌∷◌, ◌++◌, length,
  length-append, take, drop, arith,
}
use mathlib.Core.List.{append_assoc}
use anp_edge_swarm.Base.Exec.{Exec, ◌>>=◌}
use anp_edge_swarm.Ml.Frames.{Bytes, Conn, to_bytes, from_bytes, frame, recv_exact, recv_frame}
use anp_edge_swarm.Ml.Frames.Chunks.{joined, IsOpen, recv_loop-IsRead}

from_bytes-to_bytes : (n : ℕ) → n < 4294967296 → from_bytes (to_bytes n) ≡ n
unfolding from_bytes to_bytes
from_bytes-to_bytes n h = omega arith

take_front : {A : Type 0} (xs ys : List A) → take (length xs) (xs ++ ys) ≡ xs
take_front [] ys = refl
take_front (x ∷ xs) ys = ap (λ l. x ∷ l) (take_front xs ys)

drop_front : {A : Type 0} (xs ys : List A) → drop (length xs) (xs ++ ys) ≡ ys
drop_front [] ys = refl
drop_front (x ∷ xs) ys = drop_front xs ys

-- What stands in front of the bytes that arrive is read.
recv_exact-front :
    (max_payload : ℕ) (raw rest : Bytes) (conn : Conn)
    → IsOpen conn
    → joined conn ≡ raw ++ rest
    → length raw ≤ max_payload
    → ((recv_exact max_payload (length raw) conn).0 ≡ some raw)
      × (joined (recv_exact max_payload (length raw) conn).1 ≡ rest)
      × IsOpen (recv_exact max_payload (length raw) conn).1
unfolding recv_exact
recv_exact-front max_payload raw rest conn o e fits =
    let within : ltb max_payload (length raw) ≡ false = ground arith in
    let long : length raw ≤ length (joined conn) =
      subst (λ xs. length raw ≤ length xs) (sym e) (omega (arith, length-append raw rest)) in
    let r = recv_loop-IsRead (length raw) conn o long in
    rw within (
      r.0 ∙ ap (λ xs. some (take (length raw) xs)) e ∙ ap some (take_front raw rest),
      r.1 ∙ ap (drop (length raw)) e ∙ drop_front raw rest,
      r.2,
    )

bind_some :
    {S A B : Type 0} (m : Exec S A) (f : A → Exec S B) (s : S) (a : A)
    → (m s).0 ≡ some a
    → (m >>= f) s ≡ f a (m s).1
unfolding ◌>>=◌
bind_some m f s a h = rw h refl

-- A message of at most the allowed length is read as it was sent, however its bytes are cut into
-- pieces, and what comes after it stays. The allowed length is at least four, and fits into four
-- bytes.
pub recv_frame-frame :
    (max_payload : ℕ) (raw rest : Bytes) (conn : Conn)
    → IsOpen conn
    → joined conn ≡ frame raw ++ rest
    → length raw ≤ max_payload
    → 4 ≤ max_payload
    → max_payload < 4294967296
    → ((recv_frame max_payload conn).0 ≡ some raw) × (joined (recv_frame max_payload conn).1 ≡ rest)
unfolding recv_frame frame to_bytes
recv_frame-frame max_payload raw rest conn o e fits four small =
    let size = length raw in
    let head =
      recv_exact-front max_payload (to_bytes size) (raw ++ rest) conn o
        (e ∙ append_assoc (to_bytes size) raw rest) four in
    let conn' = (recv_exact max_payload 4 conn).1 in
    let body = recv_exact-front max_payload raw rest conn' head.2 head.1 fits in
    let whole : recv_frame max_payload conn ≡ recv_exact max_payload size conn' =
      bind_some (recv_exact max_payload 4) (λ h. recv_exact max_payload (from_bytes h)) conn
        (to_bytes size) head.0
      ∙ ap (λ n. recv_exact max_payload n conn')
          (from_bytes-to_bytes size (omega (arith, fits, small))) in
    (ap (λ r. r.0) whole ∙ body.0, ap (λ r. joined r.1) whole ∙ body.1)
