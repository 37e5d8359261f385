-- ===== src/Ml/Frames/Chunks.antt =====
-- ml/parallel_executor.py and ml/inference_server.py: `_recv_exact` reads the same bytes however
-- they are cut into pieces.
use anp_edge_swarm.Base.{
  ℕ, zero, suc, ◌-◌, ◌≤◌, ◌<◌, ltb, leb, ltb→lt, leb→le, sym, false, ◌≡◌, ◌∙◌, refl, ap, Option,
  none, some, List, [], ◌∷◌, ◌++◌, if◌then◌else◌, length, length-append, take, drop, All,
  Bool-cases, inl, inr, arith,
}
use anp_edge_swarm.Ml.Frames.{Bytes, Conn, add_front, recv_loop, recv_exact}

-- The bytes that arrive.
abbrev pub joined : Conn → Bytes
joined [] = []
joined (c ∷ rest) = c ++ joined rest

-- No piece is empty: the peer does not close before the last of them.
abbrev pub IsOpen : Conn → Type 0
IsOpen conn = All (λ c. 0 < length c) conn

module _ {A : Type 0} where
  take-append_long :
      (n : ℕ) (c d : List A) → length c ≤ n → take n (c ++ d) ≡ c ++ take (n - length c) d
  take-append_long n [] d h = let same : n ≡ n - 0 = omega arith in ap (λ m. take m d) same
  take-append_long zero (x ∷ c) d h = absurd (omega arith)
  take-append_long (suc n) (x ∷ c) d h =
      let less : n - length c ≡ suc n - suc (length c) = omega arith in
      ap (λ xs. x ∷ xs) (take-append_long n c d (omega arith)) ∙ ap (λ m. x ∷ (c ++ take m d)) less

  drop-append_long : (n : ℕ) (c d : List A) → length c ≤ n → drop n (c ++ d) ≡ drop (n - length c) d
  drop-append_long n [] d h = let same : n ≡ n - 0 = omega arith in ap (λ m. drop m d) same
  drop-append_long zero (x ∷ c) d h = absurd (omega arith)
  drop-append_long (suc n) (x ∷ c) d h =
      let less : n - length c ≡ suc n - suc (length c) = omega arith in
      drop-append_long n c d (omega arith) ∙ ap (λ m. drop m d) less

  take-append_short : (n : ℕ) (c d : List A) → n ≤ length c → take n (c ++ d) ≡ take n c
  take-append_short zero c d h = refl
  take-append_short (suc n) [] d h = absurd (omega arith)
  take-append_short (suc n) (x ∷ c) d h = ap (λ xs. x ∷ xs) (take-append_short n c d (omega arith))

  drop-append_short : (n : ℕ) (c d : List A) → n ≤ length c → drop n (c ++ d) ≡ drop n c ++ d
  drop-append_short zero c d h = refl
  drop-append_short (suc n) [] d h = absurd (omega arith)
  drop-append_short (suc n) (x ∷ c) d h = drop-append_short n c d (omega arith)

  length-drop_pos : (n : ℕ) (c : List A) → n < length c → 0 < length (drop n c)
  length-drop_pos zero c h = h
  length-drop_pos (suc n) [] h = absurd (omega arith)
  length-drop_pos (suc n) (x ∷ c) h = length-drop_pos n c (omega arith)

ltb-false : (a b : ℕ) → ltb a b ≡ false → b ≤ a
ltb-false a b h = ground arith

leb-false : (a b : ℕ) → leb a b ≡ false → b < a
leb-false a b h = ground arith

-- What was read, and what is left.
abbrev pub IsRead : ℕ → Conn → Option Bytes × Conn → Type 0
IsRead n conn r =
    (r.0 ≡ some (take n (joined conn))) × (joined r.1 ≡ drop n (joined conn)) × IsOpen r.1

add_front-IsRead :
    (n : ℕ) (b : ℕ) (c : Bytes) (rest : Conn) (r : Option Bytes × Conn)
    → length (b ∷ c) ≤ n
    → IsRead (n - length (b ∷ c)) rest r
    → IsRead n ((b ∷ c) ∷ rest) (add_front (b ∷ c) r)
add_front-IsRead n b c rest (none, left) h k = absurd (cc)
add_front-IsRead n b c rest (some more, left) h k = (
  ap (λ o. map_front o) k.0 ∙ ap some (sym (take-append_long n (b ∷ c) (joined rest) h)),
  k.1 ∙ sym (drop-append_long n (b ∷ c) (joined rest) h),
  k.2,
)
  where
    map_front : Option Bytes → Option Bytes
    map_front none = none
    map_front (some m) = some ((b ∷ c) ++ m)

pub recv_loop-IsRead :
    (n : ℕ) (conn : Conn)
    → IsOpen conn
    → n ≤ length (joined conn)
    → IsRead n conn (recv_loop n conn)
unfolding recv_loop
recv_loop-IsRead zero conn o h = (refl, refl, o)
recv_loop-IsRead (suc n) [] o h = absurd (omega arith)
recv_loop-IsRead (suc n) ([] ∷ rest) o h = absurd (omega (arith, o.0))
recv_loop-IsRead (suc n) ((b ∷ c) ∷ rest) o h = elim (Bool-cases (ltb (suc n) (length (b ∷ c)))) [
  | inl t ↦
      let short : suc n < length (b ∷ c) = ltb→lt _ _ t in
      rw t (
        ap (λ xs. some (b ∷ xs)) (sym (take-append_short n c (joined rest) (omega (arith, short)))),
        sym (drop-append_short n c (joined rest) (omega (arith, short))),
        (length-drop_pos n c (omega (arith, short)), o.1),
      )
  | inr t ↦
      let long : length (b ∷ c) ≤ suc n = ltb-false _ _ t in
      rw t (
        add_front-IsRead (suc n) b c rest (recv_loop (suc n - length (b ∷ c)) rest) long (
          recv_loop-IsRead (suc n - length (b ∷ c)) rest o.1
            (omega (arith, h, long, length-append c (joined rest)))))
]

add_front-none : (c : Bytes) (r : Option Bytes × Conn) → r.0 ≡ none → (add_front c r).0 ≡ none
add_front-none c (none, left) h = refl
add_front-none c (some more, left) h = absurd (cc)

recv_loop-short :
    (n : ℕ) (conn : Conn) → IsOpen conn → length (joined conn) < n → (recv_loop n conn).0 ≡ none
unfolding recv_loop
recv_loop-short zero conn o h = absurd (omega arith)
recv_loop-short (suc n) [] o h = refl
recv_loop-short (suc n) ([] ∷ rest) o h = refl
recv_loop-short (suc n) ((b ∷ c) ∷ rest) o h = elim (Bool-cases (ltb (suc n) (length (b ∷ c)))) [
  | inl t ↦ absurd (omega (arith, h, ltb→lt _ _ t, length-append c (joined rest)))
  | inr t ↦
      let long : length (b ∷ c) ≤ suc n = ltb-false _ _ t in
      rw t (
        add_front-none (b ∷ c) (recv_loop (suc n - length (b ∷ c)) rest) (
          recv_loop-short (suc n - length (b ∷ c)) rest o.1
            (omega (arith, h, long, length-append c (joined rest)))))
]

-- However the bytes are cut into pieces, `_recv_exact` gives the first `n` of them, where there are
-- as many and `n` is not too large; else it raises.
pub recv_exact-take :
    (max_payload n : ℕ) (conn : Conn)
    → IsOpen conn
    → (recv_exact max_payload n conn).0 ≡ (
        if ltb max_payload n
        then none
        else if leb n (length (joined conn))
        then some (take n (joined conn))
        else none)
unfolding recv_exact
recv_exact-take max_payload n conn o = elim (Bool-cases (ltb max_payload n)) [
  | inl t ↦ rw t refl
  | inr t ↦ elim (Bool-cases (leb n (length (joined conn)))) [
    | inl e ↦ rw (t, e) (recv_loop-IsRead n conn o (leb→le _ _ e)).0
    | inr e ↦ rw (t, e) (recv_loop-short n conn o (leb-false _ _ e))
  ]
]
