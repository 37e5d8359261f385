-- ===== src/Ml/Assembler/Status.antt =====
-- ml/result_assembler.py: `_highest_status`.
use anp_edge_swarm.Base.{
  ℕ, ◌≤◌, ltb, String, ◌≡◌, ◌⊎◌, refl, ap, some, if◌then◌else◌, Bool-cases, inl, inr, arith,
}
use anp_edge_swarm.Base.Json.{Json}
use anp_edge_swarm.Dict
use anp_edge_swarm.Dict.{Dict, or_default}
use anp_edge_swarm.Ml.Assembler.{rank_of, severity_rank, highest_status}

-- `s` is one of the two, with a rank that neither exceeds.
pub record IsHighest (a b s : Json) : Type 0 where
  pub one : (s ≡ a) ⊎ (s ≡ b)
  pub rank : ℕ
  pub has_rank : rank_of s ≡ some rank
  pub above_a : (m : ℕ) × (rank_of a ≡ some m) × (m ≤ rank)
  pub above_b : (n : ℕ) × (rank_of b ≡ some n) × (n ≤ rank)

-- The status is one of the two that are compared, and its rank is the greater; two texts always
-- have a highest one.
pub highest_status-IsHighest :
    (a b : String)
    → (s : Json) × (highest_status (Json.str a) (Json.str b) ≡ some s)
      × IsHighest (Json.str a) (Json.str b) s
unfolding highest_status rank_of
highest_status-IsHighest a b =
    let m = or_default 0 (Dict.get a severity_rank) in
    let n = or_default 0 (Dict.get b severity_rank) in
    elim (Bool-cases (ltb m n)) [
      | inl e ↦ (
        Json.str b,
        ap (λ t. some (if t then Json.str b else Json.str a)) e,
        record {
          one = inr refl;
          rank = n;
          has_rank = refl;
          above_a = (m, refl, ground arith);
          above_b = (n, refl, omega arith);
        },
      )
      | inr e ↦ (
        Json.str a,
        ap (λ t. some (if t then Json.str b else Json.str a)) e,
        record {
          one = inl refl;
          rank = m;
          has_rank = refl;
          above_a = (m, refl, omega arith);
          above_b = (n, refl, ground arith);
        },
      )
    ]
