-- ===== src/Ml/Hierarchy.antt =====
-- ml/model_hierarchy.py: the tier of a node and where a task goes. The memory, in gigabytes, and
-- whether a model answers are arguments; benchmark scores are in halves, as in Ml/Decomposer.
pub mod Route
use anp_edge_swarm.Base.{
  ℕ, ltb, leb, eqb, String, ◌==◌, Bool, true, false, ◌&&◌, ◌||◌, Option, none, some, List, [], ◌∷◌,
  if◌then◌else◌,
}
use anp_edge_swarm.Dict.{Dict, or_default}
use anp_edge_swarm.Ml.Decomposer.{Benchmark, Entry}

-- `_TASK_TIER`, and 3 for any other task
unfoldable pub task_tier : String → ℕ
task_tier t =
    if (t == "clean") || (t == "anomaly")
    then 1
    else if (t == "trend") || (t == "history")
    then 2
    else 3

-- `_detect_level`
unfoldable pub detect_level : (has_llm : Bool) (ram : ℕ) → ℕ
detect_level has_llm ram = if has_llm && leb 8 ram then 3 else if leb 4 ram then 2 else 1

unfoldable pub can_handle : (level : ℕ) → String → Bool
unfolding task_tier
can_handle level task_type = leb (task_tier task_type) level

abbrev pub bench_fits : (required : ℕ) → Option Benchmark → Bool
bench_fits required none = false
bench_fits required (some b) =
    (eqb required 3 && b.llm_available) || (eqb required 2 && ltb 40 b.composite)

-- The peer's benchmark satisfies the tier.
abbrev pub fits : (required : ℕ) → Entry → Bool
fits required info = bench_fits required (or_default info.flat info.inner).benchmark

abbrev pub first_fitting : (own : String) (required : ℕ) → Dict Entry → String
first_fitting own required [] = own
first_fitting own required ((nid, info) ∷ rest) =
    let later = first_fitting own required rest in if fits required info then nid else later

unfoldable pub route_task : (own : String) (level : ℕ) → String → Dict Entry → String
unfolding task_tier
route_task own level task_type known_nodes =
    let required = task_tier task_type in
    if leb required level then own else first_fitting own required known_nodes
