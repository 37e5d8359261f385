-- ===== src/Ml/Decomposer.antt =====
-- ml/task_decomposer.py: `TaskDecomposer`. Scores and composites are in halves; a number, a text
-- or a list that is missing is 0, "" or [], which the code treats alike.
pub mod Plans
use anp_edge_swarm.Base.{
  ℕ, zero, suc, ◌+◌, ◌*◌, ◌%◌, ltb, leb, eqb, String, ◌==◌, Bool, true, false, not, ◌&&◌, ◌||◌,
  Option, none, some, List, [], ◌∷◌, ◌++◌, map, if◌then◌else◌, any, keep, length, get_elem?,
}
use anp_edge_swarm.Base.Sort.{sort, by_key_reverse, max_by}
use anp_edge_swarm.Dict
use anp_edge_swarm.Dict.{Dict, or_default}

pub data Task : Type 0 where
  clean anomaly trend history action : Task

-- `TASK_REQUIREMENTS`
unfoldable pub needs_llm : Task → Bool
needs_llm Task.action = true
needs_llm _ = false

-- in halves
unfoldable pub min_composite : Task → ℕ
min_composite Task.action = 80
min_composite Task.trend = 40
min_composite Task.anomaly = 30
min_composite Task.clean = 10
min_composite Task.history = 20

pub record Benchmark : Type 0 where
  pub composite : ℕ
  pub llm_available : Bool
  pub llm_tps : ℕ

pub record Caps : Type 0 where
  pub ram_gb : ℕ
  pub cpu_cores : ℕ
  pub roles : List String
  pub models : List String
  pub ollama_running : Bool
  pub benchmark : Option Benchmark

-- An entry of the registry, flat or with "caps" nested in it.
pub record Entry : Type 0 where
  pub flat : Caps
  pub inner : Option Caps
  pub ip : String
  pub addr : Option String

pub record Node : Type 0 where
  pub caps : Caps
  pub ip : String

abbrev or_num : ℕ → ℕ → ℕ
or_num a b = if eqb a 0 then b else a

abbrev or_list : {A : Type 0} → List A → List A → List A
or_list [] ys = ys
or_list (x ∷ xs) ys = x ∷ xs

abbrev or_bench : Option Benchmark → Option Benchmark → Option Benchmark
or_bench none b = b
or_bench (some a) b = some a

abbrev pub no_caps : Caps
no_caps = record {
  ram_gb = 0;
  cpu_cores = 0;
  roles = [];
  models = [];
  ollama_running = false;
  benchmark = none;
}

-- `_normalize_caps`
unfoldable pub normalize_caps : Entry → Node
normalize_caps e =
    let inner = or_default no_caps e.inner in
    record {
      caps = record {
        ram_gb = or_num e.flat.ram_gb inner.ram_gb;
        cpu_cores = or_num e.flat.cpu_cores inner.cpu_cores;
        roles = or_list e.flat.roles inner.roles;
        models = or_list e.flat.models inner.models;
        ollama_running = e.flat.ollama_running || inner.ollama_running;
        benchmark = or_bench e.flat.benchmark inner.benchmark;
      };
      ip = if e.ip == "" then or_default "127.0.0.1" e.addr else e.ip;
    }

abbrev composite_of : Option Benchmark → ℕ
composite_of none = 0
composite_of (some b) = b.composite

abbrev bonus : Bool → ℕ → ℕ
bonus b n = if b then n else 0

-- `_score_node`, in halves: the fallback is `ram * 2.0 + cpu * 1.5` and the bonuses.
unfoldable pub score_node : Caps → ℕ
score_node c =
    if ltb 0 (composite_of c.benchmark)
    then composite_of c.benchmark
    else 4 * c.ram_gb
      + 3 * c.cpu_cores
      + bonus (any (λ r. r == "brain") c.roles) 60
      + bonus (any (λ r. r == "gpu") c.roles) 80
      + bonus c.ollama_running 40
      + 10 * length c.models

abbrev has_llm : Option Benchmark → Bool
has_llm none = false
has_llm (some b) = b.llm_available

abbrev meets : Task → Option Benchmark → Bool
meets t none = true
meets t (some b) = leb (min_composite t) b.composite

-- `_node_can_run_task`
unfoldable pub node_can_run_task : Task → Caps → Bool
unfolding needs_llm min_composite
node_can_run_task t c =
    if needs_llm t && not (has_llm c.benchmark) then false else meets t c.benchmark

-- The nodes by their ids, with the local node always among them.
unfoldable pub all_nodes : (local_id : String) → Dict Entry → Dict Node
unfolding normalize_caps
all_nodes local_id known =
    let nodes = map (λ (nid, e). (nid, normalize_caps e)) known in
    if Dict.has local_id nodes
    then nodes
    else nodes ++ (local_id, record { caps = no_caps; ip = "127.0.0.1" }) ∷ []

abbrev pub Ranked : Type 0
Ranked = String × Node

abbrev score : Ranked → ℕ
score n = score_node n.1.caps

unfoldable pub rank : Dict Node → List Ranked
rank nodes = sort (by_key_reverse score) nodes

-- A list with at least one element.
abbrev pub or_first : Ranked → List Ranked → Ranked × List Ranked
or_first n [] = (n, [])
or_first n (x ∷ xs) = (x, xs)

abbrev pub can_run : Task → Ranked → Bool
can_run t n = node_can_run_task t n.1.caps

-- `_eligible_for`: those that can run the task, or else the node of the highest score.
unfoldable pub eligible_for : Task → Ranked → List Ranked → Ranked × List Ranked
eligible_for t first rest = or_first first (keep (can_run t) (first ∷ rest))

-- `_best_by`
unfoldable pub best_by : (Ranked → ℕ) → Ranked × List Ranked → Ranked
best_by metric (n, ns) = max_by metric n ns

abbrev bench_tps : Option Benchmark → ℕ
bench_tps none = 0
bench_tps (some b) = b.llm_tps

abbrev pub inference : Ranked → ℕ
inference n = or_num (bench_tps n.1.caps.benchmark) (if n.1.caps.ollama_running then 10 else 0)

-- candidates[i % len(candidates)]
unfoldable pub pick : ℕ → Ranked × List Ranked → Ranked
pick i (n, ns) = or_default n (get_elem? (n ∷ ns) (i % length (n ∷ ns)))

-- Nodes without another task are preferred.
unfoldable pub pick_preferred : ℕ → Ranked × List Ranked → (idle : List Ranked) → Ranked
unfolding pick
pick_preferred i eligible [] = pick i eligible
pick_preferred i eligible (m ∷ ms) = pick i (m, ms)

unfoldable pub light_node : ℕ → List String → Ranked × List Ranked → Ranked
unfolding pick_preferred
light_node i assigned (n, ns) =
    pick_preferred i (n, ns) (keep (λ m. not (any (λ a. a == m.0) assigned)) (n ∷ ns))

pub record Assignment : Type 0 where
  pub node_id : String
  pub is_local : Bool
  pub ip : String

abbrev pub assign : String → Ranked → Assignment
assign local_id n = record { node_id = n.0; is_local = n.0 == local_id; ip = n.1.ip }

abbrev pub heavy_node : Task → (Ranked → ℕ) → Ranked → List Ranked → Ranked
heavy_node t metric first rest = best_by metric (eligible_for t first rest)

abbrev pub ram : Ranked → ℕ
ram n = n.1.caps.ram_gb

abbrev pub cores : Ranked → ℕ
cores n = n.1.caps.cpu_cores

-- `assigned`
abbrev pub assigned_ids : Ranked → List Ranked → List String
assigned_ids first rest =
    (heavy_node Task.action inference first rest).0
    ∷ (heavy_node Task.trend ram first rest).0
    ∷ (heavy_node Task.anomaly cores first rest).0
    ∷ []

-- The plan with more than one node.
unfoldable pub place_tasks : Ranked → List Ranked → List (Task × Ranked)
unfolding eligible_for best_by light_node
place_tasks first rest =
    let assigned = assigned_ids first rest in
    (Task.action, heavy_node Task.action inference first rest)
    ∷ (Task.trend, heavy_node Task.trend ram first rest)
    ∷ (Task.anomaly, heavy_node Task.anomaly cores first rest)
    ∷ (Task.clean, light_node 0 assigned (eligible_for Task.clean first rest))
    ∷ (Task.history, light_node 1 assigned (eligible_for Task.history first rest))
    ∷ []

unfoldable pub place : List Ranked → List (Task × Ranked)
unfolding place_tasks
place [] = []
place (only ∷ []) =
    map (λ t. (t, only)) (Task.clean ∷ Task.anomaly ∷ Task.trend ∷ Task.history ∷ Task.action ∷ [])
place (first ∷ second ∷ rest) = place_tasks first (second ∷ rest)

unfoldable pub decompose : (local_id : String) → Dict Entry → List (Task × Assignment)
unfolding all_nodes rank place
decompose local_id known =
    map (λ (t, n). (t, assign local_id n)) (place (rank (all_nodes local_id known)))
