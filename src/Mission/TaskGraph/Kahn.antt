-- ===== src/Mission/TaskGraph/Kahn.antt =====
-- topological_order of services/mission/task_graph.py: Kahn's algorithm.
pub mod Degrees
pub mod Order
pub mod Topological
use agent_os.Prelude.{
  ℕ, zero, suc, Bool, Option, none, some, List, [], ◌∷◌, ◌++◌, ◌==◌, ◌-◌, if◌then◌else◌, leb,
  length,
}
use agent_os.Prelude.Sorting.{sort}
use agent_os.Errors.{Error, Result, ok, err}
use agent_os.Exec.{Exec, lift, ◌>>=◌, ◌>>◌}
use agent_os.Sql.{select}
use agent_os.Mission.Ids.{Driver, id_value}
use agent_os.Mission.Tables.{MissionTask, Database}
use agent_os.Mission.TaskGraph.{all_tasks}
use agent_os.Mission.TaskGraph.Cycles.{Graph, keys, graph_of, validate_acyclic}

-- in_degree[n]: one for each dependency that is listed
abbrev pub in_degree : Graph → ℕ → ℕ
in_degree [] n = 0
in_degree ((k, ds) ∷ g) n = if k == n then length ds else in_degree g n

-- for dep in deps: dependents[dep].append(tid)
abbrev pub repeated : (n k : ℕ) → List ℕ → List ℕ
repeated n k [] = []
repeated n k (d ∷ ds) = let rest = repeated n k ds in if d == n then k ∷ rest else rest

-- dependents[n]
abbrev pub dependents : Graph → ℕ → List ℕ
dependents [] n = []
dependents ((k, ds) ∷ g) n = repeated n k ds ++ dependents g n

-- next((t["priority"] for t in tasks if t["task_id"] == tid), 5)
abbrev pub priority_of : Driver → List MissionTask → ℕ → ℕ
priority_of driver [] n = 5
priority_of driver (t ∷ ts) n =
    if id_value driver t.task_id == n then t.priority else priority_of driver ts n

-- the order of ready.sort
abbrev pub pulled_first : Driver → List MissionTask → ℕ → ℕ → Bool
pulled_first driver tasks a b = leb (priority_of driver tasks b) (priority_of driver tasks a)

-- in_degree[dependent] -= 1. No count that is 0 is lowered: see Kahn/Degrees.
abbrev pub lowered : ℕ → (ℕ → ℕ) → ℕ → ℕ
lowered n degree m = if n == m then degree n - 1 else degree m

-- The loop over the dependents of a node that was pulled.
unfoldable pub lower_all : List ℕ → (degree : ℕ → ℕ) → (ready : List ℕ) → (ℕ → ℕ) × List ℕ
lower_all [] degree ready = (degree, ready)
lower_all (n ∷ ns) degree ready =
    lower_all ns (lowered n degree) (if lowered n degree n == 0 then ready ++ n ∷ [] else ready)

-- A round of the loop for the sorted `ready`; the rounds that are left are `rest`.
abbrev pub pull_node :
    Graph
    → (rest : (ready : List ℕ) (degree : ℕ → ℕ) (order : List ℕ) → Option (List ℕ))
    → (ready : List ℕ) (degree : ℕ → ℕ) (order : List ℕ) → Option (List ℕ)
pull_node g rest [] degree order = some order
pull_node g rest (node ∷ ready) degree order =
    let (after, next) = lower_all (dependents g node) degree ready in
    rest next after (order ++ node ∷ [])

-- The `while` loop, `none` where the bound on its rounds is too small; `first` is the order of
-- ready.sort.
unfoldable pub pull_all :
    (fuel : ℕ)
    → Graph
    → (first : ℕ → ℕ → Bool) → (ready : List ℕ) (degree : ℕ → ℕ) (order : List ℕ) → Option (List ℕ)
pull_all fuel g first [] degree order = some order
pull_all zero g first (n ∷ ns) degree order = none
pull_all (suc fuel) g first (n ∷ ns) degree order =
    pull_node g (pull_all fuel g first) (sort first (n ∷ ns)) degree order

abbrev pub first_ready : Graph → List ℕ
first_ready g = select (λ n. in_degree g n == 0) (keys g)

abbrev pub order_or : Option (List ℕ) → Result (List ℕ)
order_or none = err Error.recursion_error
order_or (some order) = ok order

abbrev pub order_of : Driver → List MissionTask → Result (List ℕ)
order_of driver tasks =
    let g = graph_of driver tasks in
    order_or
      (pull_all (length tasks) g (pulled_first driver tasks) (first_ready g) (in_degree g) [])

unfoldable pub topological_order : Driver → (mission_id : ℕ) → Exec Database (List ℕ)
topological_order driver mission_id = do
  validate_acyclic driver mission_id
  tasks ← all_tasks mission_id
  lift (order_of driver tasks)
