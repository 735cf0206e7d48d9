-- ===== src/Mission/TaskGraph/Cycles.antt =====
-- validate_acyclic of services/mission/task_graph.py: depth-first search with three colours.
pub mod Walks
pub mod Descent
pub mod Values
pub mod Verdict
use agent_os.Prelude.{
  ℕ, zero, suc, Bool, true, false, Option, none, some, List, [], ◌∷◌, ◌++◌, map, ◌==◌,
  if◌then◌else◌, length,
}
use agent_os.Errors.{Error, Result, ok, err}
use agent_os.Exec.{Exec, lift, ◌>>=◌}
use agent_os.Mission.Ids.{Driver, text_value, id_value}
use agent_os.Mission.Tables.{MissionTask, Database}
use agent_os.Mission.TaskGraph.{all_tasks}

-- The dict from the tasks of a mission to their dependencies.
abbrev pub Graph : Type 0
Graph = List (ℕ × List ℕ)

-- graph.get(node, [])
unfoldable pub deps_of : Graph → ℕ → List ℕ
deps_of [] n = []
deps_of ((k, ds) ∷ g) n = if k == n then ds else deps_of g n

abbrev pub keys : Graph → List ℕ
keys [] = []
keys ((k, ds) ∷ g) = k ∷ keys g

pub data Color : Type 0 where
  white gray black : Color

-- The dict `color`; `none` where a task is no key of it.
abbrev pub Colors : Type 0
Colors = ℕ → Option Color

-- color[n] = s
abbrev pub paint : Colors → ℕ → Color → Colors
paint c n s m = if n == m then some s else c m

abbrev pub all_white : List ℕ → Colors
all_white [] n = none
all_white (k ∷ ks) n = if k == n then some white else all_white ks n

-- How a search ends. `exhausted` is met only where the bound on the depth is too small.
pub data Search : Type 0 where
  finished : Colors → Search
  cyclic : List ℕ → Search
  exhausted : Search

abbrev pub then_search : Search → (Colors → Search) → Search
then_search (finished c) k = k c
then_search (cyclic p) k = cyclic p
then_search exhausted k = exhausted

-- path[path.index(dep):]
unfoldable pub slice_from : ℕ → List ℕ → List ℕ
slice_from d [] = []
slice_from d (x ∷ xs) = if x == d then x ∷ xs else slice_from d xs

-- The loop over the dependencies of a node; `call` is the recursive call of `dfs`.
unfoldable pub visit : (ℕ → Colors → Search) → List ℕ → List ℕ → Colors → Search
visit call path [] c = finished c
visit call path (d ∷ ds) c = elim (c d) [
  | none ↦ visit call path ds c
  | some s ↦ elim s [
    | gray ↦ cyclic (slice_from d path ++ d ∷ [])
    | white ↦ then_search (call d c) (visit call path ds)
    | black ↦ visit call path ds c
  ]
]

-- `path` is passed down with the node appended, and the caller's is met again on return: the
-- source appends and pops one list.
unfoldable pub dfs : (fuel : ℕ) → Graph → List ℕ → ℕ → Colors → Search
dfs zero g path n c = exhausted
dfs (suc fuel) g path n c =
    then_search
      (visit (dfs fuel g (path ++ n ∷ [])) (path ++ n ∷ []) (deps_of g n) (paint c n gray))
      (λ c'. finished (paint c' n black))

-- for tid in graph: if color[tid] == WHITE: dfs(tid)
unfoldable pub dfs_all : ℕ → Graph → List ℕ → Colors → Search
dfs_all fuel g [] c = finished c
dfs_all fuel g (k ∷ ks) c = elim (c k) [
  | none ↦ dfs_all fuel g ks c
  | some s ↦ elim s [
    | white ↦ then_search (dfs fuel g [] k c) (dfs_all fuel g ks)
    | gray ↦ dfs_all fuel g ks c
    | black ↦ dfs_all fuel g ks c
  ]
]

unfoldable pub search_cycle : Graph → Search
search_cycle g = dfs_all (length g) g (keys g) (all_white (keys g))

abbrev pub verdict : Search → Result (Unit {0})
verdict (finished c) = ok tt
verdict (cyclic p) = err (Error.cyclic_dependency p)
verdict exhausted = err Error.recursion_error

-- The keys are what the driver returns, and the dependencies are texts.
abbrev pub graph_of : Driver → List MissionTask → Graph
graph_of driver [] = []
graph_of driver (t ∷ ts) =
    (id_value driver t.task_id, map text_value t.dependencies) ∷ graph_of driver ts

unfoldable pub validate_acyclic : Driver → (mission_id : ℕ) → Exec Database (Unit {0})
validate_acyclic driver mission_id = do
  tasks ← all_tasks mission_id
  lift (verdict (search_cycle (graph_of driver tasks)))
