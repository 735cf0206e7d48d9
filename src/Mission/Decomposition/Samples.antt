-- ===== src/Mission/Decomposition/Samples.antt =====
-- Runs of services/mission/decomposition.py, and its theorem at them.
use agent_os.Prelude.{ℕ, ◌≡◌, refl, false, Option, none, some, List, [], ◌∷◌, ◌+◌, length, arith}
use agent_os.Errors.{Result, ok, err, decomposition_error}
use agent_os.Json.{Json, str, num, arr, obj, Items, nil, cons, Fields, field, end}
use agent_os.Text.{starts_with}
use agent_os.Mission.Ids.{texts}
use agent_os.Mission.Tables.{Database}
use agent_os.Mission.Replies.{strip_start, strip_end, drop, before_fence, drop_tag, unfence}
use agent_os.Mission.TaskGraph.{NewTask, add_task, all_tasks}
use agent_os.Mission.TaskGraph.Cycles.{
  visit, dfs, dfs_all, search_cycle, validate_acyclic, deps_of, slice_from,
}
use agent_os.Mission.Decomposition.{
  has_description, check_descriptions, parse_response, dep_ids, create_task, create_tasks,
  decompose,
}
use agent_os.Mission.Decomposition.Acyclic.{IsSound, is_cyclic, decompose_never_cyclic}

program : Unit {0}
unfolding starts_with strip_start strip_end drop before_fence drop_tag unfence add_task all_tasks
    deps_of slice_from visit dfs dfs_all search_cycle validate_acyclic has_description
    check_descriptions parse_response dep_ids create_task create_tasks decompose
program = tt

abbrev empty_tables : Database
empty_tables = record {
  missions = [];
  tasks = [];
  evidence = [];
  strategies = [];
  decisions = [];
  cost_events = [];
}

abbrev columns : Fields → Result NewTask
columns fields = ok (record {
  description = "step";
  objective = none;
  dependencies = [];
  priority = 5;
  assigned_executor = some "opencode";
  required_tools = [];
  success_criteria = [];
  verification_method = none;
  max_retries = 3;
})

abbrev step_after : Items → Json
step_after indices =
    obj (field "description" (str "step") (field "depends_on_indices" (arr indices) end))

-- The second task depends on the first, the third on the index given.
abbrev plan : ℕ → List ℕ → Option Json
plan index text = some (
    arr (
      cons (step_after nil)
        (cons (step_after (cons (num 0) nil)) (cons (step_after (cons (num index) nil)) nil))))

abbrev ids : ℕ → ℕ
ids i = i + 70

three_created : (decompose texts (plan 1) columns 1 ids [] empty_tables).0 ≡ ok (70 ∷ 71 ∷ 72 ∷ [])
unfolding program
three_created = refl

-- An index that does not exist raises after the tasks before it have been inserted.
late_index_raises :
    ((decompose texts (plan 5) columns 1 ids [] empty_tables).0 ≡ err decomposition_error)
    × (length (decompose texts (plan 5) columns 1 ids [] empty_tables).1.tasks ≡ 2)
unfolding program
late_index_raises = (refl, refl)

decompose_never_cyclic_example :
    (is_cyclic (decompose texts (plan 1) columns 1 ids [] empty_tables).0 ≡ false)
    × IsSound (decompose texts (plan 1) columns 1 ids [] empty_tables).1
decompose_never_cyclic_example =
    decompose_never_cyclic ids (λ i j less e. omega arith) columns (λ fields. refl) 1 texts (plan 1)
      [] empty_tables (tt, tt) (λ i at_least. tt)
