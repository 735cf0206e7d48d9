-- ===== src/Mission/TaskGraph/Samples.antt =====
-- Runs of services/mission/task_graph.py on a small graph, and its theorems at them.
use agent_os.Prelude.{ℕ, ◌≡◌, refl, subst, ◌+◌, ◌↔◌, inl, inr, none, some, List, [], ◌∷◌, arith, In}
use agent_os.Prelude.Sorting.{IsSorted}
use agent_os.Errors.{ok, err, cyclic_dependency}
use agent_os.Mission.Ids.{texts, uuid_objects}
use agent_os.Mission.Tables.{MissionTask, Database}
use agent_os.Mission.Tables.Status.{TaskStatus, pending, dispatched, passed, verifying, same_task}
use agent_os.Mission.TaskGraph.{
  NewTask, get_task, all_tasks, add_task, ready_tasks, higher_priority, claim_for_dispatch,
  compare_and_set, check_update, update_status, may_update, no_fields,
}
use agent_os.Mission.TaskGraph.Updates.{Outcome, TaskKeys, task_row, update_status-Outcome}
use agent_os.Mission.TaskGraph.Interleaving.{
  System, idle, Steps, stay, next, check, write, claim, IsSound, Advanced, task_advances,
}
use agent_os.Mission.TaskGraph.Ready.{CanRun, ready_tasks_exact}
use agent_os.Mission.TaskGraph.Claims.{Claim, run_claims, dispatched_by, first_claim_wins}
use agent_os.Mission.TaskGraph.Adding.{IsGrounded, add_task-IsGrounded}
use agent_os.Mission.TaskGraph.Cycles.{
  deps_of, slice_from, visit, dfs, dfs_all, search_cycle, validate_acyclic,
}
use agent_os.Mission.TaskGraph.Cycles.Walks.{Reaches}
use agent_os.Mission.TaskGraph.Cycles.Verdict.{
  Concludes, mission_graph, validate_acyclic_decides, validate_acyclic_raises_iff,
}
use agent_os.Mission.TaskGraph.Kahn.{lower_all, pull_all, topological_order}
use agent_os.Mission.TaskGraph.Kahn.Topological.{IsTopological, topological_order-IsTopological}

abbrev pub task : (task_id mission_id : ℕ) → List ℕ → TaskStatus → MissionTask
task task_id mission_id dependencies status = record {
  task_id = task_id;
  mission_id = mission_id;
  description = "write the page";
  objective = none;
  dependencies = dependencies;
  priority = task_id;
  status = status;
  assigned_executor = none;
  required_tools = [];
  success_criteria = [];
  verification_method = none;
  retry_count = 0;
  max_retries = 3;
  hermes_task_id = none;
  execution_id = none;
  outputs = none;
  errors = [];
  started_at = none;
  completed_at = none;
}

abbrev pub database : List MissionTask → Database
database tasks = record {
  missions = [];
  tasks = tasks;
  evidence = [];
  strategies = [];
  decisions = [];
  cost_events = [];
}

-- Mission 1: task 1 has passed, 2 and 3 wait for it, 4 waits for 3.
abbrev pub plan : Database
plan = database (
    task 1 1 [] passed
    ∷ task 2 1 (1 ∷ []) pending
    ∷ task 3 1 (1 ∷ []) pending
    ∷ task 4 1 (3 ∷ []) pending
    ∷ [])

-- Two tasks that were not added by add_task, and wait for one another.
abbrev knot : Database
knot = database (task 1 1 (2 ∷ []) pending ∷ task 2 1 (1 ∷ []) pending ∷ [])

program : Unit {0}
unfolding get_task all_tasks add_task ready_tasks higher_priority claim_for_dispatch compare_and_set
    check_update update_status may_update same_task deps_of slice_from visit dfs dfs_all
    search_cycle validate_acyclic
program = tt

ready_plan :
    (ready_tasks texts 1 plan).0 ≡ ok (task 3 1 (1 ∷ []) pending ∷ task 2 1 (1 ∷ []) pending ∷ [])
unfolding program
ready_plan = refl

knot_raises : (validate_acyclic texts 1 knot).0 ≡ err (cyclic_dependency (2 ∷ 4 ∷ 2 ∷ []))
unfolding program
knot_raises = refl

plan-keys : TaskKeys plan
plan-keys = omega arith

update_status-Outcome_example :
    Outcome 2 passed no_fields plan (update_status 2 passed no_fields plan)
update_status-Outcome_example = update_status-Outcome 2 passed no_fields plan plan-keys

-- Where the driver returns uuid.UUID objects, the cycle is not seen, and no task with a dependency
-- is ready or has a place in the order.
knot_passes : (validate_acyclic uuid_objects 1 knot).0 ≡ ok tt
unfolding program
knot_passes = refl

nothing_ready : (ready_tasks uuid_objects 1 plan).0 ≡ ok []
unfolding program
nothing_ready = refl

first_alone : (topological_order uuid_objects 1 plan).0 ≡ ok (3 ∷ [])
unfolding program lower_all pull_all topological_order
first_alone = refl

abbrev bid : ℕ → Claim
bid n = record {
  executor_type = "opencode";
  hermes_task_id = n;
  execution_id = n + 100;
  started_at = 5;
}

first_claim_wins_example :
    ((run_claims 2 (bid 7 ∷ bid 8 ∷ bid 9 ∷ []) plan).0 ≡ 1)
    × (task_row 2 (run_claims 2 (bid 7 ∷ bid 8 ∷ bid 9 ∷ []) plan).1
        ≡ some (dispatched_by (bid 7) (task 2 1 (1 ∷ []) pending)))
first_claim_wins_example =
    first_claim_wins 2 (bid 7) (bid 8 ∷ bid 9 ∷ []) plan (task 2 1 (1 ∷ []) pending) plan-keys refl
      refl

ready_tasks_exact_example :
    (ready : List MissionTask) × (ready_tasks texts 1 plan ≡ (ok ready, plan))
    × ((t : MissionTask) → In t ready ↔ CanRun texts 1 plan t)
    × IsSorted higher_priority ready
ready_tasks_exact_example = ready_tasks_exact texts 1 plan

abbrev quiet : System
quiet = record { db = plan; pc = λ _. idle }

quiet-IsSound : IsSound quiet
quiet-IsSound = record { at = λ i m c n e. cc }

-- A claim, and a report that was checked before the claim of another executor.
history :
    (t : System) × Steps quiet t
    × ((u : MissionTask) × (task_row 2 t.db ≡ some u) × (u.status ≡ passed))
unfolding program
history = (
  _,
  next
      (next (next (next stay (claim 2 "opencode" 7 107 5)) (check 0 2 dispatched verifying refl))
        (check 1 2 dispatched passed refl))
      (write 1 2 dispatched passed no_fields refl),
  (_, refl, refl),
)

task_advances_example : Advanced 2 (task 2 1 (1 ∷ []) pending) history.0.db
task_advances_example = task_advances 2 (task 2 1 (1 ∷ []) pending) history.1 quiet-IsSound refl

abbrev deploy : NewTask
deploy = record {
  description = "deploy";
  objective = none;
  dependencies = 4 ∷ 2 ∷ [];
  priority = 5;
  assigned_executor = some "devops";
  required_tools = [];
  success_criteria = [];
  verification_method = none;
  max_retries = 3;
}

one_dependency :
    (k m : ℕ) (earlier : List (ℕ × ℕ))
    → In (k, m) earlier
    → (d : ℕ) → In d (k ∷ [])
    → In (d, m) earlier
one_dependency k m earlier there d (inl e) = subst (λ x. In (x, m) earlier) e there
one_dependency k m earlier there d (inr h) = elim h [ ]

plan-IsGrounded : IsGrounded [] plan.tasks
plan-IsGrounded = (
  λ d h. elim h [ ],
  (
    one_dependency 1 1 ((1, 1) ∷ []) (inl refl),
    (
      one_dependency 1 1 ((2, 1) ∷ (1, 1) ∷ []) (inr (inl refl)),
      (one_dependency 3 1 ((3, 1) ∷ (2, 1) ∷ (1, 1) ∷ []) (inl refl), tt),
    ),
  ),
)

add_task-IsGrounded_example :
    IsGrounded [] (add_task 5 1 deploy plan).1.tasks × TaskKeys (add_task 5 1 deploy plan).1
add_task-IsGrounded_example =
    add_task-IsGrounded 5 1 deploy plan (omega arith) plan-keys plan-IsGrounded

topological_order-IsTopological_example :
    (order : List ℕ) × (topological_order texts 1 plan ≡ (ok order, plan))
    × IsTopological texts 1 plan order
topological_order-IsTopological_example =
    topological_order-IsTopological texts 1 plan plan-keys plan-IsGrounded

-- The higher priority goes first among the ready tasks.
plan_in_order : (topological_order texts 1 plan).0 ≡ ok (2 ∷ 6 ∷ 8 ∷ 4 ∷ [])
unfolding program lower_all pull_all topological_order
plan_in_order = refl

-- A task that waits for one of no mission has no place in the order, and nothing is raised.
abbrev orphan : Database
orphan = database (task 1 1 [] passed ∷ task 2 1 (9 ∷ []) pending ∷ [])

orphan_left_out : (topological_order texts 1 orphan).0 ≡ ok (2 ∷ [])
unfolding program lower_all pull_all topological_order
orphan_left_out = refl

validate_acyclic_decides_example :
    Concludes texts (mission_graph texts 1 knot) (validate_acyclic texts 1 knot).0
    × ((validate_acyclic texts 1 knot).1 ≡ knot)
validate_acyclic_decides_example = validate_acyclic_decides texts 1 knot

validate_acyclic_raises_iff_example :
    ((p : List ℕ) × ((validate_acyclic texts 1 knot).0 ≡ err (cyclic_dependency p)))
    ↔ ((texts ≡ texts) × ((a : ℕ) × Reaches (mission_graph texts 1 knot) a a))
validate_acyclic_raises_iff_example = validate_acyclic_raises_iff texts 1 knot
