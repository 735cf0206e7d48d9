-- ===== src/Mission/TaskGraph.antt =====
-- services/mission/task_graph.py: the tasks of a mission and their dependencies.
pub mod Updates
pub mod Interleaving
pub mod Ready
pub mod Adding
pub mod Claims
pub mod Cycles
pub mod Kahn
pub mod Samples
use agent_os.Prelude.{
  ℕ, suc, String, Bool, true, false, not, ◌&&◌, ◌||◌, Option, none, some, List, [], ◌∷◌, ◌++◌, map,
  ◌==◌, ◌+◌, if◌then◌else◌, ltb, leb, all, contains,
}
use agent_os.Prelude.Sorting.{sort}
use agent_os.Errors.{Error, Result, ok, err}
use agent_os.Exec.{Exec, pure, raise, lift, gets, modify, require, ◌>>=◌, ◌>>◌}
use agent_os.Sql.{select, fetchrow, update_where, insert}
use agent_os.Sql.Keyed.{by_key}
use agent_os.Json.{Json}
use agent_os.Mission.Ids.{Driver, text_value, id_value}
use agent_os.Mission.Tables.{MissionTask, Database}
use agent_os.Mission.Tables.Status.{
  TaskStatus, pending, dispatched, running, verifying, passed, blocked, skipped,
  unknown_after_crash, same_task, task_in,
}

-- TASK_ALLOWED_TRANSITIONS
unfoldable pub task_allowed : TaskStatus → List TaskStatus
task_allowed pending = dispatched ∷ skipped ∷ []
task_allowed dispatched =
    running ∷ verifying ∷ passed ∷ blocked ∷ pending ∷ unknown_after_crash ∷ []
task_allowed running = verifying ∷ passed ∷ blocked ∷ pending ∷ unknown_after_crash ∷ []
task_allowed verifying = passed ∷ blocked ∷ pending ∷ unknown_after_crash ∷ []
task_allowed unknown_after_crash = pending ∷ blocked ∷ passed ∷ []
task_allowed passed = []
task_allowed blocked = pending ∷ []
task_allowed skipped = []

-- the guard of update_status
unfoldable pub may_update : TaskStatus → TaskStatus → Bool
unfolding task_allowed same_task
may_update current status = same_task status current || task_in status (task_allowed current)

abbrev pub by_task : ℕ → MissionTask → Bool
by_task = by_key (λ t. t.task_id)

-- The arguments of add_task, with the defaults filled in.
pub record NewTask : Type 0 where
  pub description : String
  pub objective : Option String
  pub dependencies : List ℕ
  pub priority : ℕ
  pub assigned_executor : Option String
  pub required_tools : List String
  pub success_criteria : List String
  pub verification_method : Option String
  pub max_retries : ℕ

abbrev pub new_task : ℕ → ℕ → NewTask → MissionTask
new_task task_id mission_id a = record {
  task_id = task_id;
  mission_id = mission_id;
  description = a.description;
  objective = a.objective;
  dependencies = a.dependencies;
  priority = a.priority;
  status = pending;
  assigned_executor = a.assigned_executor;
  required_tools = a.required_tools;
  success_criteria = a.success_criteria;
  verification_method = a.verification_method;
  retry_count = 0;
  max_retries = a.max_retries;
  hermes_task_id = none;
  execution_id = none;
  outputs = none;
  errors = [];
  started_at = none;
  completed_at = none;
}

-- SELECT task_id … WHERE mission_id = $1 AND task_id = ANY($2), and str of the ids: what str makes of a
-- UUID is its text, whatever the driver returns
abbrev pub found_ids : ℕ → List ℕ → List MissionTask → List ℕ
found_ids mission_id deps tasks =
    map (λ t. t.task_id)
      (select (λ t. (t.mission_id == mission_id) && contains t.task_id deps) tasks)

-- `task_id` is the uuid4 that the call draws.
unfoldable pub add_task : (task_id mission_id : ℕ) → NewTask → Exec Database ℕ
add_task task_id mission_id a = do
  existing ← gets (λ db. found_ids mission_id a.dependencies db.tasks)
  require (all (λ d. contains d existing) a.dependencies) Error.value_error
  modify (λ db. record db { tasks = insert (new_task task_id mission_id a) db.tasks })
  pure task_id

unfoldable pub get_task : ℕ → Exec Database (Option MissionTask)
get_task task_id = gets (λ db. fetchrow (by_task task_id) db.tasks)

abbrev pub of_mission : ℕ → List MissionTask → List MissionTask
of_mission mission_id = select (λ t. t.mission_id == mission_id)

unfoldable pub all_tasks : ℕ → Exec Database (List MissionTask)
all_tasks mission_id = gets (λ db. of_mission mission_id db.tasks)

-- status_by_id.get(d): the keys are what the driver returns, and d is a text
abbrev pub looked_up : Driver → List MissionTask → ℕ → Option MissionTask
looked_up driver tasks d = fetchrow (λ t. id_value driver t.task_id == text_value d) tasks

-- … == "passed"
abbrev pub is_passed : Option MissionTask → Bool
is_passed none = false
is_passed (some t) = same_task t.status passed

abbrev pub is_ready : Driver → List MissionTask → MissionTask → Bool
is_ready driver tasks t =
    same_task t.status pending && all (λ d. is_passed (looked_up driver tasks d)) t.dependencies

-- sort(key=lambda t: -t["priority"]): does `a` stand before `b`?
unfoldable pub higher_priority : MissionTask → MissionTask → Bool
higher_priority a b = leb b.priority a.priority

unfoldable pub ready_tasks : Driver → (mission_id : ℕ) → Exec Database (List MissionTask)
unfolding all_tasks
ready_tasks driver mission_id = do
  tasks ← all_tasks mission_id
  pure (sort higher_priority (select (is_ready driver tasks) tasks))

abbrev pub has_task : Option MissionTask → Bool
has_task none = false
has_task (some t) = true

abbrev pub dispatch : String → ℕ → ℕ → ℕ → MissionTask → MissionTask
dispatch executor_type hermes_task_id execution_id started_at t = record t {
  status = dispatched;
  assigned_executor = some executor_type;
  hermes_task_id = some hermes_task_id;
  execution_id = some execution_id;
  started_at = some started_at;
}

-- UPDATE … WHERE task_id = $5 AND status = 'pending' RETURNING task_id
unfoldable pub claim_for_dispatch :
    (task_id : ℕ) (executor_type : String) (hermes_task_id execution_id started_at : ℕ)
    → Exec Database Bool
claim_for_dispatch task_id executor_type hermes_task_id execution_id started_at db =
    let hit = λ (t : MissionTask). by_task task_id t && same_task t.status pending in
    (
      ok (has_task (fetchrow hit db.tasks)),
      record db {
        tasks =
            update_where hit (dispatch executor_type hermes_task_id execution_id started_at)
              db.tasks;
      },
    )

-- The keyword arguments of update_status that its `allowed` set lets through; `none` where the
-- caller does not pass one.
pub record TaskFields : Type 0 where
  pub assigned_executor : Option (Option String)
  pub hermes_task_id : Option (Option ℕ)
  pub outputs : Option (Option Json)
  pub errors : Option (List String)
  pub started_at : Option (Option ℕ)
  pub completed_at : Option (Option ℕ)
  pub retry_count : Option ℕ

abbrev pub no_fields : TaskFields
no_fields = record {
  assigned_executor = none;
  hermes_task_id = none;
  outputs = none;
  errors = none;
  started_at = none;
  completed_at = none;
  retry_count = none;
}

abbrev pub given {ℓ} : {A : Type ℓ} → Option A → A → A
given none old = old
given (some new) old = new

abbrev pub set_task : TaskStatus → TaskFields → MissionTask → MissionTask
set_task status fields t = record t {
  status = status;
  assigned_executor = given fields.assigned_executor t.assigned_executor;
  hermes_task_id = given fields.hermes_task_id t.hermes_task_id;
  outputs = given fields.outputs t.outputs;
  errors = given fields.errors t.errors;
  started_at = given fields.started_at t.started_at;
  completed_at = given fields.completed_at t.completed_at;
  retry_count = given fields.retry_count t.retry_count;
}

-- UPDATE … WHERE task_id = … AND status = … RETURNING task_id
unfoldable pub compare_and_set :
    (task_id : ℕ) → TaskStatus → TaskStatus → TaskFields → Exec Database Bool
compare_and_set task_id expected status fields db =
    let hit = λ (t : MissionTask). by_task task_id t && same_task t.status expected in
    (
      ok (has_task (fetchrow hit db.tasks)),
      record db { tasks = update_where hit (set_task status fields) db.tasks },
    )

abbrev or_value_error : Option MissionTask → Result MissionTask
or_value_error none = err Error.value_error
or_value_error (some t) = ok t

-- What update_status does before its UPDATE: the status that it read.
unfoldable pub check_update : ℕ → TaskStatus → Exec Database TaskStatus
check_update task_id status = do
  row ← get_task task_id
  current ← lift (or_value_error row)
  require (may_update current.status status) Error.invalid_task_transition
  pure current.status

unfoldable pub update_status : ℕ → TaskStatus → TaskFields → Exec Database (Unit {0})
update_status task_id status fields = do
  current ← check_update task_id status
  done ← compare_and_set task_id current status fields
  require done Error.invalid_task_transition
