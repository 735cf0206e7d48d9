-- ===== src/Mission/Restart.antt =====
-- recover_after_restart of services/mission/executor.py: what was in flight is reconciled with the
-- records of the Hermes tasks.
pub mod Reconciled
use agent_os.Prelude.{
  ℕ, String, Bool, true, false, not, ◌&&◌, ◌||◌, Option, none, some, List, [], ◌∷◌, ◌==◌, str_eq,
  contains, if◌then◌else◌,
}
use agent_os.Errors.{Error, Result, ok, err, budget_exceeded}
use agent_os.Exec.{Exec, pure, raise, lift, gets, modify, continue, ◌>>=◌, ◌>>◌}
use agent_os.Text.{append, decimal}
use agent_os.Json.{Json, null, num, str, arr, obj, Items, nil, cons, Fields, end, field}
use agent_os.Redis.{put}
use agent_os.Mission.Ids.{Driver, texts, uuid_objects}
use agent_os.Mission.Tables.{Mission, MissionTask, Strategy, Database}
use agent_os.Mission.Tables.Status.{
  TaskStatus, pending, dispatched, running, unknown_after_crash, same_task,
}
use agent_os.Mission.Control.{get_mission, transition, list_active}
use agent_os.Mission.TaskGraph.{
  no_fields, claim_for_dispatch, update_status, ready_tasks, all_tasks,
}
use agent_os.Mission.Costs.{check_budget}
use agent_os.Mission.Strategy.{get_current_strategy}
use agent_os.Mission.Reports.{or_text, failing, attempt}
use agent_os.Mission.Payloads.{HermesTask}
use agent_os.Mission.Dispatch.{
  Hub, on_db, push, Fault, at_set, at_push, set_record, send, or_compensate, Setting, send_claimed,
  dispatch_task, add_if, dispatch_all, mission_or_type_error, within_budget, dispatch_ready_tasks,
  no_fault,
}

-- An entry of the list that recover_after_restart returns.
pub data Recovered : Type 0 where
  lost : (task_id : ℕ) → Recovered
  requeued : (task_id : ℕ) (already_queued : Bool) → Recovered
  awaiting_report : (task_id : ℕ) (status : String) → Recovered

abbrev pub in_flight : TaskStatus → Bool
in_flight status = same_task status dispatched || same_task status running

abbrev pub record_of : Option ℕ → Hub → Option HermesTask
record_of none h = none
record_of (some id) h = h.records id

abbrev pub mark_unknown : (task_id : ℕ) → (error : String) → Exec Hub (List Recovered)
mark_unknown task_id error =
    on_db (update_status task_id unknown_after_crash (failing (error ∷ [])))
    >> pure (lost task_id ∷ [])

-- A record that waits in its queue, or should: an unknown type has no queue. LPOS with a uuid.UUID
-- object raises.
abbrev pub requeue_record : Driver → (task_id id : ℕ) → Option String → Exec Hub (List Recovered)
requeue_record driver task_id id none h = (ok [], h)
requeue_record uuid_objects task_id id (some queue) h = (err Error.data_error, h)
requeue_record texts task_id id (some queue) h =
    if contains id (h.queues queue)
    then (ok (requeued task_id true ∷ []), h)
    else (ok (requeued task_id false ∷ []), push queue id h)

abbrev pub missing_text : String
missing_text = "Hermes task record missing during startup reconciliation"

abbrev pub in_flight_text : String
in_flight_text =
    "worker execution was in-flight at Hermes restart; side effect outcome is ambiguous"

abbrev pub reconcile_record :
    Driver
    → (queues : String → Option String) → MissionTask
    → (id : ℕ) → HermesTask
    → Exec Hub (List Recovered)
reconcile_record driver queues t id r h =
    if str_eq r.status "queued"
    then requeue_record driver t.task_id id (queues r.type) h
    else if str_eq r.status "running"
    then mark_unknown t.task_id in_flight_text h
    else if str_eq r.status "completed" || str_eq r.status "failed"
    then (ok (awaiting_report t.task_id r.status ∷ []), h)
    else (ok [], h)

abbrev pub reconcile_found :
    Driver
    → (queues : String → Option String) → MissionTask
    → Option ℕ
    → Option HermesTask
    → Exec Hub (List Recovered)
reconcile_found driver queues t (some id) (some r) h = reconcile_record driver queues t id r h
reconcile_found driver queues t _ _ h = mark_unknown t.task_id missing_text h

-- The round for a task of an active mission.
unfoldable pub reconcile :
    Driver → (queues : String → Option String) → MissionTask → Exec Hub (List Recovered)
reconcile driver queues t h =
    if in_flight t.status
    then reconcile_found driver queues t t.hermes_task_id (record_of t.hermes_task_id h) h
    else (ok [], h)

abbrev pub appended : List Recovered → List Recovered → List Recovered
appended [] ys = ys
appended (x ∷ xs) ys = x ∷ appended xs ys

unfoldable pub reconcile_tasks :
    Driver → (queues : String → Option String) → List MissionTask → Exec Hub (List Recovered)
reconcile_tasks driver queues [] = pure []
reconcile_tasks driver queues (t ∷ ts) = reconcile driver queues t >>= λ found.
    reconcile_tasks driver queues ts >>= λ rest. pure (appended found rest)

unfoldable pub reconcile_missions :
    Driver → (queues : String → Option String) → List Mission → Exec Hub (List Recovered)
reconcile_missions driver queues [] = pure []
reconcile_missions driver queues (m ∷ ms) = on_db (all_tasks m.mission_id) >>= λ tasks.
    reconcile_tasks driver queues tasks >>= λ found.
    reconcile_missions driver queues ms >>= λ rest. pure (appended found rest)

unfoldable pub recover_after_restart :
    Driver → (queues : String → Option String) → Exec Hub (List Recovered)
recover_after_restart driver queues = on_db list_active >>= reconcile_missions driver queues
