-- ===== src/Mission/Dispatch.antt =====
-- dispatch_ready_tasks of services/mission/executor.py: ready tasks go to the workers' queues. Progress
-- files and the trajectory of a runtime store are not part of the state.
pub mod Sent
pub mod Samples
use agent_os.Prelude.{
  ℕ, String, Bool, true, false, not, ◌&&◌, ◌||◌, Option, none, some, List, [], ◌∷◌, ◌==◌, str_eq,
  contains, if◌then◌else◌,
}
use agent_os.Errors.{Error, Result, ok, err, budget_exceeded}
use agent_os.Exec.{Exec, pure, raise, lift, gets, modify, continue, ◌>>=◌, ◌>>◌}
use agent_os.Text.{append, decimal}
use agent_os.Json.{Json, null, num, str, arr, obj, Items, nil, cons, Fields, end, field}
use agent_os.Redis.{put}
use agent_os.Mission.Ids.{Driver, texts, uuid_objects}
use agent_os.Mission.Tables.{Mission, MissionTask, Strategy, Database}
use agent_os.Mission.Tables.Status.{
  TaskStatus, pending, dispatched, running, unknown_after_crash, same_task,
}
use agent_os.Mission.Control.{get_mission, transition, list_active}
use agent_os.Mission.TaskGraph.{
  no_fields, claim_for_dispatch, update_status, ready_tasks, all_tasks,
}
use agent_os.Mission.Costs.{check_budget}
use agent_os.Mission.Strategy.{get_current_strategy}
use agent_os.Mission.Reports.{or_text, failing, attempt}
use agent_os.Mission.Payloads.{
  HermesTask, Profile, profile_of, capability_profile, executor_for, strategy_note, tools_or,
  items_of, text_or_null, skill_of, Draw, scope, common_fields, task_budget, opencode_payload,
  worker_payload, payload_for, hermes_task,
}

-- The tables, the task records, and the queues by their names, the latest push first.
pub record Hub : Type 0 where
  pub db : Database
  pub records : ℕ → Option HermesTask
  pub queues : String → List ℕ

abbrev pub on_db : {A : Type 0} → Exec Database A → Exec Hub A
on_db call h = let (result, after) = call h.db in (result, record h { db = after })

-- LPUSH
abbrev pub push : (queue : String) → (id : ℕ) → Hub → Hub
push queue id h = record h {
  queues = λ name. if str_eq name queue then id ∷ h.queues name else h.queues name;
}

-- How the two calls of Redis go: both return, or SET or LPUSH raises and has no effect.
pub data Fault : Type 0 where
  no_fault : Fault
  at_set at_push : Error → Fault

abbrev pub set_record : HermesTask → Hub → Hub
set_record r h = record h { records = put r.task_id (some r) h.records }

-- The payload holds the task_id as the driver returned it: json.dumps raises at a uuid.UUID object,
-- before SET.
abbrev pub encoded : Driver → Fault → Fault
encoded texts fault = fault
encoded uuid_objects fault = at_set Error.type_error

-- the body of the `try`
abbrev pub send : Fault → Option String → HermesTask → Exec Hub (Unit {0})
send (at_set e) queue r h = (err e, h)
send fault none r h = (err Error.key_error, set_record r h)
send (at_push e) (some queue) r h = (err e, set_record r h)
send no_fault (some queue) r h = (ok tt, push queue r.task_id (set_record r h))

-- the `except`: the task is pending again, and the exception goes on
abbrev pub or_compensate : (task_id : ℕ) → Result (Unit {0}) × Hub → Result Bool × Hub
or_compensate task_id (ok done, h) = (ok true, h)
or_compensate task_id (err e, h) =
    (on_db (update_status task_id pending (failing ("redis dispatch failed" ∷ []))) >> raise e) h

-- The environment of a call: the database driver, HYBRID_MODE, the queues by executor, what str prints of a dict, what
-- each round draws, and how Redis answers it.
pub record Setting : Type 0 where
  pub driver : Driver
  pub hybrid_mode : Bool
  pub queues : String → Option String
  pub printed : Json → String
  pub draw : MissionTask → Draw
  pub fault : MissionTask → Fault

abbrev pub send_claimed :
    Setting
    → (mission_id : ℕ) (executor_type requested note : String) → MissionTask
    → (claimed : Bool) → Exec Hub Bool
send_claimed env mission_id executor_type requested note t false h = (ok false, h)
send_claimed env mission_id executor_type requested note t true h =
    let payload = payload_for mission_id executor_type requested note t (env.draw t) in
    or_compensate t.task_id (
      send (encoded env.driver (env.fault t)) (env.queues executor_type)
        (hermes_task executor_type payload (env.draw t)) h)

-- The round for a ready task; does it count as dispatched?
unfoldable pub dispatch_task : Setting → (mission_id : ℕ) → MissionTask → Exec Hub Bool
dispatch_task env mission_id t = do
  let requested : String = or_text t.assigned_executor "opencode"
  let executor_type : String = executor_for env.hybrid_mode requested
  strategy ← on_db (get_current_strategy t.task_id)
  claimed ← on_db (
      claim_for_dispatch t.task_id executor_type (env.draw t).hermes_task_id
        (env.draw t).execution_id (env.draw t).started_at)
  send_claimed env mission_id executor_type requested (strategy_note env.printed strategy) t claimed

abbrev pub add_if : Bool → ℕ → List ℕ → List ℕ
add_if true id ids = id ∷ ids
add_if false id ids = ids

unfoldable pub dispatch_all : Setting → (mission_id : ℕ) → List MissionTask → Exec Hub (List ℕ)
dispatch_all env mission_id [] = pure []
dispatch_all env mission_id (t ∷ ts) = dispatch_task env mission_id t >>= λ sent.
    dispatch_all env mission_id ts >>= λ ids. pure (add_if sent t.task_id ids)

abbrev pub mission_or_type_error : Option Mission → Result Mission
mission_or_type_error none = err Error.type_error
mission_or_type_error (some m) = ok m

-- After check_budget, inside its `try`.
abbrev pub within_budget : Setting → (mission_id now : ℕ) → Result (Unit {0}) → Exec Hub (List ℕ)
within_budget env mission_id now (err budget_exceeded) =
    on_db (transition mission_id "BLOCKED" (some "budget_exceeded") now) >> pure []
within_budget env mission_id now (err e) = raise e
within_budget env mission_id now (ok done) =
    on_db (ready_tasks env.driver mission_id) >>= dispatch_all env mission_id

unfoldable pub dispatch_ready_tasks : Setting → (mission_id now : ℕ) → Exec Hub (List ℕ)
dispatch_ready_tasks env mission_id now = do
  row ← on_db (get_mission mission_id)
  mission ← lift (mission_or_type_error row)
  checked ← on_db (attempt (check_budget mission_id mission.budget))
  within_budget env mission_id now checked
