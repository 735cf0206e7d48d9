-- ===== src/Mission/Dispatch/Samples.antt =====
-- Runs of dispatch_ready_tasks and recover_after_restart of services/mission/executor.py, and their
-- theorems at them.
use agent_os.Prelude.{
  String, ◌≡◌, refl, true, false, Option, none, some, [], ◌∷◌, str_eq, if◌then◌else◌, arith,
}
use agent_os.Errors.{ok, err, runtime_error, type_error, data_error}
use agent_os.Text.{decimal, decimal_digits}
use agent_os.Mission.Ids.{texts, uuid_objects}
use agent_os.Mission.Tables.{MissionTask}
use agent_os.Mission.Tables.Status.{pending, passed, dispatched, same_task, same_mission}
use agent_os.Mission.Control.{list_active, get_mission, is_active, comes_first}
use agent_os.Mission.TaskGraph.{
  claim_for_dispatch, update_status, check_update, get_task, compare_and_set, may_update,
  ready_tasks, all_tasks, higher_priority,
}
use agent_os.Mission.TaskGraph.Samples.{task, plan}
use agent_os.Mission.Costs.{check_budget}
use agent_os.Mission.Strategy.{get_current_strategy, latest}
use agent_os.Mission.Verdict.Samples.{mission}
use agent_os.Mission.Payloads.{Draw, capability_profile, payload_for}
use agent_os.Mission.Dispatch.{
  Hub, Setting, no_fault, at_push, dispatch_task, dispatch_all, dispatch_ready_tasks,
}
use agent_os.Mission.Restart.{
  reconcile, reconcile_tasks, reconcile_missions, recover_after_restart, requeued,
}
use agent_os.Mission.Restart.Reconciled.{IsSteady, reconcile-IsSteady}

program : Unit {0}
unfolding decimal decimal_digits same_task same_mission list_active get_mission is_active
    comes_first claim_for_dispatch update_status check_update get_task compare_and_set may_update
    ready_tasks all_tasks higher_priority check_budget get_current_strategy latest
    capability_profile payload_for dispatch_task dispatch_all dispatch_ready_tasks reconcile
    reconcile_tasks reconcile_missions recover_after_restart
program = tt

abbrev queues : String → Option String
queues name = if str_eq name "opencode" then some "queue:opencode" else none

abbrev draw : MissionTask → Draw
draw t = record {
  hermes_task_id = t.task_id;
  execution_id = t.task_id;
  started_at = 9;
  created_at = 9;
}

abbrev setting : Setting
setting = record {
  driver = texts;
  hybrid_mode = true;
  queues = queues;
  printed = λ v. "{}";
  draw = draw;
  fault = λ t. no_fault;
}

abbrev broken : Setting
broken = record setting { fault = λ t. at_push runtime_error }

abbrev hub : Hub
hub = record {
  db = record plan { missions = mission ∷ [] };
  records = λ id. none;
  queues = λ name. [];
}

two_dispatched :
    ((dispatch_ready_tasks setting 1 9 hub).0 ≡ ok (3 ∷ 2 ∷ []))
    × ((dispatch_ready_tasks setting 1 9 hub).1.queues "queue:opencode" ≡ 2 ∷ 3 ∷ [])
unfolding program
two_dispatched = (refl, refl)

broken_raises :
    ((dispatch_ready_tasks broken 1 9 hub).0 ≡ err runtime_error)
    × ((dispatch_ready_tasks broken 1 9 hub).1.queues "queue:opencode" ≡ [])
unfolding program
broken_raises = (refl, refl)

-- Where the driver returns uuid.UUID objects, a task without dependencies is claimed, and then
-- json.dumps raises: nothing is sent, and the task is pending again.
abbrev fresh_hub : Hub
fresh_hub = record hub {
  db = record plan { missions = mission ∷ []; tasks = task 1 1 [] pending ∷ [] };
}

abbrev with_objects : Setting
with_objects = record setting { driver = uuid_objects }

objects_cannot_be_sent : (dispatch_ready_tasks with_objects 1 9 fresh_hub).0 ≡ err type_error
unfolding program
objects_cannot_be_sent = refl

-- The queue is lost in the restart, the record and the row are not.
abbrev restarted : Hub
restarted = record (dispatch_ready_tasks setting 1 9 hub).1 { queues = λ name. [] }

requeued_after_restart :
    (recover_after_restart texts queues restarted).0 ≡ ok (requeued 2 false ∷ requeued 3 false ∷ [])
unfolding program
requeued_after_restart = refl

objects_cannot_be_requeued :
    (recover_after_restart uuid_objects queues restarted).0 ≡ err data_error
unfolding program
objects_cannot_be_requeued = refl

abbrev flying : MissionTask
flying = record (task 2 1 (1 ∷ []) dispatched) { hermes_task_id = some 7 }

abbrev crashed : Hub
crashed = record hub { db = record plan { tasks = task 1 1 [] passed ∷ flying ∷ [] } }

reconcile-IsSteady_example : IsSteady texts queues flying (reconcile texts queues flying crashed).1
reconcile-IsSteady_example = reconcile-IsSteady texts queues flying crashed (omega arith) refl
