-- ===== src/Mission/Reports/Samples.antt =====
-- Runs of the reports in services/mission/executor.py, and its theorems at them.
use agent_os.Prelude.{String, ◌≡◌, refl, true, false, none, some, [], ◌∷◌, arith}
use agent_os.Errors.{ok, err, invalid_task_transition}
use agent_os.Text.{decimal, decimal_digits, take_text}
use agent_os.Regex.{Unicode, match_here, search_from}
use agent_os.Json.{field, end, num, json_eq, fields_in}
use agent_os.Mission.Tables.{MissionTask, Database}
use agent_os.Mission.Tables.Status.{
  dispatched, pending, verified, same_task, same_mission, same_evidence,
}
use agent_os.Mission.Control.{may_transition, get_mission, check_transition, transition}
use agent_os.Mission.TaskGraph.{
  get_task, all_tasks, compare_and_set, check_update, update_status, may_update, task_allowed,
  set_task,
}
use agent_os.Mission.TaskGraph.Updates.{TaskKeys, task_row}
use agent_os.Mission.Evidence.{
  find_kind, parse_kind, record_claim, verify, mark_pending, mark_failed,
}
use agent_os.Mission.Pipeline.{
  test_verifier, unavailable, checked, Verifiers, registry, conclude, run_registered,
  claim_and_verify, reported,
}
use agent_os.Mission.Pipeline.Confirmed.{Confirmed}
use agent_os.Mission.Recovery.{
  first_category, classify, decide, record_decision, diagnose_and_decide,
}
use agent_os.Mission.Strategy.{
  latest, get_current_strategy, is_unchanged, new_strategy, record_strategy,
}
use agent_os.Mission.Strategy.Templates.{templates, next_template}
use agent_os.Mission.Reports.{
  HermesRecord, Drawn, advance, or_empty, verification_spec, after_strategy, change_strategy,
  requeue, react, fail, settle, process_completed_hermes_task, in_progress, check_mission_progress,
}
use agent_os.Mission.Reports.Exhausted.{retry_fields, stale_strategy_raises}
use agent_os.Mission.Reports.Advance.{advance-Confirmed}

program : Unit {0}
unfolding decimal decimal_digits take_text match_here search_from json_eq fields_in same_task
    same_mission same_evidence may_transition get_mission check_transition transition get_task
    all_tasks compare_and_set check_update update_status may_update task_allowed find_kind
    parse_kind record_claim verify mark_pending mark_failed registry conclude run_registered
    claim_and_verify first_category classify decide record_decision diagnose_and_decide latest
    get_current_strategy is_unchanged record_strategy templates next_template verification_spec
    after_strategy change_strategy requeue react fail settle process_completed_hermes_task
    check_mission_progress
program = tt

abbrev ascii : Unicode
ascii = record { alphanumeric = λ c. false; decimal = λ c. false }

abbrev drawn : Drawn
drawn = record {
  evidence_id = 50;
  decision_id = 60;
  strategy_id = 70;
  now = 9;
  claim = "exit code 0";
  verdict_text = "fail";
  printed = λ report. "not verified";
  unchanged_text = "unchanged";
}

-- A task that was dispatched and has failed once before.
abbrev fetch : MissionTask
fetch = record {
  task_id = 7;
  mission_id = 1;
  description = "fetch the page";
  objective = none;
  dependencies = [];
  priority = 5;
  status = dispatched;
  assigned_executor = none;
  required_tools = [];
  success_criteria = [];
  verification_method = none;
  retry_count = 1;
  max_retries = 3;
  hermes_task_id = some 30;
  execution_id = some 31;
  outputs = none;
  errors = [];
  started_at = some 4;
  completed_at = none;
}

abbrev running_mission : Database
running_mission = record {
  missions = [];
  tasks = fetch ∷ [];
  evidence = [];
  strategies = new_strategy 2 6 7 "401" (next_template "authentication_failure" 1) none ∷ [];
  decisions = [];
  cost_events = [];
}

running_mission-keys : TaskKeys running_mission
running_mission-keys = omega arith

stale_strategy_raises_example :
    let (result, after) = fail ascii drawn 7 fetch "401 Unauthorized" running_mission in
    (result ≡ err invalid_task_transition)
    × (after.missions ≡ running_mission.missions)
    × (task_row 7 after ≡ some (set_task pending (retry_fields fetch "401 Unauthorized") fetch))
unfolding program
stale_strategy_raises_example =
    stale_strategy_raises ascii drawn 7 fetch "401 Unauthorized" running_mission
      running_mission-keys refl refl refl refl

still_in_progress : (check_mission_progress 1 running_mission).0 ≡ ok in_progress
unfolding program
still_in_progress = refl

abbrev world : Verifiers
world test_verifier claim context =
    checked (record { passed = true; detail = context; evidence_hash = none })
world _ claim context = unavailable "no network"

abbrev success : HermesRecord
success = record { result = some (field "exit_code" (num 0) end); last_error = none }

task_advances :
    (process_completed_hermes_task ascii world drawn 7 success "pass" running_mission).0
    ≡ ok (advance (reported 50 verified))
unfolding program
task_advances = refl

advance-Confirmed_example :
    (◌≡◌ {A = String} "pass" "pass")
    × (verified ≡ verified)
    × Confirmed world
        (verification_spec (or_empty success.result)).0
        "exit code 0"
        (verification_spec (or_empty success.result)).1
advance-Confirmed_example =
    advance-Confirmed ascii world drawn 7 success "pass" (reported 50 verified) running_mission
      task_advances
