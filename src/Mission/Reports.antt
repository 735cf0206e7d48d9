-- ===== src/Mission/Reports.antt =====
-- process_completed_hermes_task and check_mission_progress of services/mission/executor.py: how a
-- mission reacts to the report on one of its tasks. The texts that json.dumps and str make of
-- dicts, and the identifiers that the call draws, are arguments. Progress files are I/O.
pub mod Exhausted
pub mod Advance
pub mod Samples
use Prim.Native.String.{◌++◌}
use agent_os.Prelude.{
  ℕ, suc, String, Bool, true, false, not, ◌&&◌, ◌||◌, Option, none, some, List, [], ◌∷◌, str_eq,
  if◌then◌else◌, ◌+◌, all, any,
}
use agent_os.Errors.{Error, Result, ok, err, strategy_not_changed}
use agent_os.Exec.{Exec, pure, raise, lift, gets, ◌>>=◌, ◌>>◌}
use agent_os.Json.{Json, null, num, str, obj, Fields, field, end, lookup, truthy}
use agent_os.Regex.{Unicode}
use agent_os.Mission.Tables.{MissionTask, Database}
use agent_os.Mission.Tables.Status.{
  TaskStatus, pending, verifying, passed, blocked, skipped, verified, verification_pending,
  EvidenceStatus, same_task,
}
use agent_os.Mission.Control.{transition}
use agent_os.Mission.TaskGraph.{TaskFields, no_fields, get_task, update_status, all_tasks}
use agent_os.Mission.Pipeline.{Verifiers, Report, claim_and_verify}
use agent_os.Mission.Recovery.{
  Action, retry, retry_with_strategy_change, escalate, Diagnosis, category_text,
  diagnose_and_decide,
}
use agent_os.Mission.Strategy.{record_strategy}
use agent_os.Mission.Strategy.Templates.{next_template}

-- The record of the Hermes task: its result, if it has one, and its last error.
pub record HermesRecord : Type 0 where
  pub result : Option Fields
  pub last_error : Option String

-- What the call draws (uuid4, now) and what it prints: json.dumps of the result, cut at 2000
-- characters, and of the verdict, str of a verification, and str of a StrategyNotChangedError.
pub record Drawn : Type 0 where
  pub evidence_id : ℕ
  pub decision_id : ℕ
  pub strategy_id : ℕ
  pub now : ℕ
  pub claim : String
  pub verdict_text : String
  pub printed : Report → String
  pub unchanged_text : String

pub data Reaction : Type 0 where
  advance await_verification : Report → Reaction
  retried escalated exhausted : Diagnosis → Reaction

-- `x or default`, for a text that may be missing
abbrev pub or_text : Option String → String → String
or_text none default = default
or_text (some text) default = if str_eq text "" then default else text

-- hermes_task_record.get("result") or {}
abbrev pub or_empty : Option Fields → Fields
or_empty none = end
or_empty (some fields) = fields

-- d.get(key, default)
abbrev pub get_or : Json → Option Json → Json
get_or default none = default
get_or default (some v) = v

abbrev pub has : Option Json → Bool
has none = false
has (some v) = true

-- d.get(key), as a condition
abbrev pub has_truthy : Option Json → Bool
has_truthy none = false
has_truthy (some v) = truthy v

-- _verification_spec: the kind of evidence and the verifier's context
unfoldable pub verification_spec : Fields → String × Json
verification_spec result =
    if has (lookup "exit_code" result)
    then (
      "test_result",
      obj (
          field "exit_code" (get_or null (lookup "exit_code" result)) (
            field "stdout" (get_or (str "") (lookup "stdout" result)) (
              field "tests_passed" (get_or (num 0) (lookup "tests_passed" result))
                (field "tests_failed" (get_or (num 0) (lookup "tests_failed" result)) end)))),
    )
    else if has_truthy (lookup "sources" result)
    then ("source_reference", obj (field "sources" (get_or null (lookup "sources" result)) end))
    else if has_truthy (lookup "r2_key" result)
    then (
      "screenshot_ref",
      obj (
          field "r2_key" (get_or null (lookup "r2_key" result))
            (field "bucket" (get_or null (lookup "r2_bucket" result)) end)),
    )
    else if has_truthy (lookup "url" result)
    then (
      "http_health_check",
      obj (
          field "url" (get_or null (lookup "url" result))
            (field "expected_status" (get_or (num 200) (lookup "status_code" result)) end)),
    )
    else ("test_result", obj end)

abbrev pub or_type_error : Option MissionTask → Result MissionTask
or_type_error none = err Error.type_error
or_type_error (some t) = ok t

-- outputs=hermes_task_record.get("result")
abbrev pub output_of : Option Fields → Option Json
output_of none = none
output_of (some fields) = some (obj fields)

abbrev pub failing : List String → TaskFields
failing errors = record no_fields { errors = some errors }

-- The call of record_strategy inside `try`: its end as a value.
abbrev pub attempt : {A : Type 0} → Exec Database A → Exec Database (Result A)
attempt call db = let (result, after) = call db in (ok result, after)

-- What follows it: the handler of StrategyNotChangedError, and other errors pass.
unfoldable pub after_strategy :
    Drawn → ℕ → MissionTask → String → Diagnosis → Result (ℕ × ℕ) → Exec Database Reaction
after_strategy drawn task_id t error_text diagnosis (ok recorded) = pure (retried diagnosis)
after_strategy drawn task_id t error_text diagnosis (err strategy_not_changed) = do
  update_status task_id blocked (failing (error_text ∷ drawn.unchanged_text ∷ []))
  transition t.mission_id "BLOCKED" (some "strategy_options_exhausted") drawn.now
  pure (exhausted diagnosis)
after_strategy drawn task_id t error_text diagnosis (err e) = raise e

unfoldable pub change_strategy :
    Drawn → ℕ → MissionTask → String → Diagnosis → Option String → Exec Database Reaction
change_strategy drawn task_id t error_text diagnosis none = pure (retried diagnosis)
change_strategy drawn task_id t error_text diagnosis (some text) =
    if str_eq text "" then pure (retried diagnosis) else (do
      result ← attempt (
          record_strategy drawn.strategy_id drawn.now task_id diagnosis.reason
            (next_template (category_text diagnosis.category) t.retry_count) true)
      after_strategy drawn task_id t error_text diagnosis result)

unfoldable pub requeue : Drawn → ℕ → MissionTask → String → Diagnosis → Exec Database Reaction
requeue drawn task_id t error_text diagnosis = do
  update_status task_id pending
      (record (failing (error_text ∷ [])) { retry_count = some (t.retry_count + 1) })
  change_strategy drawn task_id t error_text diagnosis diagnosis.new_strategy

unfoldable pub react :
    Drawn → ℕ → MissionTask → String → Diagnosis → Action → Exec Database Reaction
react drawn task_id t error_text diagnosis escalate = do
  update_status task_id blocked (failing (error_text ∷ []))
  transition t.mission_id "BLOCKED" (some ("task_escalated:" ++ category_text diagnosis.category))
      drawn.now
  pure (escalated diagnosis)
react drawn task_id t error_text diagnosis _ = requeue drawn task_id t error_text diagnosis

unfoldable pub fail : Unicode → Drawn → ℕ → MissionTask → String → Exec Database Reaction
fail unicode drawn task_id t error_text = do
  diagnosis ←
      diagnose_and_decide unicode drawn.decision_id drawn.now t.mission_id task_id t.description
        error_text t.retry_count t.max_retries none
  react drawn task_id t error_text diagnosis diagnosis.action

-- What a verification leads to.
unfoldable pub settle :
    Unicode
    → Drawn
    → ℕ
    → MissionTask
    → Option Fields
    → Report
    → EvidenceStatus
    → Exec Database Reaction
settle unicode drawn task_id t result report verified = do
  update_status task_id passed
      (record no_fields { outputs = some (output_of result); completed_at = some (some drawn.now) })
  pure (advance report)
settle unicode drawn task_id t result report verification_pending = do
  update_status task_id verifying (record no_fields { outputs = some (output_of result) })
  pure (await_verification report)
settle unicode drawn task_id t result report _ =
    fail unicode drawn task_id t ("independent verification failed: " ++ drawn.printed report)

unfoldable pub process_completed_hermes_task :
    Unicode
    → Verifiers
    → Drawn
    → (task_id : ℕ) → HermesRecord
    → (verdict : String) → Exec Database Reaction
process_completed_hermes_task unicode verifiers drawn task_id hermes verdict = do
  row ← get_task task_id
  t ← lift (or_type_error row)
  if str_eq verdict "pass"
      then (do
        report ←
            (let (kind, context) = verification_spec (or_empty hermes.result) in
              claim_and_verify verifiers drawn.evidence_id drawn.now t.mission_id (some task_id)
                kind drawn.claim context)
        settle unicode drawn task_id t hermes.result report report.status)
      else fail unicode drawn task_id t (or_text hermes.last_error drawn.verdict_text)

pub data Progress : Type 0 where
  no_tasks all_passed stuck_blocked in_progress : Progress

abbrev pub progress_of : List MissionTask → Progress
progress_of [] = no_tasks
progress_of (t ∷ ts) =
    let tasks = t ∷ ts in
    if all (λ x. same_task x.status passed || same_task x.status skipped) tasks
    then all_passed
    else if any (λ x. same_task x.status blocked) tasks
        && all
            (λ x.
              same_task x.status blocked
              || (same_task x.status passed || same_task x.status skipped))
            tasks
    then stuck_blocked
    else in_progress

unfoldable pub check_mission_progress : ℕ → Exec Database Progress
check_mission_progress mission_id = do tasks ← all_tasks mission_id; pure (progress_of tasks)
