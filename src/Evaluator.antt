-- ===== src/Evaluator.antt =====
-- services/evaluator/evaluator.py: the checks that a worker's result passes. Quality is counted in
-- millionths; what the model answers, read as a number, is an argument.
pub mod Verdicts
pub mod Samples
use agent_os.Prelude.{
  ℕ, String, Bool, true, false, not, ◌&&◌, ◌||◌, Option, none, some, List, [], ◌∷◌, str_eq, leb,
  ltb, if◌then◌else◌,
}
use agent_os.Errors.{Error, Result, ok, err}
use agent_os.Exec.{Exec, pure, lift, modify, ◌>>=◌, ◌>>◌}
use agent_os.Sql.{insert}
use agent_os.Json.{Json, str, arr, nil, cons, obj, Fields, field, end, lookup}
use agent_os.Policy.{Configuration, evaluate}

pub data Verdict : Type 0 where
  pass fail retry require_human : Verdict

-- The task record; `payload_text` is json.dumps of its payload.
pub record WorkerTask : Type 0 where
  pub task_id : ℕ
  pub type : String
  pub status : String
  pub result : Option Fields
  pub last_error : Option String
  pub retries : ℕ
  pub payload_text : String

pub record Checks : Type 0 where
  pub completion : Bool
  pub no_errors : Bool
  pub evidence : Bool
  pub policy_compliance : Bool
  pub quality_score : Option ℕ

pub record Evaluation : Type 0 where
  pub evaluation_id : ℕ
  pub task_id : ℕ
  pub verdict : Verdict
  pub checks : Checks
  pub created_at : ℕ

abbrev pub max_auto_retries : ℕ
max_auto_retries = 3

abbrev pub has_result : Option Fields → Bool
has_result none = false
has_result (some fields) = true

abbrev pub no_text : Option String → Bool
no_text none = true
no_text (some text) = str_eq text ""

-- task.get("result") or {}
abbrev pub fields_or_empty : Option Fields → Fields
fields_or_empty none = end
fields_or_empty (some fields) = fields

-- len(sources) > 0, for what .get("sources", []) gives; len of anything else is a TypeError
abbrev pub is_filled : Option Json → Result Bool
is_filled none = ok false
is_filled (some (arr nil)) = ok false
is_filled (some (arr (cons x xs))) = ok true
is_filled (some (obj end)) = ok false
is_filled (some (obj (field k v fs))) = ok true
is_filled (some (str text)) = ok (not (str_eq text ""))
is_filled (some _) = err Error.type_error

abbrev pub check_evidence : WorkerTask → Result Bool
check_evidence task =
    if str_eq task.type "research"
    then is_filled (lookup "sources" (fields_or_empty task.result))
    else ok true

-- Without a policy engine the check passes.
abbrev pub complies : Option Configuration → WorkerTask → Bool
complies none task = true
complies (some config) task =
    if str_eq task.type "creative"
    then not (str_eq (evaluate config "EXTERNAL_POST" task.payload_text).result "DENY")
    else true

-- _grade_quality: what the model's answer reads as, `none` if it cannot be read
abbrev pub grade_quality : Option ℕ → ℕ
grade_quality none = 500000
grade_quality (some score) = if leb score 1000000 then score else 1000000

-- Without a route to a model there is no score.
abbrev pub quality : Option (Option ℕ) → Bool → Option ℕ
quality none completion = none
quality (some answer) completion = if completion then some (grade_quality answer) else none

abbrev pub is_low : Option ℕ → Bool
is_low none = false
is_low (some score) = ltb score 500000

unfoldable pub decide : Checks → (retries : ℕ) → Verdict
decide checks retries =
    if not checks.completion || not checks.no_errors
    then (if leb max_auto_retries retries then require_human else retry)
    else if not checks.evidence || not checks.policy_compliance
    then fail
    else if is_low checks.quality_score
    then (if ltb retries max_auto_retries then retry else require_human)
    else pass

abbrev pub checks_of :
    Option Configuration → Option (Option ℕ) → WorkerTask → (evidence : Bool) → Checks
checks_of config answer task evidence =
    let completion = str_eq task.status "completed" && has_result task.result in
    record {
      completion = completion;
      no_errors = no_text task.last_error;
      evidence = evidence;
      policy_compliance = complies config task;
      quality_score = quality answer completion;
    }

-- `evaluation_id` is the uuid4 that the call draws.
unfoldable pub evaluate_task :
    Option Configuration
    → Option (Option ℕ)
    → (evaluation_id now : ℕ) → WorkerTask
    → Exec (List Evaluation) (Verdict × Checks)
evaluate_task config answer evaluation_id now task = do
  evidence ← lift (check_evidence task)
  (let checks = checks_of config answer task evidence in
      let verdict = decide checks task.retries in
      modify (
        insert (record {
          evaluation_id = evaluation_id;
          task_id = task.task_id;
          verdict = verdict;
          checks = checks;
          created_at = now;
        }))
      >> pure (verdict, checks))
