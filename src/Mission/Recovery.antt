-- ===== src/Mission/Recovery.antt =====
-- services/mission/failure_recovery.py: what a failure is, and what is done about it.
pub mod Patterns
pub mod Bounds
pub mod Recorded
pub mod Samples
use Prim.Native.String.{◌++◌}
use agent_os.Prelude.{
  ℕ, suc, String, Bool, true, false, not, ◌&&◌, Option, none, some, List, [], ◌∷◌, str_eq, ◌==◌,
  leb, if◌then◌else◌, ◌+◌,
}
use agent_os.Errors.{Result, ok, err}
use agent_os.Exec.{Exec, pure, modify, ◌>>=◌, ◌>>◌}
use agent_os.Sql.{insert}
use agent_os.Text.{chars, decimal, take_text}
use agent_os.Regex.{Unicode, Atom, search_from}
use agent_os.Mission.Tables.{Decision, Database}
use Patterns.{
  FailureCategory, model_failure, tool_failure, api_failure, network_failure,
  authentication_failure, browser_failure, code_failure, test_failure, bad_plan,
  missing_information, permission_denial, external_service_failure, timeout, resource_exhaustion,
  unknown, patterns,
}

-- category.value
abbrev pub category_text : FailureCategory → String
category_text model_failure = "model_failure"
category_text tool_failure = "tool_failure"
category_text api_failure = "api_failure"
category_text network_failure = "network_failure"
category_text authentication_failure = "authentication_failure"
category_text browser_failure = "browser_failure"
category_text code_failure = "code_failure"
category_text test_failure = "test_failure"
category_text bad_plan = "bad_plan"
category_text missing_information = "missing_information"
category_text permission_denial = "permission_denial"
category_text external_service_failure = "external_service_failure"
category_text timeout = "timeout"
category_text resource_exhaustion = "resource_exhaustion"
category_text unknown = "unknown"

-- canonical_class
abbrev pub canonical_class : FailureCategory → String
canonical_class model_failure = "model_error"
canonical_class tool_failure = "tool_failure"
canonical_class api_failure = "validation"
canonical_class network_failure = "network"
canonical_class authentication_failure = "authentication"
canonical_class browser_failure = "browser_failure"
canonical_class code_failure = "logic_error"
canonical_class test_failure = "logic_error"
canonical_class bad_plan = "logic_error"
canonical_class missing_information = "data_error"
canonical_class permission_denial = "authorization"
canonical_class external_service_failure = "dependency_unavailable"
canonical_class timeout = "timeout"
canonical_class resource_exhaustion = "rate_limit"
canonical_class unknown = "unknown"

-- category in _REQUIRES_STRATEGY_CHANGE
abbrev pub requires_strategy_change : FailureCategory → Bool
requires_strategy_change authentication_failure = true
requires_strategy_change permission_denial = true
requires_strategy_change bad_plan = true
requires_strategy_change missing_information = true
requires_strategy_change _ = false

-- category in _NEVER_AUTO_RETRY
abbrev pub never_auto_retry : FailureCategory → Bool
never_auto_retry permission_denial = true
never_auto_retry _ = false

unfoldable pub first_category :
    Unicode → List (FailureCategory × List (List Atom)) → List ℕ → FailureCategory
first_category unicode [] error_text = unknown
first_category unicode ((category, alternatives) ∷ rest) error_text =
    if search_from unicode alternatives false error_text
    then category
    else first_category unicode rest error_text

unfoldable pub classify : Unicode → String → FailureCategory
classify unicode error_text = first_category unicode patterns (chars error_text)

pub data Action : Type 0 where
  retry retry_with_strategy_change escalate : Action

pub record Decided : Type 0 where
  pub action : Action
  pub reason : String

unfoldable pub decide : FailureCategory → (retry_count max_retries : ℕ) → Decided
decide category retry_count max_retries =
    if never_auto_retry category
    then record {
      action = escalate;
      reason = category_text category ++ " requires human review, never auto-retried";
    }
    else if leb max_retries retry_count
    then record {
      action = escalate;
      reason = "exhausted " ++ (decimal max_retries ++ (" retries for " ++ category_text category));
    }
    else if requires_strategy_change category
    then record {
      action = retry_with_strategy_change;
      reason = category_text category ++ " rarely resolves by repeating the identical action";
    }
    else record { action = retry; reason = category_text category ++ " may be transient" }

abbrev pub differs_from : String → Option String → Bool
differs_from text none = true
differs_from text (some other) = not (str_eq text other)

-- new_strategy and new_strategy != previous_strategy
abbrev pub decision_type : (previous new : Option String) → String
decision_type previous none = "retry"
decision_type previous (some text) =
    if not (str_eq text "") && differs_from text previous then "strategy_change" else "retry"

abbrev pub decision_reason : FailureCategory → (failed_step error_context : String) → ℕ → String
decision_reason category failed_step error_context retry_number =
    "["
    ++ (category_text category
        ++ ("] failed_step="
            ++ (failed_step
                ++ (" retry#" ++ (decimal retry_number ++ (": " ++ take_text 500 error_context))))))

-- `decision_id` is the uuid4 that the call draws.
unfoldable pub record_decision :
    (decision_id now mission_id : ℕ)
    → Option ℕ
    → FailureCategory
    → (failed_step error_context : String) → (previous_strategy new_strategy : Option String)
    → (retry_number : ℕ) → Exec Database (ℕ × String)
record_decision decision_id now mission_id task_id category failed_step error_context previous new
      retry_number =
    do
      modify (λ db. record db {
        decisions =
            insert
              (record {
                decision_id = decision_id;
                mission_id = mission_id;
                task_id = task_id;
                decision_type = decision_type previous new;
                reason = decision_reason category failed_step error_context retry_number;
                previous_strategy = previous;
                new_strategy = new;
                created_at = now;
              })
              db.decisions;
      })
      pure (decision_id, decision_type previous new)

pub record Diagnosis : Type 0 where
  pub category : FailureCategory
  pub action : Action
  pub reason : String
  pub new_strategy : Option String
  pub decision_id : ℕ

abbrev pub revised : Action → FailureCategory → Option String
revised retry_with_strategy_change category = some (
    "revised approach after "
    ++ (category_text category
        ++ ": incorporate the failure reason into the next attempt's instructions rather than repeating them unchanged"))
revised _ category = none

unfoldable pub diagnose_and_decide :
    Unicode
    → (decision_id now mission_id task_id : ℕ) → (failed_step error_text : String)
    → (retry_count max_retries : ℕ) → (previous_strategy : Option String) → Exec Database Diagnosis
diagnose_and_decide unicode decision_id now mission_id task_id failed_step error_text retry_count
      max_retries previous =
    let category = classify unicode error_text in
    let decided = decide category retry_count max_retries in
    let new = revised decided.action category in
    do
      recorded ←
          record_decision decision_id now mission_id (some task_id) category failed_step error_text
            previous new (retry_count + 1)
      pure (record {
        category = category;
        action = decided.action;
        reason = decided.reason;
        new_strategy = new;
        decision_id = recorded.0;
      })
