-- ===== src/Mission/Payloads.antt =====
-- What dispatch_ready_tasks of services/mission/executor.py sends for a task: the record of a Hermes
-- task and its payload.
use agent_os.Prelude.{
  ℕ, String, Bool, not, ◌&&◌, Option, none, some, List, [], ◌∷◌, str_eq, if◌then◌else◌,
}
use agent_os.Text.{append, decimal}
use agent_os.Json.{Json, null, num, str, arr, obj, Items, nil, cons, Fields, end, field}
use agent_os.Mission.Tables.{MissionTask, Strategy}
use agent_os.Mission.Reports.{or_text}

-- What task:<id> holds.
pub record HermesTask : Type 0 where
  pub task_id : ℕ
  pub type : String
  pub payload : Fields
  pub status : String
  pub created_at : ℕ
  pub retries : ℕ

pub record Profile : Type 0 where
  pub skill_name : String
  pub required_tools : List String

abbrev pub profile_of : String → List String → Option Profile
profile_of skill_name required_tools =
    some (record { skill_name = skill_name; required_tools = required_tools })

-- HYBRID_CAPABILITY_PROFILES.get(name, {})
unfoldable pub capability_profile : String → Option Profile
capability_profile name =
    if str_eq name "seo"
    then profile_of "seo" ("search" ∷ "playwright" ∷ "filesystem" ∷ [])
    else if str_eq name "marketing"
    then profile_of "marketing" ("search" ∷ "filesystem" ∷ [])
    else if str_eq name "devops"
    then profile_of "devops" ("filesystem" ∷ "github" ∷ [])
    else if str_eq name "browser"
    then profile_of "browser" ("playwright" ∷ [])
    else if str_eq name "creative"
    then profile_of "creative" ("filesystem" ∷ [])
    else if str_eq name "research"
    then profile_of "research" ("search" ∷ "playwright" ∷ [])
    else none

abbrev pub executor_for : (hybrid_mode : Bool) → (requested : String) → String
executor_for hybrid_mode requested =
    if hybrid_mode && not (str_eq requested "opencode") then "opencode" else requested

-- the note of a recorded strategy; `printed` is str of its parameters
abbrev pub strategy_note : (printed : Json → String) → Option Strategy → String
strategy_note printed none = ""
strategy_note printed (some s) =
    append "\n\n[Retry strategy v"
      (append (decimal s.version) (append ": " (append (printed s.parameters) "]")))

abbrev pub tools_or : List String → Option Profile → List String
tools_or [] none = []
tools_or [] (some profile) = profile.required_tools
tools_or (tool ∷ tools) profile = tool ∷ tools

abbrev pub items_of : List String → Items
items_of [] = nil
items_of (s ∷ ss) = cons (str s) (items_of ss)

abbrev pub text_or_null : Option String → Json
text_or_null none = null
text_or_null (some s) = str s

-- a row of mission_tasks has no skill_name of its own
abbrev pub skill_of : Option Profile → Json
skill_of none = null
skill_of (some profile) = str profile.skill_name

-- What the round for a task draws: two uuid4s and the times.
pub record Draw : Type 0 where
  pub hermes_task_id : ℕ
  pub execution_id : ℕ
  pub started_at : ℕ
  pub created_at : ℕ

abbrev pub scope : (mission_id : ℕ) → MissionTask → Draw → String
scope mission_id t d =
    append (decimal mission_id)
      (append ":" (append (decimal t.task_id) (append ":" (decimal d.execution_id))))

abbrev pub common_fields : (mission_id : ℕ) → MissionTask → Draw → Fields
common_fields mission_id t d =
    field "execution_id" (num d.execution_id)
      (field "idempotency_scope" (str (scope mission_id t d)) end)

abbrev pub task_budget : Json
task_budget = obj (
    field "timeout_seconds" (num 120)
      (field "max_tool_calls" (num 50) (field "max_subagents" (num 0) end)))

abbrev pub opencode_payload :
    (mission_id : ℕ) (requested note : String) → Option Profile → MissionTask → Draw → Fields
opencode_payload mission_id requested note profile t d =
    let tools = arr (items_of (tools_or t.required_tools profile)) in
    field "instructions" (str (append t.description note)) (
      field "objective" (text_or_null t.objective) (
        field "mission_id" (num mission_id) (
          field "mission_task_id" (num t.task_id) (
            field "required_tools" tools (
              field "memory_query" (str (or_text t.objective t.description)) (
                field "capability_profile" (str requested) (
                  field "skill_name" (skill_of profile) (
                    field "capability_request"
                      (obj (
                        field "execution_id" (num d.execution_id) (
                          field "mission_id" (num mission_id) (
                            field "mission_task_id" (num t.task_id)
                              (field "required_tools" tools (field "budget" task_budget end))))))
                      (common_fields mission_id t d)))))))))

abbrev pub worker_payload : (mission_id : ℕ) (requested note : String) → MissionTask → Draw → Fields
worker_payload mission_id requested note t d = field "query" (str (append t.description note)) (
    field "mission_id" (num mission_id) (
      field "mission_task_id" (num t.task_id)
        (field "capability_profile" (str requested) (common_fields mission_id t d))))

unfoldable pub payload_for :
    (mission_id : ℕ) (executor_type requested note : String) → MissionTask → Draw → Fields
payload_for mission_id executor_type requested note t d =
    if str_eq executor_type "opencode"
    then opencode_payload mission_id requested note (capability_profile requested) t d
    else worker_payload mission_id requested note t d

abbrev pub hermes_task : (executor_type : String) → Fields → Draw → HermesTask
hermes_task executor_type payload d = record {
  task_id = d.hermes_task_id;
  type = executor_type;
  payload = payload;
  status = "queued";
  created_at = d.created_at;
  retries = 0;
}
