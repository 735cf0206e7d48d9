-- ===== src/Mission/Tables.antt =====
-- The tables of migrations/002_mission_control.sql and 003_evidence_verification.sql, a record for
-- each row. Identifiers (uuid) and times are numbers, JSONB columns hold decoded values, and money
-- is counted in millionths of a dollar (NUMERIC(12,6)).
pub mod Status
use agent_os.Prelude.{ℕ, String, Bool, Option, List}
use agent_os.Json.{Json}
use Status.{MissionStatus, TaskStatus, EvidenceKind, EvidenceStatus}

pub record Budget : Type 0 where
  pub max_cost : Option ℕ
  pub max_tokens : Option ℕ

pub record Mission : Type 0 where
  pub mission_id : ℕ
  pub user_goal : String
  pub objective : Option String
  pub constraints : Json
  pub success_criteria : List String
  pub budget : Budget
  pub deadline : Option ℕ
  pub priority : ℕ
  pub current_phase : String
  pub status : MissionStatus
  pub retry_count : ℕ
  pub max_retries : ℕ
  pub final_verification : Option Json
  pub created_at : ℕ
  pub updated_at : ℕ

pub record MissionTask : Type 0 where
  pub task_id : ℕ
  pub mission_id : ℕ
  pub description : String
  pub objective : Option String
  pub dependencies : List ℕ
  pub priority : ℕ
  pub status : TaskStatus
  pub assigned_executor : Option String
  pub required_tools : List String
  pub success_criteria : List String
  pub verification_method : Option String
  pub retry_count : ℕ
  pub max_retries : ℕ
  pub hermes_task_id : Option ℕ
  pub execution_id : Option ℕ
  pub outputs : Option Json
  pub errors : List String
  pub started_at : Option ℕ
  pub completed_at : Option ℕ

pub record Evidence : Type 0 where
  pub evidence_id : ℕ
  pub mission_id : ℕ
  pub task_id : Option ℕ
  pub kind : EvidenceKind
  pub claim : String
  pub verified : Bool
  pub status : EvidenceStatus
  pub verification_detail : Json
  pub r2_key : Option String
  pub verifier : Option String
  pub verified_at : Option ℕ
  pub evidence_hash : Option String
  pub created_at : ℕ

pub record Strategy : Type 0 where
  pub strategy_id : ℕ
  pub task_id : ℕ
  pub version : ℕ
  pub reason : String
  pub parameters : Json
  pub previous_strategy_id : Option ℕ
  pub created_at : ℕ

pub record Decision : Type 0 where
  pub decision_id : ℕ
  pub mission_id : ℕ
  pub task_id : Option ℕ
  pub decision_type : String
  pub reason : String
  pub previous_strategy : Option String
  pub new_strategy : Option String
  pub created_at : ℕ

pub record CostEvent : Type 0 where
  pub cost_event_id : ℕ
  pub mission_id : ℕ
  pub task_id : Option ℕ
  pub model : String
  pub prompt_tokens : ℕ
  pub completion_tokens : ℕ
  pub estimated_cost : ℕ
  pub created_at : ℕ

pub record Database : Type 0 where
  pub missions : List Mission
  pub tasks : List MissionTask
  pub evidence : List Evidence
  pub strategies : List Strategy
  pub decisions : List Decision
  pub cost_events : List CostEvent
