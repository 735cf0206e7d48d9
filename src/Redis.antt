-- ===== src/Redis.antt =====
-- What the workers and Hermes share in Redis: task records, locks, markers and lists, the leftmost
-- element first. A list command is atomic; an expired key is a missing one.
use agent_os.Prelude.{
  ℕ, zero, suc, String, Bool, Option, none, some, List, [], ◌∷◌, ◌==◌, if◌then◌else◌,
}
use agent_os.Json.{Json, Fields}

-- The `status` of a task record.
pub data WorkStatus : Type 0 where
  queued running completed failed cancelled : WorkStatus
  other_status : String → WorkStatus

-- What task:<id> holds, decoded. A key that a dict may lack is an option.
pub record Task : Type 0 where
  pub task_id : ℕ
  pub type : String
  pub payload : Fields
  pub status : WorkStatus
  pub retries : Option ℕ
  pub worker_id : Option String
  pub started_at : Option ℕ
  pub completed_at : Option ℕ
  pub last_error : Option String
  pub result : Option Json

-- A lifecycle event.
pub record Event : Type 0 where
  pub event_type : String
  pub task_id : ℕ
  pub worker_type : String
  pub status : WorkStatus
  pub retries : Option ℕ
  pub error : Option String

-- The keys task:<id>, task-lock:<id> and result-consumed:<id>; the queue of one worker type with
-- its processing list, queue:results with its own, queue:failed and queue:task_events.
pub record Redis : Type 0 where
  pub tasks : ℕ → Option Task
  pub locks : ℕ → Option ℕ
  pub consumed : ℕ → Bool
  pub queue : List ℕ
  pub processing : List ℕ
  pub results : List ℕ
  pub results_processing : List ℕ
  pub failures : List ℕ
  pub events : List Event

module _ {A : Type 0} where
  -- SET, and DEL when the value is the missing one
  abbrev pub put : ℕ → A → (ℕ → A) → ℕ → A
  put k v f j = if j == k then v else f j

  -- LTRIM key 0 n-1
  unfoldable pub ltrim : (n : ℕ) → List A → List A
  ltrim zero xs = []
  ltrim (suc n) [] = []
  ltrim (suc n) (x ∷ xs) = x ∷ ltrim n xs

-- LREM key 1 v
unfoldable pub lrem : ℕ → List ℕ → List ℕ
lrem v [] = []
lrem v (x ∷ xs) = if x == v then xs else x ∷ lrem v xs

-- RPOP: the last element and what is left
unfoldable pub rpop : List ℕ → Option (ℕ × List ℕ)
rpop [] = none
rpop (x ∷ xs) = elim (rpop xs) [ none ↦ some (x, []) | some (last, front) ↦ some (last, x ∷ front) ]
