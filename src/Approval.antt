-- ===== src/Approval.antt =====
-- services/approval/manager.py: approvals that humans resolve. The notification that request sends
-- is I/O that touches no table and whose HTTP errors are caught.
pub mod Human
pub mod Resolution
pub mod Samples
use agent_os.Prelude.{
  ℕ, String, Bool, true, false, not, ◌&&◌, Option, none, some, List, [], ◌∷◌, str_eq, if◌then◌else◌,
  any,
}
use agent_os.Errors.{Error, Result, ok, err}
use agent_os.Exec.{Exec, pure, lift, gets, modify, require, ◌>>=◌, ◌>>◌}
use agent_os.Sql.{update_where, insert, fetchrow}
use agent_os.Sql.Keyed.{by_key}

pub data ApprovalStatus : Type 0 where
  pending approved denied : ApprovalStatus

pub record Approval : Type 0 where
  pub approval_id : ℕ
  pub task_id : ℕ
  pub agent_id : Option String
  pub action : String
  pub reason : String
  pub requested_at : ℕ
  pub status : ApprovalStatus
  pub approved_by : Option String
  pub approved_at : Option ℕ

-- The table `approvals`.
abbrev pub Approvals : Type 0
Approvals = List Approval

abbrev pub is_pending : ApprovalStatus → Bool
is_pending pending = true
is_pending approved = false
is_pending denied = false

abbrev pub new_approval :
    (approval_id now task_id : ℕ) → Option String → (action reason : String) → Approval
new_approval approval_id now task_id agent_id action reason = record {
  approval_id = approval_id;
  task_id = task_id;
  agent_id = agent_id;
  action = action;
  reason = reason;
  requested_at = now;
  status = pending;
  approved_by = none;
  approved_at = none;
}

-- `approval_id` is the uuid4 that the call draws.
unfoldable pub request :
    (approval_id now task_id : ℕ)
    → Option String
    → (action reason : String) → Exec Approvals (ℕ × ApprovalStatus)
request approval_id now task_id agent_id action reason = do
  modify (insert (new_approval approval_id now task_id agent_id action reason))
  pure (approval_id, pending)

-- the row that UPDATE … WHERE approval_id = … AND status = 'pending' finds
abbrev pub open_approval : ℕ → Approval → Bool
open_approval approval_id a = by_key (λ r. r.approval_id) approval_id a && is_pending a.status

abbrev pub settle : ApprovalStatus → String → ℕ → Approval → Approval
settle status approved_by now a = record a {
  status = status;
  approved_by = some approved_by;
  approved_at = some now;
}

-- The row that RETURNING gives back is the updated one.
abbrev pub returned : (Approval → Approval) → Option Approval → Result Approval
returned f none = err Error.lookup_error
returned f (some a) = ok (f a)

unfoldable pub update_pending : ℕ → ApprovalStatus → String → ℕ → Exec Approvals Approval
update_pending approval_id status approved_by now rows = (
  returned (settle status approved_by now) (fetchrow (open_approval approval_id) rows),
  update_where (open_approval approval_id) (settle status approved_by now) rows,
)

-- approved_by in agent_ids
unfoldable pub is_agent : String → List String → Bool
is_agent approved_by agent_ids = any (λ a. str_eq a approved_by) agent_ids

unfoldable pub decision_status : String → Result ApprovalStatus
decision_status decision =
    if str_eq decision "approve"
    then ok approved
    else if str_eq decision "deny"
    then ok denied
    else err Error.value_error

unfoldable pub resolve :
    (approval_id : ℕ) (decision approved_by : String)
    → List String
    → (now : ℕ) → Exec Approvals Approval
resolve approval_id decision approved_by agent_ids now = do
  require (not (is_agent approved_by agent_ids)) Error.permission_error
  status ← lift (decision_status decision)
  update_pending approval_id status approved_by now
