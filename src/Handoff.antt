-- ===== src/Handoff.antt =====
-- services/handoff/manager.py: work that one worker hands to another through Hermes.
pub mod Rounds
pub mod Samples
use agent_os.Prelude.{
  ℕ, suc, String, Bool, true, false, not, Option, none, some, List, [], ◌∷◌, leb, if◌then◌else◌,
  ◌+◌, ◌==◌,
}
use agent_os.Errors.{Error, Result, ok, err}
use agent_os.Exec.{Exec, pure, lift, gets, modify, require, ◌>>=◌, ◌>>◌}
use agent_os.Sql.{update_where, insert, fetchrow}
use agent_os.Sql.Keyed.{by_key}
use agent_os.Json.{Json, bool, num, arr, Items, Fields, lookup, assign, to_number}

pub data HandoffStatus : Type 0 where
  pending accepted completed rejected : HandoffStatus

-- A row of `handoffs`; the JSON columns hold decoded values.
pub record Handoff : Type 0 where
  pub handoff_id : ℕ
  pub task_id : ℕ
  pub source_agent : String
  pub target_agent : String
  pub context : Fields
  pub artifacts : Items
  pub requirements : Fields
  pub constraints : Fields
  pub status : HandoffStatus
  pub created_at : ℕ

-- What is stored under the key task:<id> of Redis.
pub record TaskRecord : Type 0 where
  pub task_id : ℕ
  pub parent_task_id : ℕ
  pub type : String
  pub payload : Fields
  pub status : String
  pub created_at : ℕ
  pub retries : ℕ

-- The table, the task records and the pushes on the queues of Redis, latest first.
pub record Desk : Type 0 where
  pub handoffs : List Handoff
  pub tasks : List TaskRecord
  pub pushes : List (String × ℕ)

abbrev pub max_inline_context_bytes : ℕ
max_inline_context_bytes = 2000

abbrev pub max_handoff_retries : ℕ
max_handoff_retries = 2

abbrev pub is_pending : HandoffStatus → Bool
is_pending pending = true
is_pending _ = false

abbrev pub by_handoff : ℕ → Handoff → Bool
by_handoff = by_key (λ h. h.handoff_id)

-- `size` is the length in bytes of json.dumps of the context; `handoff_id` the uuid4 that the call
-- draws. A missing argument is an empty list or dict.
unfoldable pub create_handoff :
    (size : Fields → ℕ) (handoff_id now task_id : ℕ) (source_worker target_worker : String)
    → Fields
    → Items
    → Fields
    → Fields
    → Exec Desk ℕ
create_handoff size handoff_id now task_id source_worker target_worker context artifacts
      requirements constraints =
    do
      require (leb (size context) max_inline_context_bytes) Error.handoff_error
      modify (λ d. record d {
        handoffs =
            insert
              (record {
                handoff_id = handoff_id;
                task_id = task_id;
                source_agent = source_worker;
                target_agent = target_worker;
                context = context;
                artifacts = artifacts;
                requirements = requirements;
                constraints = constraints;
                status = pending;
                created_at = now;
              })
              d.handoffs;
      })
      pure handoff_id

abbrev pub or_handoff_error : Option Handoff → Result Handoff
or_handoff_error none = err Error.handoff_error
or_handoff_error (some h) = ok h

-- self.queues[target_worker]
abbrev pub or_key_error : Option String → Result String
or_key_error none = err Error.key_error
or_key_error (some queue) = ok queue

abbrev pub set_status : ℕ → HandoffStatus → Desk → Desk
set_status handoff_id status d = record d {
  handoffs = update_where (by_handoff handoff_id) (λ h. record h { status = status }) d.handoffs;
}

abbrev pub handoff_task : (new_task_id now : ℕ) → Handoff → TaskRecord
handoff_task new_task_id now h = record {
  task_id = new_task_id;
  parent_task_id = h.task_id;
  type = h.target_agent;
  payload =
      assign "handoff_id" (num h.handoff_id)
        (assign "artifact_references" (arr h.artifacts) h.context);
  status = "queued";
  created_at = now;
  retries = 0;
}

unfoldable pub dispatch_handoff :
    (queues : String → Option String) → (handoff_id new_task_id now : ℕ) → Exec Desk ℕ
dispatch_handoff queues handoff_id new_task_id now = do
  row ← gets (λ d. fetchrow (by_handoff handoff_id) d.handoffs)
  h ← lift (or_handoff_error row)
  require (is_pending h.status) Error.handoff_error
  modify (λ d. record d { tasks = handoff_task new_task_id now h ∷ d.tasks })
  queue ← lift (or_key_error (queues h.target_agent))
  modify (λ d. record d { pushes = (queue, new_task_id) ∷ d.pushes })
  modify (set_status handoff_id accepted)
  pure new_task_id

unfoldable pub complete_handoff : ℕ → Exec Desk (Unit {0})
complete_handoff handoff_id = modify (set_status handoff_id completed)

-- json.loads(constraints).get("_handoff_retries", 0); a value that is no number cannot be compared
abbrev pub retries_in : Option Json → Result ℕ
retries_in none = ok 0
retries_in (some (num n)) = ok n
retries_in (some (bool b)) = ok (to_number b)
retries_in (some _) = err Error.type_error

abbrev pub again : ℕ → Handoff → Handoff
again retries h = record h {
  status = pending;
  constraints = assign "_handoff_retries" (num (retries + 1)) h.constraints;
}

unfoldable pub fail_handoff : ℕ → Exec Desk HandoffStatus
fail_handoff handoff_id = do
  row ← gets (λ d. fetchrow (by_handoff handoff_id) d.handoffs)
  h ← lift (or_handoff_error row)
  retries ← lift (retries_in (lookup "_handoff_retries" h.constraints))
  if leb max_handoff_retries retries
      then (modify (set_status handoff_id rejected) >> pure rejected)
      else (modify (λ d. record d {
        handoffs = update_where (by_handoff handoff_id) (again retries) d.handoffs;
      })
          >> pure pending)

abbrev pub of_parent : Option ℕ → List Handoff → Option Handoff
of_parent none handoffs = none
of_parent (some task_id) handoffs = fetchrow (λ h. h.task_id == task_id) handoffs

-- `parent_of` is the column parent_task_id of the table `tasks`. The statement has no ORDER BY: the
-- row that was inserted first is taken.
unfoldable pub receive_handoff :
    (parent_of : ℕ → Option ℕ) → (task_id : ℕ) → Exec Desk (Option Handoff)
receive_handoff parent_of task_id = gets (λ d. of_parent (parent_of task_id) d.handoffs)
