-- ===== src/Worker.antt =====
-- services/workers/common/base_worker.py: the loop that every worker runs over its queue.
pub mod Retries
pub mod Settling
pub mod Fleet
pub mod Markers
pub mod Samples
use agent_os.Prelude.{
  ℕ, zero, suc, String, Bool, true, false, Option, none, some, List, [], ◌∷◌, ◌==◌, ltb, leb,
  if◌then◌else◌, ◌+◌,
}
use agent_os.Json.{Json}
use agent_os.Text.{append, decimal, last_text}
use agent_os.Redis.{
  Redis, Task, Event, WorkStatus, queued, running, completed, failed, cancelled, put, ltrim, lrem,
  rpop,
}

-- How a call of `handle` ends: with a result, by the alarm, or with the text of another exception
-- and its traceback. A result that json.dumps cannot encode is not among them.
pub data HandleOutcome : Type 0 where
  returned : Json → HandleOutcome
  timed_out : HandleOutcome
  raised : String → HandleOutcome

-- MAX_RETRIES, where the environment sets no other
abbrev pub max_task_retries : ℕ
max_task_retries = 3

abbrev pub task_timeout_seconds : ℕ
task_timeout_seconds = 120

abbrev pub is_final : WorkStatus → Bool
is_final completed = true
is_final failed = true
is_final cancelled = true
is_final _ = false

abbrev pub is_running : WorkStatus → Bool
is_running running = true
is_running _ = false

abbrev pub has_status : (WorkStatus → Bool) → Option Task → Bool
has_status p none = false
has_status p (some task) = p task.status

abbrev pub exists : {A : Type 0} → Option A → Bool
exists none = false
exists (some a) = true

abbrev pub already_processed : (task_id : ℕ) → Redis → Bool
already_processed task_id r = has_status is_final (r.tasks task_id)

-- the push and the trim of _emit_event, for an event that json.dumps encodes
abbrev pub emit_event : Event → Redis → Redis
emit_event event r = record r { events = ltrim 10000 (event ∷ r.events) }

abbrev pub store_task : ℕ → Task → Redis → Redis
store_task task_id task r = record r { tasks = put task_id (some task) r.tasks }

-- One round of _requeue_inflight for an element of the processing list.
abbrev pub requeue_one : (task_id : ℕ) → Redis → Redis
requeue_one task_id r =
    if exists (r.locks task_id)
    then r
    else if has_status is_running (r.tasks task_id)
    then record r { queue = task_id ∷ r.queue; processing = lrem task_id r.processing }
    else record r { processing = lrem task_id r.processing }

unfoldable pub requeue_all : List ℕ → Redis → Redis
requeue_all [] r = r
requeue_all (task_id ∷ ids) r = requeue_all ids (requeue_one task_id r)

unfoldable pub requeue_inflight : Redis → Redis
requeue_inflight r = requeue_all r.processing r

abbrev pub lock : (task_id token : ℕ) → Redis → Redis
lock task_id token r = record r { locks = put task_id (some token) r.locks }

-- SET task-lock:<id> token NX EX: what it leaves, or none when there is a lock
abbrev pub claim_lock : (task_id token : ℕ) → Redis → Option Redis
claim_lock task_id token r = if exists (r.locks task_id) then none else some (lock task_id token r)

abbrev pub or_zero : Option ℕ → ℕ
or_zero none = 0
or_zero (some n) = n

-- if self.r.get(lock_key) == lock_token: self.r.delete(lock_key)
abbrev pub is_token : (token : ℕ) → Option ℕ → Bool
is_token token none = false
is_token token (some holder) = holder == token

abbrev pub holds_lock : (task_id token : ℕ) → Redis → Bool
holds_lock task_id token r = is_token token (r.locks task_id)

abbrev pub delete_lock : (task_id : ℕ) → Redis → Redis
delete_lock task_id r = record r { locks = put task_id none r.locks }

abbrev pub release : (task_id token : ℕ) → Redis → Redis
release task_id token r = if holds_lock task_id token r then delete_lock task_id r else r

-- the body of the `finally`, less the lock
abbrev pub store_result : (task_id now : ℕ) → Task → Redis → Redis
store_result task_id now task r =
    let stored = store_task task_id (record task { completed_at = some now }) r in
    record stored { results = task_id ∷ stored.results }

-- BRPOPLPUSH of the queue to the processing list; none after the timeout
unfoldable pub take_task : Redis → Option (ℕ × Redis)
take_task r = elim (rpop r.queue) [
  | none ↦ none
  | some (task_id, rest) ↦
      some (task_id, record r { queue = rest; processing = task_id ∷ r.processing })
]

abbrev pub acknowledge : (task_id : ℕ) → Redis → Redis
acknowledge task_id r = record r { processing = lrem task_id r.processing }

module _ (worker_type : String) where
  abbrev pub lifecycle_event : String → Task → Event
  lifecycle_event event_type task = record {
    event_type = event_type;
    task_id = task.task_id;
    worker_type = worker_type;
    status = task.status;
    retries = none;
    error = none;
  }

  abbrev pub failure_event : String → (retries : ℕ) → (error : String) → Task → Event
  failure_event event_type retries error task = record (lifecycle_event event_type task) {
    retries = some retries;
    error = some (last_text 1000 error);
  }

  -- The record that _retry_or_fail leaves in `task`.
  abbrev pub attempted : (retries : ℕ) → (error : String) → Task → Task
  attempted retries error task = record task {
    retries = some retries;
    last_error = some error;
    status = if leb max_task_retries retries then failed else queued;
  }

  unfoldable pub retry_or_fail : Task → (error : String) → Redis → Task × Redis
  retry_or_fail task error r =
      let retries = or_zero task.retries + 1 in
      let after = attempted retries error task in
      if leb max_task_retries retries
      then (
        after,
        (let noted = emit_event (failure_event "failed" retries error after) r in
            record noted { failures = after.task_id ∷ noted.failures }),
      )
      else (
        after,
        (let noted = emit_event (failure_event "retried" retries error after) r in
            record noted { queue = after.task_id ∷ noted.queue }),
      )

  -- the body of the `try`, once `handle` has ended
  unfoldable pub settle_task : Task → HandleOutcome → Redis → Task × Redis
  settle_task task (returned result) r =
      let done = record task { status = completed; result = some result } in
      (done, emit_event (lifecycle_event "completed" done) r)
  settle_task task timed_out r =
      retry_or_fail task
        (append "task exceeded " (append (decimal task_timeout_seconds) "s timeout")) r
  settle_task task (raised error) r = retry_or_fail task error r

  unfoldable pub finish : (task_id token now : ℕ) → Task → HandleOutcome → Redis → Redis
  finish task_id token now task outcome r =
      let (after, settled) = settle_task task outcome r in
      release task_id token (store_result task_id now after settled)

  module _ (worker_id : String) where
    -- the record with which `handle` is called
    abbrev pub begun : (now : ℕ) → Task → Task
    begun now task = record task {
      status = running;
      started_at = some now;
      worker_id = some worker_id;
    }

    abbrev pub start_task : (task_id now : ℕ) → Task → Redis → Redis
    start_task task_id now task r =
        store_task task_id (begun now task)
          (emit_event (lifecycle_event "started" (begun now task)) r)

    -- From the claim_lock on, for a task record that is there.
    abbrev pub work :
        (handle : Task → HandleOutcome) (task_id token began ended : ℕ) → Task → Redis → Redis
    work handle task_id token began ended task r =
        finish task_id token ended (begun began task) (handle (begun began task))
          (start_task task_id began task r)

    -- A claimed task whose record is missing keeps its lock until that expires.
    unfoldable pub process :
        (handle : Task → HandleOutcome) (task_id token began ended : ℕ) → Redis → Redis
    process handle task_id token began ended r =
        if already_processed task_id r then r else elim (claim_lock task_id token r) [
          | none ↦ r
          | some locked ↦ elim (locked.tasks task_id) [
            | none ↦ locked
            | some task ↦ work handle task_id token began ended task locked
          ]
        ]

    -- One turn of the loop of `run`, with the token and the times it draws.
    unfoldable pub turn : (handle : Task → HandleOutcome) (token began ended : ℕ) → Redis → Redis
    turn handle token began ended r = elim (take_task (requeue_inflight r)) [
      | none ↦ requeue_inflight r
      | some (task_id, taken) ↦ acknowledge task_id (process handle task_id token began ended taken)
    ]
