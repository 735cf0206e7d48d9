-- ===== src/Worker/Fleet.antt =====
-- Many workers of services/workers/common/base_worker.py on one Redis, whose `process` calls
-- interleave between the commands on the lock; the writes before and after `handle` are one step
-- each.
pub mod Exclusion
use agent_os.Prelude.{
  ℕ, String, Bool, true, false, Option, none, some, List, [], ◌∷◌, ◌==◌, if◌then◌else◌,
}
use agent_os.Redis.{Redis, Task, put}
use agent_os.Worker.{
  HandleOutcome, already_processed, claim_lock, begun, start_task, settle_task, store_result,
  holds_lock, delete_lock,
}

-- Where a worker is inside `process`: outside it, past the idempotency check, past SET NX, in
-- `handle`, past the push of the result, between the GET and the DEL of its lock.
pub data Phase : Type 0 where
  idle : Phase
  checked : (task_id : ℕ) → Phase
  claimed : (task_id token : ℕ) → Phase
  working : (task_id token : ℕ) → Task → Phase
  stored : (task_id token : ℕ) → Phase
  deleting : (task_id : ℕ) → Phase

-- What is shared, and the phase of each worker.
pub record Fleet : Type 0 where
  pub redis : Redis
  pub phases : ℕ → Phase

-- The next commands of the worker w, or its crash, which keeps what it has written.
pub data Move : Type 0 where
  checks : (w task_id : ℕ) → Move
  claims : (w token : ℕ) → Move
  starts : (w now : ℕ) → Move
  finishes : (w now : ℕ) → HandleOutcome → Move
  compares : (w : ℕ) → Move
  deletes : (w : ℕ) → Move
  crashes : (w : ℕ) → Move

module _ (worker_type : String) (worker_id : ℕ → String) where
  abbrev pub at : (w : ℕ) → Phase → Fleet → Fleet
  at w phase s = record s { phases = put w phase s.phases }

  abbrev pub writes : (w : ℕ) → Phase → Redis → Fleet → Fleet
  writes w phase redis s = record { redis = redis; phases = put w phase s.phases }

  -- A move that the worker's phase does not have next changes nothing.
  abbrev pub check_in : (w task_id : ℕ) → Phase → Fleet → Fleet
  check_in w task_id idle s =
      if already_processed task_id s.redis then s else at w (checked task_id) s
  check_in w task_id _ s = s

  abbrev pub claimed_in : (w task_id token : ℕ) → Option Redis → Fleet → Fleet
  claimed_in w task_id token none s = at w idle s
  claimed_in w task_id token (some locked) s = writes w (claimed task_id token) locked s

  abbrev pub claim_in : (w token : ℕ) → Phase → Fleet → Fleet
  claim_in w token (checked task_id) s =
      claimed_in w task_id token (claim_lock task_id token s.redis) s
  claim_in w token _ s = s

  abbrev pub started_in : (w task_id token now : ℕ) → Option Task → Fleet → Fleet
  started_in w task_id token now none s = at w idle s
  started_in w task_id token now (some task) s =
      writes w (working task_id token (begun worker_type (worker_id w) now task))
        (start_task worker_type (worker_id w) task_id now task s.redis) s

  abbrev pub start_in : (w now : ℕ) → Phase → Fleet → Fleet
  start_in w now (claimed task_id token) s =
      started_in w task_id token now (s.redis.tasks task_id) s
  start_in w now _ s = s

  abbrev pub finish_in : (w now : ℕ) → HandleOutcome → Phase → Fleet → Fleet
  finish_in w now outcome (working task_id token task) s =
      let (after, settled) = settle_task worker_type task outcome s.redis in
      writes w (stored task_id token) (store_result task_id now after settled) s
  finish_in w now outcome _ s = s

  abbrev pub compare_in : (w : ℕ) → Phase → Fleet → Fleet
  compare_in w (stored task_id token) s =
      if holds_lock task_id token s.redis then at w (deleting task_id) s else at w idle s
  compare_in w _ s = s

  abbrev pub delete_in : (w : ℕ) → Phase → Fleet → Fleet
  delete_in w (deleting task_id) s = writes w idle (delete_lock task_id s.redis) s
  delete_in w _ s = s

  abbrev pub move : Move → Fleet → Fleet
  move (checks w task_id) s = check_in w task_id (s.phases w) s
  move (claims w token) s = claim_in w token (s.phases w) s
  move (starts w now) s = start_in w now (s.phases w) s
  move (finishes w now outcome) s = finish_in w now outcome (s.phases w) s
  move (compares w) s = compare_in w (s.phases w) s
  move (deletes w) s = delete_in w (s.phases w) s
  move (crashes w) s = at w idle s

  unfoldable pub moves : List Move → Fleet → Fleet
  moves [] s = s
  moves (m ∷ ms) s = moves ms (move m s)

-- The lock of the task is the worker's: it has set it, and not yet deleted it.
abbrev pub holds : Phase → ℕ → Bool
holds (claimed task_id token) j = task_id == j
holds (working task_id token task) j = task_id == j
holds (stored task_id token) j = task_id == j
holds (deleting task_id) j = task_id == j
holds _ j = false

-- `handle` runs on the task.
abbrev pub handles : Phase → ℕ → Bool
handles (working task_id token task) j = task_id == j
handles _ j = false
