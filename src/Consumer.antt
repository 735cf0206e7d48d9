-- ===== src/Consumer.antt =====
-- services/hermes/result_consumer.py: Hermes takes what the workers push to queue:results.
pub mod Once
pub mod Samples
use agent_os.Prelude.{ℕ, Bool, true, false, Option, none, some, List, [], ◌∷◌, if◌then◌else◌}
use agent_os.Errors.{Result, ok, err}
use agent_os.Exec.{Exec}
use agent_os.Redis.{Redis, WorkStatus, completed, failed, put, lrem, rpop}
use agent_os.Worker.{has_status}

-- How a call of consume_once goes. The handler has returned in `handled`, `unmarked` and
-- `unacknowledged`: then everything went well, SET did not, or LREM did not.
pub data Consumed : Type 0 where
  empty : Consumed
  duplicate duplicate_kept handled unmarked unacknowledged raised : (task_id : ℕ) → Consumed

-- What goes wrong after the handler: SET of the marker raises or the process ends before it, or LREM
-- does or it ends before that.
pub data Mishap : Type 0 where
  nothing_lost at_marker at_acknowledgement : Mishap

-- what consume_once returns, if the process is still there
abbrev pub answer : Consumed → Bool
answer empty = false
answer (duplicate task_id) = true
answer (duplicate_kept task_id) = false
answer (handled task_id) = true
answer (unmarked task_id) = false
answer (unacknowledged task_id) = false
answer (raised task_id) = false

-- BRPOPLPUSH of the results to their processing list; none after the timeout
unfoldable pub take_result : Redis → Option (ℕ × Redis)
take_result r = elim (rpop r.results) [
  | none ↦ none
  | some (task_id, rest) ↦
      some
        (task_id, record r { results = rest; results_processing = task_id ∷ r.results_processing })
]

abbrev pub acknowledge_result : (task_id : ℕ) → Redis → Redis
acknowledge_result task_id r = record r { results_processing = lrem task_id r.results_processing }

abbrev pub mark : (task_id : ℕ) → Redis → Redis
mark task_id r = record r { consumed = put task_id true r.consumed }

-- An exception is caught, and leaves what is in Redis as it is.
abbrev pub after_handler : (task_id : ℕ) → Mishap → Result (Unit {0}) × Redis → Consumed × Redis
after_handler task_id mishap (err e, r) = (raised task_id, r)
after_handler task_id nothing_lost (ok done, r) =
    (handled task_id, acknowledge_result task_id (mark task_id r))
after_handler task_id at_marker (ok done, r) = (unmarked task_id, r)
after_handler task_id at_acknowledgement (ok done, r) = (unacknowledged task_id, mark task_id r)

abbrev pub drop_duplicate : (task_id : ℕ) → Mishap → Redis → Consumed × Redis
drop_duplicate task_id at_acknowledgement r = (duplicate_kept task_id, r)
drop_duplicate task_id _ r = (duplicate task_id, acknowledge_result task_id r)

-- From the marker's test on.
abbrev pub consume :
    (handler : ℕ → Exec Redis (Unit {0})) → (task_id : ℕ) → Mishap → Redis → Consumed × Redis
consume handler task_id mishap r =
    if r.consumed task_id
    then drop_duplicate task_id mishap r
    else after_handler task_id mishap (handler task_id r)

abbrev pub consume_taken :
    (handler : ℕ → Exec Redis (Unit {0})) → Option (ℕ × Redis) → Mishap → Redis → Consumed × Redis
consume_taken handler none mishap r = (empty, r)
consume_taken handler (some (task_id, taken)) mishap r = consume handler task_id mishap taken

unfoldable pub consume_once :
    (handler : ℕ → Exec Redis (Unit {0})) → Mishap → Redis → Consumed × Redis
consume_once handler mishap r = consume_taken handler (take_result r) mishap r

abbrev pub has_ended : WorkStatus → Bool
has_ended completed = true
has_ended failed = true
has_ended _ = false

-- One round of _recover. A record that is missing has no status.
abbrev pub recover_one : (task_id : ℕ) → Redis → Redis
recover_one task_id r = record r {
  results = if has_status has_ended (r.tasks task_id) then task_id ∷ r.results else r.results;
  results_processing = lrem task_id r.results_processing;
}

unfoldable pub recover_all : List ℕ → Redis → Redis
recover_all [] r = r
recover_all (task_id ∷ ids) r = recover_all ids (recover_one task_id r)

unfoldable pub recover : Redis → Redis
recover r = recover_all r.results_processing r
