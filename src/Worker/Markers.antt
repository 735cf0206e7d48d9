-- ===== src/Worker/Markers.antt =====
-- A worker of services/workers/common/base_worker.py leaves the markers of Hermes alone.
use agent_os.Prelude.{
  ℕ, String, ◌≡◌, refl, ◌∙◌, inl, inr, List, [], ◌∷◌, leb, ◌+◌, Bool-cases, Option-cases,
}
use agent_os.Redis.{Redis, Task, rpop}
use agent_os.Worker.{
  HandleOutcome, returned, timed_out, raised, max_task_retries, is_running, has_status, exists,
  already_processed, lock, or_zero, retry_or_fail, settle_task, holds_lock, release, store_result,
  finish, begun, start_task, process, take_task, requeue_one, requeue_all, requeue_inflight,
}
use agent_os.Worker.Retries.{Step, processes, requeues, takes, acknowledges, expires, taken, step}

retry_or_fail-consumed :
    (worker_type : String) (task : Task) (error : String) (r : Redis)
    → (retry_or_fail worker_type task error r).1.consumed ≡ r.consumed
unfolding retry_or_fail
retry_or_fail-consumed worker_type task error r =
    elim (Bool-cases (leb max_task_retries (or_zero task.retries + 1))) [
      | inl last ↦ rw last refl
      | inr more ↦ rw more refl
    ]

settle_task-consumed :
    (worker_type : String) (task : Task) (outcome : HandleOutcome) (r : Redis)
    → (settle_task worker_type task outcome r).1.consumed ≡ r.consumed
unfolding settle_task
settle_task-consumed worker_type task (returned result) r = refl
settle_task-consumed worker_type task timed_out r = retry_or_fail-consumed worker_type task _ r
settle_task-consumed worker_type task (raised error) r =
    retry_or_fail-consumed worker_type task error r

release-consumed : (id token : ℕ) (r : Redis) → (release id token r).consumed ≡ r.consumed
release-consumed id token r = elim (Bool-cases (holds_lock id token r)) [
  | inl own ↦ rw own refl
  | inr alien ↦ rw alien refl
]

finish-consumed :
    (worker_type : String) (id token now : ℕ) (task : Task) (outcome : HandleOutcome) (r : Redis)
    → (finish worker_type id token now task outcome r).consumed ≡ r.consumed
unfolding finish
finish-consumed worker_type id token now task outcome r =
    let (after, settled) = settle_task worker_type task outcome r in
    release-consumed id token (store_result id now after settled)
    ∙ settle_task-consumed worker_type task outcome r

process-consumed :
    (worker_type worker_id : String) (handle : Task → HandleOutcome) (id token began ended : ℕ)
    (r : Redis)
    → (process worker_type worker_id handle id token began ended r).consumed ≡ r.consumed
unfolding process
process-consumed worker_type worker_id handle id token began ended r =
    elim (Bool-cases (already_processed id r)) [
      | inl over ↦ rw over refl
      | inr fresh ↦ elim (Bool-cases (exists (r.locks id))) [
        | inl held ↦ rw (fresh, held) refl
        | inr free ↦ elim (Option-cases (r.tasks id)) [
          | inl missing ↦ rw (fresh, free, missing) refl
          | inr (task, found) ↦
              rw (fresh, free, found)
                (finish-consumed worker_type id token ended (begun worker_type worker_id began task)
                  (handle (begun worker_type worker_id began task))
                  (start_task worker_type worker_id id began task (lock id token r)))
        ]
      ]
    ]

requeue_all-consumed : (ids : List ℕ) (r : Redis) → (requeue_all ids r).consumed ≡ r.consumed
unfolding requeue_all
requeue_all-consumed [] r = refl
requeue_all-consumed (id ∷ ids) r =
    requeue_all-consumed ids (requeue_one id r) ∙ elim (Bool-cases (exists (r.locks id))) [
      | inl held ↦ rw held refl
      | inr free ↦ elim (Bool-cases (has_status is_running (r.tasks id))) [
        | inl stale ↦ rw (free, stale) refl
        | inr gone ↦ rw (free, gone) refl
      ]
    ]

pub step-consumed : (s : Step) (r : Redis) → (step s r).consumed ≡ r.consumed
unfolding requeue_inflight take_task
step-consumed (processes worker_type worker_id handle id token began ended) r =
    process-consumed worker_type worker_id handle id token began ended r
step-consumed requeues r = requeue_all-consumed r.processing r
step-consumed takes r = elim (Option-cases (rpop r.queue)) [
  | inl empty ↦ rw (empty, taken) refl
  | inr (last, found) ↦ rw (found, taken) refl
]
step-consumed (acknowledges id) r = refl
step-consumed (expires id) r = refl
