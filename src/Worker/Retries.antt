-- ===== src/Worker/Retries.antt =====
-- How often services/workers/common/base_worker.py works on one task.
use agent_os.Prelude.{
  occurrences, ℕ, suc, String, ◌≡◌, refl, sym, subst, ap, ◌∙◌, inl, inr, ◌⊎◌, false, Option, none,
  some, List, [], ◌∷◌, leb, ◌==◌, ==_iff, if◌then◌else◌, ◌+◌, ◌-◌, ◌≤◌, Bool-cases, Option-cases,
  arith,
}
use agent_os.Redis.{Redis, Task, put, rpop}
use agent_os.Worker.{
  HandleOutcome, returned, timed_out, raised, max_task_retries, is_final, is_running, has_status,
  exists, already_processed, lock, requeue_one, requeue_all, requeue_inflight, or_zero,
  retry_or_fail, settle_task, holds_lock, delete_lock, acknowledge, begun, start_task, finish,
  store_result, release, process, take_task, work,
}

-- The runs of `handle` that the record of a task leaves room for.
abbrev pub room : Option Task → ℕ
room none = 0
room (some task) =
    if is_final task.status then 0 else suc (max_task_retries - 1 - or_zero task.retries)

-- What a worker of the queue does, and the expiry of a lock.
pub data Step : Type 0 where
  processes :
      (worker_type worker_id : String) (handle : Task → HandleOutcome)
      (task_id token began ended : ℕ)
      → Step
  requeues : Step
  takes : Step
  acknowledges : (task_id : ℕ) → Step
  expires : (task_id : ℕ) → Step

abbrev pub taken : Option (ℕ × Redis) → Redis → Redis
taken none r = r
taken (some (task_id, after)) r = after

abbrev pub step : Step → Redis → Redis
step (processes worker_type worker_id handle task_id token began ended) r =
    process worker_type worker_id handle task_id token began ended r
step requeues r = requeue_inflight r
step takes r = taken (take_task r) r
step (acknowledges task_id) r = acknowledge task_id r
step (expires task_id) r = delete_lock task_id r

abbrev pub run_steps : List Step → Redis → Redis
run_steps [] r = r
run_steps (s ∷ steps) r = run_steps steps (step s r)

-- What a worker leaves of the shared state while it settles a task: all of it but the events, the
-- queue and the failures.
abbrev Keeps : Redis → Redis → Type 0
Keeps r after = (after.tasks ≡ r.tasks) × (after.locks ≡ r.locks) × (after.results ≡ r.results)

-- One run is used up.
abbrev Uses : Task → Task → Type 0
Uses task after = room (some after) + 1 ≤ room (some task)

abbrev Worked : (task_id : ℕ) → Task → Redis → Redis → Type 0
Worked task_id task r after =
    (done : Task) × Uses task done
    × ((j : ℕ) → after.tasks j ≡ put task_id (some done) r.tasks j)
    × (after.results ≡ task_id ∷ r.results)

release_keeps :
    (task_id token : ℕ) (r : Redis)
    → ((release task_id token r).tasks ≡ r.tasks) × ((release task_id token r).results ≡ r.results)
release_keeps task_id token r = elim (Bool-cases (holds_lock task_id token r)) [
  | inl own ↦ (rw own refl, rw own refl)
  | inr alien ↦ (rw alien refl, rw alien refl)
]

module _ (worker_type : String) where
  retry_or_fail-Uses :
      (task : Task) (error : String) (r : Redis)
      → is_final task.status ≡ false
      → Keeps r (retry_or_fail worker_type task error r).1
        × Uses task (retry_or_fail worker_type task error r).0
  unfolding retry_or_fail
  retry_or_fail-Uses task error r waits =
      elim (Bool-cases (leb max_task_retries (or_zero task.retries + 1))) [
        | inl last ↦ (rw last (refl, refl, refl), rw (last, waits) (ground arith))
        | inr more ↦ (rw more (refl, refl, refl), rw (more, waits) (ground arith))
      ]

  settle_task-Uses :
      (task : Task) (outcome : HandleOutcome) (r : Redis)
      → is_final task.status ≡ false
      → Keeps r (settle_task worker_type task outcome r).1
        × Uses task (settle_task worker_type task outcome r).0
  unfolding settle_task
  settle_task-Uses task (returned result) r waits = ((refl, refl, refl), rw waits (omega arith))
  settle_task-Uses task timed_out r waits = retry_or_fail-Uses task _ r waits
  settle_task-Uses task (raised error) r waits = retry_or_fail-Uses task error r waits

  finish-Finished :
      (task_id token now : ℕ) (task : Task) (outcome : HandleOutcome) (r : Redis)
      → is_final task.status ≡ false
      → (done : Task) × Uses task done
        × ((finish worker_type task_id token now task outcome r).tasks
            ≡ put task_id (some done) r.tasks)
        × ((finish worker_type task_id token now task outcome r).results ≡ task_id ∷ r.results)
  unfolding finish
  finish-Finished task_id token now task outcome r waits =
      let (kept, used) = settle_task-Uses task outcome r waits in
      let (after, settled) = settle_task worker_type task outcome r in
      let (released, pushed) =
        release_keeps task_id token (store_result task_id now after settled) in
      let done : Task = record after { completed_at = some now } in
      (
        done,
        used,
        released ∙ ap (put task_id (some done)) kept.0,
        pushed ∙ ap (λ ids. task_id ∷ ids) kept.2,
      )

  module _ (worker_id : String) (handle : Task → HandleOutcome) where
    work-Worked :
        (task_id token began ended : ℕ) (task : Task) (r : Redis)
        → is_final task.status ≡ false
        → Worked task_id task r (work worker_type worker_id handle task_id token began ended task r)
    work-Worked task_id token began ended task r waits =
        let started : Task = begun worker_type worker_id began task in
        let (done, used, stored, pushed) =
          finish-Finished task_id token ended started (handle started)
            (start_task worker_type worker_id task_id began task r) refl in
        (
          done,
          rw waits used,
          λ j. ap (λ f. f j) stored ∙ elim (Bool-cases (j == task_id)) [
            | inl same ↦ rw same refl
            | inr other ↦ rw other refl
          ],
          pushed,
        )

    process_cases :
        (task_id token began ended : ℕ) (r : Redis)
        → (let after = process worker_type worker_id handle task_id token began ended r in
            ((after.tasks ≡ r.tasks) × (after.results ≡ r.results))
            ⊎ ((task : Task) × (r.tasks task_id ≡ some task)
                × (is_final task.status ≡ false)
                × Worked task_id task r after))
    unfolding process
    process_cases task_id token began ended r = elim (Bool-cases (already_processed task_id r)) [
      | inl over ↦ inl (rw over (refl, refl))
      | inr fresh ↦ elim (Bool-cases (exists (r.locks task_id))) [
        | inl held ↦ inl (rw (fresh, held) (refl, refl))
        | inr free ↦ elim (Option-cases (r.tasks task_id)) [
          | inl missing ↦ inl (rw (fresh, free, missing) (refl, refl))
          | inr (task, found) ↦
              let waits : is_final task.status ≡ false =
                subst (λ t. has_status is_final t ≡ false) found fresh in
              inr (
                task,
                found,
                waits,
                rw (fresh, free, found)
                    (work-Worked task_id token began ended task (lock task_id token r) waits),
              )
        ]
      ]
    ]

requeue_keeps :
    (ids : List ℕ) (r : Redis)
    → ((requeue_all ids r).tasks ≡ r.tasks) × ((requeue_all ids r).results ≡ r.results)
unfolding requeue_all
requeue_keeps [] r = (refl, refl)
requeue_keeps (id ∷ ids) r =
    let (tasks, results) = requeue_keeps ids (requeue_one id r) in
    elim (Bool-cases (exists (r.locks id))) [
      | inl held ↦ (tasks ∙ rw held refl, results ∙ rw held refl)
      | inr free ↦ elim (Bool-cases (has_status is_running (r.tasks id))) [
        | inl stale ↦ (tasks ∙ rw (free, stale) refl, results ∙ rw (free, stale) refl)
        | inr gone ↦ (tasks ∙ rw (free, gone) refl, results ∙ rw (free, gone) refl)
      ]
    ]

take_keeps :
    (r : Redis)
    → ((taken (take_task r) r).tasks ≡ r.tasks) × ((taken (take_task r) r).results ≡ r.results)
unfolding take_task
take_keeps r = elim (Option-cases (rpop r.queue)) [
  | inl empty ↦ (rw (empty, taken) refl, rw (empty, taken) refl)
  | inr (last, found) ↦ (rw (found, taken) refl, rw (found, taken) refl)
]

module _ (j : ℕ) where
  -- No step makes room.
  Bounded : Redis → Redis → Type 0
  Bounded r after =
      occurrences j after.results + room (after.tasks j)
      ≤ occurrences j r.results + room (r.tasks j)

  Bounded-keeps :
      (r after : Redis) → (after.tasks ≡ r.tasks) × (after.results ≡ r.results) → Bounded r after
  unfolding Bounded
  Bounded-keeps r after (tasks, results) = rw (tasks, results) (omega arith)

  Bounded-Worked :
      (task_id : ℕ) (task : Task) (r after : Redis)
      → r.tasks task_id ≡ some task
      → Worked task_id task r after
      → Bounded r after
  unfolding Bounded
  Bounded-Worked task_id task r after found (done, used, stored, pushed) =
      elim (Bool-cases (j == task_id)) [
        | inl same ↦
            let there : r.tasks j ≡ some task =
              subst (λ k. r.tasks k ≡ some task) (sym ((==_iff j task_id).0 same)) found in
            rw (stored j, pushed, same, there) (ground arith)
        | inr other ↦ rw (stored j, pushed, other) (ground arith)
      ]

  step-Bounded : (s : Step) (r : Redis) → Bounded r (step s r)
  unfolding requeue_inflight Bounded
  step-Bounded (processes wt wid handle id token began ended) r =
      let after : Redis = process wt wid handle id token began ended r in
      elim (process_cases wt wid handle id token began ended r) [
        | inl same ↦ Bounded-keeps r after same
        | inr (task, found, waits, worked) ↦ Bounded-Worked id task r after found worked
      ]
  step-Bounded requeues r =
      Bounded-keeps r (requeue_all r.processing r) (requeue_keeps r.processing r)
  step-Bounded takes r = Bounded-keeps r (taken (take_task r) r) (take_keeps r)
  step-Bounded (acknowledges id) r = omega arith
  step-Bounded (expires id) r = omega arith

  steps-Bounded : (steps : List Step) (r : Redis) → Bounded r (run_steps steps r)
  unfolding Bounded
  steps-Bounded [] r = omega arith
  steps-Bounded (s ∷ steps) r = omega (arith, step-Bounded s r, steps-Bounded steps (step s r))

room_small : (record_of : Option Task) → room record_of ≤ 3
room_small none = omega arith
room_small (some task) = elim (Bool-cases (is_final task.status)) [
  | inl over ↦ rw over (omega arith)
  | inr left ↦ rw left (omega arith)
]

-- From any state of Redis, however runs of a task by any worker, recoveries of the processing list,
-- deliveries, acknowledgements and lock expiries follow one another, the id of a task is pushed to
-- the results at most three times, whatever the handler does.
pub attempts_bounded :
    (j : ℕ) (steps : List Step) (r : Redis)
    → occurrences j (run_steps steps r).results ≤ occurrences j r.results + max_task_retries
unfolding Bounded
attempts_bounded j steps r = omega (arith, steps-Bounded j steps r, room_small (r.tasks j))
