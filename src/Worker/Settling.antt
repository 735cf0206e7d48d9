-- ===== src/Worker/Settling.antt =====
-- The loop of services/workers/common/base_worker.py ends the tasks of its queue.
use agent_os.Prelude.{
  ℕ, zero, suc, String, ◌≡◌, refl, sym, subst, ap, ◌∙◌, ◌⊎◌, inl, inr, false, none, some, List, [],
  ◌∷◌, leb, ==_refl, ◌+◌, ◌≤◌, Bool-cases, arith,
}
use agent_os.Redis.{Redis, Task, queued, completed, failed, lrem, rpop}
use agent_os.Worker.{
  HandleOutcome, returned, timed_out, raised, max_task_retries, is_final, already_processed, lock,
  or_zero, retry_or_fail, settle_task, delete_lock, release, store_result, finish, begun,
  start_task, process, take_task, requeue_all, requeue_inflight, acknowledge, turn,
}

-- Turns of one worker, counted down; each draws its token and its times.
abbrev pub turns :
    (worker_type worker_id : String) (handle : Task → HandleOutcome) (token began ended : ℕ → ℕ)
    → ℕ
    → Redis
    → Redis
turns worker_type worker_id handle token began ended zero r = r
turns worker_type worker_id handle token began ended (suc k) r =
    turns worker_type worker_id handle token began ended k
      (turn worker_type worker_id handle (token k) (began k) (ended k) r)

-- How a run of `handle` ends for the record and the lists.
abbrev pub Ended : Task → Redis → Task → Redis → Type 0
Ended task r after ends =
    ((after.status ≡ completed) × (ends.queue ≡ r.queue))
    ⊎ ((after.status ≡ failed)
        × (ends.queue ≡ r.queue)
        × (ends.failures ≡ task.task_id ∷ r.failures))
    ⊎ ((after.status ≡ queued)
        × (ends.queue ≡ task.task_id ∷ r.queue)
        × (after.retries ≡ some (or_zero task.retries + 1))
        × (or_zero task.retries + 1 ≤ 2))

abbrev pub Ends : Task → Redis → Task × Redis → Type 0
Ends task r (after, ends) =
    (after.task_id ≡ task.task_id)
    × (ends.locks ≡ r.locks)
    × (ends.processing ≡ r.processing)
    × Ended task r after ends

module _ (worker_type : String) where
  retry_or_fail-Ends :
      (task : Task) (error : String) (r : Redis)
      → Ends task r (retry_or_fail worker_type task error r)
  unfolding retry_or_fail
  retry_or_fail-Ends task error r =
      elim (Bool-cases (leb max_task_retries (or_zero task.retries + 1))) [
        | inl last ↦ rw last (refl, refl, refl, inr (inl (refl, refl, refl)))
        | inr more ↦ rw more (refl, refl, refl, inr (inr (refl, refl, refl, ground arith)))
      ]

  pub settle_task-Ends :
      (task : Task) (outcome : HandleOutcome) (r : Redis)
      → Ends task r (settle_task worker_type task outcome r)
  unfolding settle_task
  settle_task-Ends task (returned result) r = (refl, refl, refl, inl (refl, refl))
  settle_task-Ends task timed_out r = retry_or_fail-Ends task _ r
  settle_task-Ends task (raised error) r = retry_or_fail-Ends task error r

release_own :
    (task_id token : ℕ) (r : Redis)
    → r.locks task_id ≡ some token
    → release task_id token r ≡ delete_lock task_id r
release_own task_id token r own = rw (own, ==_refl token) refl

-- A task alone in the queue that the loop still has to end, with k runs at most to come.
abbrev pub Waits : (task_id k : ℕ) → Redis → Type 0
Waits task_id k r =
    (r.queue ≡ task_id ∷ [])
    × (r.processing ≡ [])
    × (r.locks task_id ≡ none)
    × ((task : Task) × (r.tasks task_id ≡ some task)
        × (task.task_id ≡ task_id)
        × (is_final task.status ≡ false)
        × (or_zero task.retries + k ≡ 3))

-- Nothing is queued or in flight; the task has completed, or it has failed and is listed so.
abbrev pub IsSettled : (task_id : ℕ) → Redis → Type 0
IsSettled task_id r =
    (r.queue ≡ [])
    × (r.processing ≡ [])
    × ((task : Task) × (r.tasks task_id ≡ some task)
        × ((task.status ≡ completed)
            ⊎ ((task.status ≡ failed) × ((rest : List ℕ) × (r.failures ≡ task_id ∷ rest)))))

module _ (worker_type worker_id : String) (handle : Task → HandleOutcome)
    (task_id token began ended : ℕ) where
  -- What `work` leaves, in the words of `Ended`, for a worker that holds the lock.
  abbrev Worked : Task → Redis → Redis → Type 0
  Worked task r after =
      (after.locks task_id ≡ none)
      × (after.processing ≡ r.processing)
      × ((done : Task) × (done.task_id ≡ task.task_id)
          × (after.tasks task_id ≡ some done)
          × Ended task r done after)

  finish-Worked :
      (task : Task) (outcome : HandleOutcome) (r : Redis)
      → r.locks task_id ≡ some token
      → Worked task r (finish worker_type task_id token ended task outcome r)
  unfolding finish
  finish-Worked task outcome r own =
      let (same_id, locks, processing, how) = settle_task-Ends worker_type task outcome r in
      let (done, settled) = settle_task worker_type task outcome r in
      let held : settled.locks task_id ≡ some token = ap (λ f. f task_id) locks ∙ own in
      rw (release_own task_id token (store_result task_id ended done settled) held) (
        rw (==_refl task_id) refl,
        processing,
        (record done { completed_at = some ended }, same_id, rw (==_refl task_id) refl, how),
      )

  process-Worked :
      (task : Task) (r : Redis)
      → r.locks task_id ≡ none
      → r.tasks task_id ≡ some task
      → is_final task.status ≡ false
      → Worked task r (process worker_type worker_id handle task_id token began ended r)
  unfolding process
  process-Worked task r free found waits =
      let fresh : already_processed task_id r ≡ false = rw (found, waits) refl in
      rw (fresh, free, found)
        (finish-Worked (begun worker_type worker_id began task)
          (handle (begun worker_type worker_id began task))
          (start_task worker_type worker_id task_id began task (lock task_id token r))
          (rw (==_refl task_id) refl))

  -- A turn that finds the task alone in the queue.
  turn-queue :
      (r : Redis)
      → r.queue ≡ task_id ∷ []
      → r.processing ≡ []
      → turn worker_type worker_id handle token began ended r
        ≡ acknowledge task_id (
            process worker_type worker_id handle task_id token began ended
              (record r { queue = []; processing = task_id ∷ r.processing }))
  unfolding turn take_task requeue_inflight requeue_all rpop
  turn-queue r queue processing = rw (processing, queue) refl

  turn-Waits :
      (k : ℕ) (r : Redis)
      → Waits task_id (suc k) r
      → (let after = turn worker_type worker_id handle token began ended r in
          IsSettled task_id after ⊎ ((1 ≤ k) × Waits task_id k after))
  unfolding lrem
  turn-Waits k r (queue, processing, free, (task, found, named, waits, left)) =
      let taken : Redis = record r { queue = []; processing = task_id ∷ r.processing } in
      let (unlocked, kept, (done, same_id, stored, how)) =
        process-Worked task taken free found waits in
      let emptied : lrem task_id
            (process worker_type worker_id handle task_id token began ended taken).processing
          ≡ [] =
        rw (kept, processing, lrem, ==_refl task_id) refl in
      rw (turn-queue r queue processing) (elim how [
        | inl (over, empty) ↦ inl (empty, emptied, (done, stored, inl over))
        | inr (inl (over, empty, listed)) ↦
            inl (empty, emptied, (done, stored, inr (over, (r.failures, rw (listed, named) refl))))
        | inr (inr (again, queued_again, retries, few)) ↦ inr (
          omega arith,
          (
            rw (queued_again, named) refl,
            emptied,
            unlocked,
            (done, stored, same_id ∙ named, rw again refl, rw retries (omega arith)),
          ),
        )
      ])

  -- A turn with nothing queued and nothing in flight changes nothing.
  turn-idle :
      (r : Redis)
      → r.queue ≡ []
      → r.processing ≡ []
      → turn worker_type worker_id handle token began ended r ≡ r
  unfolding turn take_task requeue_inflight requeue_all rpop
  turn-idle r queue processing = rw (processing, queue) refl

module _ (worker_type worker_id : String) (handle : Task → HandleOutcome)
    (token began ended : ℕ → ℕ) where
  turns-IsSettled :
      (task_id k : ℕ) (r : Redis)
      → IsSettled task_id r
      → IsSettled task_id (turns worker_type worker_id handle token began ended k r)
  turns-IsSettled task_id zero r settled = settled
  turns-IsSettled task_id (suc k) r settled =
      subst (λ x. IsSettled task_id (turns worker_type worker_id handle token began ended k x))
        (sym (
          turn-idle worker_type worker_id handle task_id (token k) (began k) (ended k) r settled.0
            settled.1))
        (turns-IsSettled task_id k r settled)

  -- A task that is alone in its queue, unlocked and not terminal, with k + 1 of the three attempts
  -- left, is settled after k + 1 turns of a worker, whatever its handler does: nothing is queued
  -- or in flight, and the task has completed, or has failed and stands first among the failures.
  pub queued_task_settles :
      (task_id k : ℕ) (r : Redis)
      → Waits task_id (suc k) r
      → IsSettled task_id (turns worker_type worker_id handle token began ended (suc k) r)
  queued_task_settles task_id zero r waits =
      elim (turn-Waits worker_type worker_id handle task_id (token 0) (began 0) (ended 0) 0 r
        waits) [ inl settled ↦ settled | inr (some_left, again) ↦ ground arith ]
  queued_task_settles task_id (suc k) r waits =
      elim (turn-Waits worker_type worker_id handle task_id (token (suc k)) (began (suc k))
        (ended (suc k)) (suc k) r waits) [
          | inl settled ↦
              turns-IsSettled task_id (suc k)
                (turn worker_type worker_id handle (token (suc k)) (began (suc k)) (ended (suc k))
                  r)
                settled
          | inr (some_left, again) ↦
              queued_task_settles task_id k
                (turn worker_type worker_id handle (token (suc k)) (began (suc k)) (ended (suc k))
                  r)
                again
        ]
