-- ===== src/Mission/Restart/Reconciled.antt =====
-- To reconcile a task of services/mission/executor.py twice, with nothing in between.
use agent_os.Prelude.{
  ℕ, String, ◌≡◌, refl, sym, subst, ap, ◌∙◌, inl, inr, true, Option, none, some, [], ◌∷◌, ==_refl,
  str_eq, eq_iff, contains, ◌||◌, Bool-cases,
}
use agent_os.Mission.Ids.{Driver, texts, uuid_objects}
use agent_os.Mission.Tables.{MissionTask}
use agent_os.Mission.Tables.Status.{TaskStatus, dispatched, running, unknown_after_crash, same_task}
use agent_os.Mission.TaskGraph.{may_update, task_allowed, set_task}
use agent_os.Mission.TaskGraph.Updates.{
  task_row, TaskKeys, update_allowed, task_row-compare_and_set_self,
}
use agent_os.Mission.Reports.{failing}
use agent_os.Mission.Payloads.{HermesTask}
use agent_os.Mission.Dispatch.{Hub, push}
use agent_os.Mission.Restart.{
  in_flight, record_of, mark_unknown, requeue_record, missing_text, in_flight_text,
  reconcile_record, reconcile_found, reconcile,
}

unknown_allowed :
    (status : TaskStatus) → in_flight status ≡ true → may_update status unknown_after_crash ≡ true
unfolding may_update task_allowed same_task
unknown_allowed dispatched h = refl
unknown_allowed running h = refl
unknown_allowed _ h = cc

module _ (driver : Driver) (queues : String → Option String) (t : MissionTask) where
  -- The row of the task as it is now, reconciled, changes nothing.
  abbrev pub IsSteady : Hub → Type 0
  IsSteady h =
      (now : MissionTask) × (task_row t.task_id h.db ≡ some now)
      × ((reconcile driver queues now h).1 ≡ h)

  -- A task that is marked unknown is in flight no more.
  marked_IsSteady :
      (h : Hub) (error : String)
      → TaskKeys h.db
      → task_row t.task_id h.db ≡ some t
      → in_flight t.status ≡ true
      → IsSteady (mark_unknown t.task_id error h).1
  unfolding reconcile same_task
  marked_IsSteady h error keys row flying =
      rw
        (update_allowed t.task_id unknown_after_crash (failing (error ∷ [])) h.db t keys row
          (unknown_allowed t.status flying))
        (
          set_task unknown_after_crash (failing (error ∷ [])) t,
          task_row-compare_and_set_self t.task_id t.status unknown_after_crash
              (failing (error ∷ [])) h.db t row refl,
          refl,
        )

  module _ (id : ℕ) (r : HermesTask) (named : t.hermes_task_id ≡ some id)
      (flying : in_flight t.status ≡ true) where
    -- A record that is there is read again.
    found_again :
        (h : Hub)
        → h.records id ≡ some r
        → reconcile driver queues t h ≡ reconcile_record driver queues t id r h
    unfolding reconcile
    found_again h found = rw (flying, named, found) refl

    same_IsSteady :
        (h : Hub)
        → h.records id ≡ some r
        → task_row t.task_id h.db ≡ some t
        → (reconcile_record driver queues t id r h).1 ≡ h
        → IsSteady (reconcile_record driver queues t id r h).1
    same_IsSteady h found row same =
        subst IsSteady (sym same) (t, row, ap (λ end. end.1) (found_again h found) ∙ same)

    requeued_IsSteady :
        (h : Hub) (read : Driver) (queue : Option String)
        → driver ≡ read
        → queues r.type ≡ queue
        → h.records id ≡ some r
        → task_row t.task_id h.db ≡ some t
        → str_eq r.status "queued" ≡ true
        → IsSteady (requeue_record read t.task_id id queue h).1
    requeued_IsSteady h read none same known found row waits =
        (t, row, rw (found_again h found, waits, known) refl)
    requeued_IsSteady h uuid_objects (some queue) same known found row waits =
        (t, row, rw (found_again h found, waits, known, same) refl)
    requeued_IsSteady h texts (some queue) same known found row waits =
        elim (Bool-cases (contains id (h.queues queue))) [
          | inl there ↦ rw there (t, row, rw (found_again h found, waits, known, same, there) refl)
          | inr absent ↦
              let pushed : Hub = push queue id h in
              rw absent (
                t,
                row,
                rw (found_again pushed found, waits, known, same)
                    (rw ((eq_iff queue queue).1 refl, ==_refl id) refl),
              )
        ]

    record_IsSteady :
        (h : Hub)
        → TaskKeys h.db
        → h.records id ≡ some r
        → task_row t.task_id h.db ≡ some t
        → IsSteady (reconcile_record driver queues t id r h).1
    record_IsSteady h keys found row = elim (Bool-cases (str_eq r.status "queued")) [
      | inl waits ↦ rw waits (requeued_IsSteady h driver (queues r.type) refl refl found row waits)
      | inr started ↦ elim (Bool-cases (str_eq r.status "running")) [
        | inl runs ↦ rw (started, runs) (marked_IsSteady h in_flight_text keys row flying)
        | inr stopped ↦
            same_IsSteady h found row
              (elim (Bool-cases (str_eq r.status "completed" || str_eq r.status "failed")) [
                | inl ended ↦ rw (started, stopped, ended) refl
                | inr odd ↦ rw (started, stopped, odd) refl
              ])
      ]
    ]

  found_IsSteady :
      (h : Hub) (id : Option ℕ) (r : Option HermesTask)
      → t.hermes_task_id ≡ id
      → record_of id h ≡ r
      → in_flight t.status ≡ true
      → TaskKeys h.db
      → task_row t.task_id h.db ≡ some t
      → IsSteady (reconcile_found driver queues t id r h).1
  found_IsSteady h none r named found flying keys row =
      marked_IsSteady h missing_text keys row flying
  found_IsSteady h (some id) none named found flying keys row =
      marked_IsSteady h missing_text keys row flying
  found_IsSteady h (some id) (some r) named found flying keys row =
      record_IsSteady id r named flying h keys found row

  -- With unique keys, to reconcile a task as its row is, and then again as its row is afterwards and
  -- with nothing in between, is to reconcile it once: the second time no status changes and nothing
  -- is pushed.
  pub reconcile-IsSteady :
      (h : Hub)
      → TaskKeys h.db
      → task_row t.task_id h.db ≡ some t
      → IsSteady (reconcile driver queues t h).1
  unfolding reconcile
  reconcile-IsSteady h keys row = elim (Bool-cases (in_flight t.status)) [
    | inr settled ↦ rw settled (t, row, rw settled refl)
    | inl flying ↦
        rw flying (
          found_IsSteady h t.hermes_task_id (record_of t.hermes_task_id h) refl refl flying keys
            row)
  ]
