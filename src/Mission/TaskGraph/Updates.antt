-- ===== src/Mission/TaskGraph/Updates.antt =====
-- update_status of services/mission/task_graph.py on each of its branches, for a table with a
-- primary key.
use agent_os.Prelude.{
  ℕ, ◌≡◌, ◌≢◌, refl, sym, subst, ◌⊎◌, inl, inr, true, false, ◌&&◌, Option, none, some, arith,
  if◌then◌else◌, Option-cases, Bool-cases,
}
use agent_os.Errors.{Result, ok, err, value_error, invalid_task_transition}
use agent_os.Sql.{fetchrow}
use agent_os.Sql.Keyed.{
  fetchrow-and, fetchrow-update, fetchrow-update_ne, fetchrow_key, IsKeyed, IsKeyed-update,
}
use agent_os.Mission.Tables.{MissionTask, Database}
use agent_os.Mission.Tables.Status.{TaskStatus, same_task, same_task_iff, same_task_refl}
use agent_os.Mission.TaskGraph.{
  TaskFields, by_task, may_update, set_task, get_task, compare_and_set, check_update, update_status,
}

-- The row of a task, and the primary key of the table.
abbrev pub task_row : ℕ → Database → Option MissionTask
task_row task_id db = fetchrow (by_task task_id) db.tasks

abbrev pub TaskKeys : Database → Type 0
TaskKeys db = IsKeyed (λ t. t.task_id) db.tasks

module _ (task_id : ℕ) (expected status : TaskStatus) (fields : TaskFields) (db : Database) where
  abbrev after : Database
  after = (compare_and_set task_id expected status fields db).1

  pub task_row-compare_and_set :
      (j : ℕ) (t : MissionTask)
      → task_row j db ≡ some t
      → task_row j after
        ≡ some (
            if by_task task_id t && same_task t.status expected
            then set_task status fields t
            else t)
  unfolding compare_and_set
  task_row-compare_and_set j t h =
      rw (fetchrow-update (λ t. t.task_id) _ (set_task status fields) (λ r. refl) j db.tasks, h)

  pub task_row-compare_and_set_ne : (j : ℕ) → j ≢ task_id → task_row j after ≡ task_row j db
  unfolding compare_and_set
  task_row-compare_and_set_ne j h =
      fetchrow-update_ne (λ t. t.task_id) _ (set_task status fields) (λ r. refl) task_id j
        (λ r hit. ground arith) db.tasks h

  pub task_row-compare_and_set_self :
      (t : MissionTask)
      → task_row task_id db ≡ some t
      → t.status ≡ expected
      → task_row task_id after ≡ some (set_task status fields t)
  task_row-compare_and_set_self t h e = ground (
    arith,
    task_row-compare_and_set task_id t h,
    fetchrow_key (λ t. t.task_id) task_id db.tasks t h,
    (same_task_iff t.status expected).1 e,
  )

  pub TaskKeys-compare_and_set : TaskKeys db → TaskKeys after
  unfolding compare_and_set
  TaskKeys-compare_and_set h =
      IsKeyed-update (λ t. t.task_id) _ (set_task status fields) (λ r. refl) db.tasks h

  pub compare_and_set_hits :
      (t : MissionTask)
      → TaskKeys db
      → task_row task_id db ≡ some t
      → (compare_and_set task_id expected status fields db).0 ≡ ok (same_task t.status expected)
  unfolding compare_and_set
  compare_and_set_hits t keys h =
      rw (fetchrow-and (λ t. t.task_id) task_id (λ t. same_task t.status expected) db.tasks keys, h)
        (ground arith)

module _ (task_id : ℕ) (status : TaskStatus) (fields : TaskFields) (db : Database) where
  pub update_allowed :
      (t : MissionTask)
      → TaskKeys db
      → task_row task_id db ≡ some t
      → may_update t.status status ≡ true
      → update_status task_id status fields db
        ≡ (ok tt, (compare_and_set task_id t.status status fields db).1)
  unfolding update_status check_update get_task
  update_allowed t keys row allowed =
      rw (row, allowed)
        (ground (
          arith,
          compare_and_set_hits task_id t.status status fields db t keys row,
          same_task_refl t.status,
        ))

  pub update_refused :
      (t : MissionTask)
      → task_row task_id db ≡ some t
      → may_update t.status status ≡ false
      → update_status task_id status fields db ≡ (err invalid_task_transition, db)
  unfolding update_status check_update get_task
  update_refused t row refused = rw (row, refused)

  pub update_missing :
      task_row task_id db ≡ none → update_status task_id status fields db ≡ (err value_error, db)
  unfolding update_status check_update get_task
  update_missing row = rw row

  -- What update_status leaves, by the row that it finds.
  abbrev pub Outcome : Result (Unit {0}) × Database → Type 0
  Outcome r =
      ((task_row task_id db ≡ none) × (r ≡ (err value_error, db)))
      ⊎ ((t : MissionTask) × (task_row task_id db ≡ some t)
          × (may_update t.status status ≡ false)
          × (r ≡ (err invalid_task_transition, db)))
      ⊎ ((t : MissionTask) × (task_row task_id db ≡ some t)
          × (may_update t.status status ≡ true)
          × (r.0 ≡ ok tt)
          × (task_row task_id r.1 ≡ some (set_task status fields t))
          × ((j : ℕ) → j ≢ task_id → task_row j r.1 ≡ task_row j db)
          × TaskKeys r.1)

  moved :
      (t : MissionTask)
      → TaskKeys db
      → task_row task_id db ≡ some t
      → may_update t.status status ≡ true
      → Outcome (ok tt, (compare_and_set task_id t.status status fields db).1)
  moved t keys row allowed = inr (
      inr (
        t,
        row,
        allowed,
        refl,
        task_row-compare_and_set_self task_id t.status status fields db t row refl,
        task_row-compare_and_set_ne task_id t.status status fields db,
        TaskKeys-compare_and_set task_id t.status status fields db keys,
      ))

  -- update_status has three outcomes: a ValueError if the task is missing, an
  -- InvalidTaskTransition if the table does not allow the new status, and nothing is written on
  -- either; else it returns, has written the new status and the given fields to that row alone,
  -- and keys stay unique. Run alone, its compare-and-set never fails.
  pub update_status-Outcome : TaskKeys db → Outcome (update_status task_id status fields db)
  update_status-Outcome keys = elim (Option-cases (task_row task_id db)) [
    | inl row ↦ inl (row, update_missing row)
    | inr (t, row) ↦ elim (Bool-cases (may_update t.status status)) [
      | inl allowed ↦
          subst Outcome (sym (update_allowed t keys row allowed)) (moved t keys row allowed)
      | inr refused ↦ inr (inl (t, row, refused, update_refused t row refused))
    ]
  ]
