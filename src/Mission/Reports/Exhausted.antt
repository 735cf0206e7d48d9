-- ===== src/Mission/Reports/Exhausted.antt =====
-- A failed report in services/mission/executor.py when the strategy cannot change.
use agent_os.Prelude.{
  ℕ, String, ◌≡◌, refl, sym, subst, ap, ◌∙◌, inl, inr, true, false, none, some, [], ◌∷◌, str_eq,
  Bool-cases, ◌+◌,
}
use agent_os.Errors.{err, strategy_not_changed, invalid_task_transition}
use agent_os.Sql.{select}
use agent_os.Regex.{Unicode}
use agent_os.Mission.Tables.{MissionTask, Database}
use agent_os.Mission.Tables.Status.{pending, blocked, same_task}
use agent_os.Mission.TaskGraph.{TaskFields, may_update, task_allowed, set_task, compare_and_set}
use agent_os.Mission.TaskGraph.Updates.{
  task_row, TaskKeys, update_allowed, update_refused, task_row-compare_and_set_self,
}
use agent_os.Mission.Recovery.{
  retry_with_strategy_change, Diagnosis, category_text, classify, decide, revised, record_decision,
  diagnose_and_decide, decision_type,
}
use agent_os.Mission.Recovery.Patterns.{FailureCategory}
use agent_os.Mission.Recovery.Recorded.{revised_type, plain_type}
use agent_os.Mission.Strategy.{of_task, latest, get_current_strategy, is_unchanged, record_strategy}
use agent_os.Mission.Strategy.Templates.{next_template}
use agent_os.Mission.Reports.{Drawn, failing, after_strategy, change_strategy, requeue, react, fail}

abbrev pub retry_fields : MissionTask → String → TaskFields
retry_fields t error_text = record (failing (error_text ∷ [])) {
  retry_count = some (t.retry_count + 1);
}

-- The database after the task was put back to pending.
abbrev pub requeued : ℕ → MissionTask → String → Database → Database
requeued task_id t error_text db =
    (compare_and_set task_id t.status pending (retry_fields t error_text) db).1

abbrev pub IsStale : ℕ → FailureCategory → ℕ → Database → Type 0
IsStale task_id category retry_count db =
    is_unchanged (latest (select (of_task task_id) db.strategies))
      (next_template (category_text category) retry_count)
    ≡ true

-- TASK_ALLOWED_TRANSITIONS leads from pending to dispatched and skipped alone.
pending_keeps_open : may_update pending blocked ≡ false
unfolding may_update task_allowed same_task
pending_keeps_open = refl

given_text :
    (category : FailureCategory) (text : String)
    → revised retry_with_strategy_change category ≡ some text
    → str_eq text "" ≡ false
given_text category text e = elim (Bool-cases (str_eq text "")) [
  | inl empty ↦
      let plain : decision_type none (some text) ≡ "retry" = rw empty refl in
      absurd (plain_type (sym plain ∙ (ap (decision_type none) (sym e) ∙ revised_type category)))
  | inr filled ↦ filled
]

module _ (drawn : Drawn) (task_id : ℕ) (t : MissionTask) (error_text : String) (db : Database)
    (keys : TaskKeys db) (row : task_row task_id db ≡ some t) where
  handler_raises :
      (diagnosis : Diagnosis)
      → after_strategy drawn task_id t error_text diagnosis
          (err strategy_not_changed)
          (requeued task_id t error_text db)
        ≡ (err invalid_task_transition, requeued task_id t error_text db)
  unfolding after_strategy
  handler_raises diagnosis =
      let again =
        task_row-compare_and_set_self task_id t.status pending (retry_fields t error_text) db t row
          refl in
      let refused =
        update_refused task_id blocked (failing (error_text ∷ drawn.unchanged_text ∷ []))
          (requeued task_id t error_text db) (set_task pending (retry_fields t error_text) t) again
          pending_keeps_open in
      rw refused refl

  change_refused :
      (category : FailureCategory) (reason : String)
      → IsStale task_id category t.retry_count db
      → record_strategy drawn.strategy_id drawn.now task_id reason
          (next_template (category_text category) t.retry_count)
          true
          (requeued task_id t error_text db)
        ≡ (err strategy_not_changed, requeued task_id t error_text db)
  unfolding record_strategy get_current_strategy compare_and_set
  change_refused category reason stale = rw stale refl

  change_raises :
      (diagnosis : Diagnosis) (text : String)
      → str_eq text "" ≡ false
      → IsStale task_id diagnosis.category t.retry_count db
      → change_strategy drawn task_id t error_text diagnosis
          (some text)
          (requeued task_id t error_text db)
        ≡ (err invalid_task_transition, requeued task_id t error_text db)
  unfolding change_strategy
  change_raises diagnosis text given stale =
      rw (given, change_refused diagnosis.category diagnosis.reason stale)
        (handler_raises diagnosis)

  requeue_raises :
      (diagnosis : Diagnosis) (text : String)
      → may_update t.status pending ≡ true
      → diagnosis.new_strategy ≡ some text
      → str_eq text "" ≡ false
      → IsStale task_id diagnosis.category t.retry_count db
      → requeue drawn task_id t error_text diagnosis db
        ≡ (err invalid_task_transition, requeued task_id t error_text db)
  unfolding requeue
  requeue_raises diagnosis text allowed new given stale =
      rw (update_allowed task_id pending (retry_fields t error_text) db t keys row allowed) (
        subst
          (λ o.
            change_strategy drawn task_id t error_text diagnosis o
              (requeued task_id t error_text db)
            ≡ (err invalid_task_transition, requeued task_id t error_text db))
          (sym new) (change_raises diagnosis text given stale))

  react_raises :
      (diagnosis : Diagnosis)
      → may_update t.status pending ≡ true
      → diagnosis.action ≡ retry_with_strategy_change
      → diagnosis.new_strategy ≡ revised retry_with_strategy_change diagnosis.category
      → IsStale task_id diagnosis.category t.retry_count db
      → react drawn task_id t error_text diagnosis diagnosis.action db
        ≡ (err invalid_task_transition, requeued task_id t error_text db)
  unfolding react
  react_raises diagnosis allowed act new stale =
      subst
        (λ a.
          react drawn task_id t error_text diagnosis a db
          ≡ (err invalid_task_transition, requeued task_id t error_text db))
        (sym act)
        (requeue_raises diagnosis _ allowed new (given_text diagnosis.category _ refl) stale)

-- If a report fails on a task that may go back to pending, the failure calls for a change of
-- strategy, and the template for it is what the task's strategy already has, the handler does not
-- escalate: InvalidTaskTransition is raised, since pending does not lead to blocked, the task stays
-- pending with one more retry, and every mission keeps its status.
pub stale_strategy_raises :
    (unicode : Unicode) (drawn : Drawn) (task_id : ℕ) (t : MissionTask) (error_text : String)
    (db : Database)
    → TaskKeys db
    → task_row task_id db ≡ some t
    → may_update t.status pending ≡ true
    → (decide (classify unicode error_text) t.retry_count t.max_retries).action
      ≡ retry_with_strategy_change
    → IsStale task_id (classify unicode error_text) t.retry_count db
    → let (result, after) = fail unicode drawn task_id t error_text db in
      (result ≡ err invalid_task_transition)
      × (after.missions ≡ db.missions)
      × (task_row task_id after ≡ some (set_task pending (retry_fields t error_text) t))
unfolding fail diagnose_and_decide record_decision compare_and_set
stale_strategy_raises unicode drawn task_id t error_text db keys row allowed change stale =
    let category = classify unicode error_text in
    let decided = decide category t.retry_count t.max_retries in
    let diagnosis : Diagnosis = record {
      category = category;
      action = decided.action;
      reason = decided.reason;
      new_strategy = revised decided.action category;
      decision_id = drawn.decision_id;
    } in
    let noted =
      (record_decision drawn.decision_id drawn.now t.mission_id (some task_id) category
        t.description error_text none (revised decided.action category) (t.retry_count + 1) db).1 in
    let raised =
      react_raises drawn task_id t error_text noted keys row diagnosis allowed change
        (ap (λ a. revised a category) change) stale in
    (
      ap (λ r. r.0) raised,
      ap (λ r. r.1.missions) raised,
      ap (λ r. task_row task_id r.1) raised
          ∙ task_row-compare_and_set_self task_id t.status pending (retry_fields t error_text) noted
              t row refl,
    )
