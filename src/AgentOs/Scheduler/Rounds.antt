-- ===== src/AgentOs/Scheduler/Rounds.antt =====
-- What a tick and a restore of services/hermes/agent_os30/autonomy.py leave of a task that is off.
use agent_os.Prelude.{
  sym, occurrences, ℕ, ◌≡◌, ◌≢◌, ◌⊎◌, refl, subst, ap, ◌∙◌, inl, inr, Bool, true, false, Option,
  none, some, List, [], ◌∷◌, ◌++◌, leb, ◌==◌, &&-true, if◌then◌else◌, Bool-cases, In, arith, ◌+◌,
}
use agent_os.Prelude.Sorting.{In-sort}
use agent_os.Errors.{Result, ok, err}
use agent_os.Sql.{select, fetchrow, update_where}
use agent_os.Sql.Select.{In-select, fetchrow-In}
use agent_os.AgentOs.Scheduler.{
  ScheduledTask, Scheduler, by_schedule, or_insert, CallbackEnd, returns, raises, type_error_then,
  put_schedule, is_registered, disable, runs_before, load_schedules, restore_rows, restore_from,
  is_due, reschedule_by, called, one_more, after_callback, tick_task, tick_all,
}

abbrev pub rows : Option (List ScheduledTask) → List ScheduledTask
rows none = []
rows (some table) = table

pub In-insert :
    (x t : ScheduledTask) (ts : List ScheduledTask) → In x (ts ++ t ∷ []) → In x ts ⊎ (t ≡ x)
In-insert x t [] (inl e) = inr e
In-insert x t [] (inr later) = elim later [ ]
In-insert x t (s ∷ ts) (inl e) = inl (inl e)
In-insert x t (s ∷ ts) (inr later) = elim (In-insert x t ts later) [
  | inl there ↦ inl (inr there)
  | inr e ↦ inr e
]

-- What an UPDATE leaves: rows as they were, and changed ones.
pub In-update_where :
    (p : ScheduledTask → Bool) (f : ScheduledTask → ScheduledTask) (x : ScheduledTask)
    (ts : List ScheduledTask)
    → In x (update_where p f ts)
    → (In x ts × (p x ≡ false)) ⊎ ((y : ScheduledTask) × In y ts × (p y ≡ true) × (f y ≡ x))
In-update_where p f x [] there = elim there [ ]
In-update_where p f x (t ∷ ts) (inr later) = elim (In-update_where p f x ts later) [
  | inl (there, miss) ↦ inl (inr there, miss)
  | inr (y, there, hit, e) ↦ inr (y, inr there, hit, e)
]
In-update_where p f x (t ∷ ts) (inl here) = by_hit (p t) refl here
  where
    by_hit :
        (b : Bool)
        → p t ≡ b
        → (if b then f t else t) ≡ x
        → (In x (t ∷ ts) × (p x ≡ false))
          ⊎ ((y : ScheduledTask) × In y (t ∷ ts) × (p y ≡ true) × (f y ≡ x))
    by_hit true hit e = inr (t, inl refl, hit, e)
    by_hit false miss e = inl (inl e, subst (λ y. p y ≡ false) e miss)

pub reschedule_by-calls :
    (now : ℕ) (interval : Option ℕ) (t : ScheduledTask) (s : Scheduler)
    → (reschedule_by now interval t s).calls ≡ s.calls
reschedule_by-calls now none t s = refl
reschedule_by-calls now (some n) t s = elim (Bool-cases (n == 0)) [
  | inl zero_interval ↦ rw zero_interval refl
  | inr again ↦ rw again refl
]

module _ (tid : ℕ) where
  -- No task with the id is enabled.
  abbrev pub AllOff : List ScheduledTask → Type 0
  AllOff ts = (t : ScheduledTask) → In t ts → t.task_id ≡ tid → t.enabled ≡ false

  abbrev pub Absent : List ScheduledTask → Type 0
  Absent ts = (t : ScheduledTask) → In t ts → t.task_id ≢ tid

  abbrev pub IsOff : Scheduler → Type 0
  IsOff s = AllOff s.tasks

  pub put_schedule-In :
      (t x : ScheduledTask) (ts : List ScheduledTask) → In x (put_schedule t ts) → In x ts ⊎ (t ≡ x)
  put_schedule-In t x ts = by_found (fetchrow (by_schedule t.task_id) ts)
    where
      by_found : (o : Option ScheduledTask) → In x (or_insert o t ts) → In x ts ⊎ (t ≡ x)
      by_found none there = In-insert x t ts there
      by_found (some old) there =
          elim (In-update_where (by_schedule t.task_id) (λ s. t) x ts there) [
            | inl (before, miss) ↦ inl before
            | inr (y, before, hit, e) ↦ inr e
          ]

  pub put_schedule-AllOff :
      (t : ScheduledTask) (ts : List ScheduledTask)
      → t.task_id ≢ tid
      → AllOff ts
      → AllOff (put_schedule t ts)
  put_schedule-AllOff t ts apart off x there named = elim (put_schedule-In t x ts there) [
    | inl before ↦ off x before named
    | inr e ↦ elim (apart (ap (λ s. s.task_id) e ∙ named)) [ ]
  ]

  pub set_schedule-AllOff :
      (t : ScheduledTask) (ts : List ScheduledTask)
      → t.task_id ≢ tid
      → AllOff ts
      → AllOff (update_where (by_schedule t.task_id) (λ old. t) ts)
  set_schedule-AllOff t ts apart off x there named =
      elim (In-update_where (by_schedule t.task_id) (λ old. t) x ts there) [
        | inl (before, miss) ↦ off x before named
        | inr (y, before, hit, e) ↦ elim (apart (ap (λ s. s.task_id) e ∙ named)) [ ]
      ]

  -- A run of other tasks.
  pub reschedule_by-IsOff :
      (now : ℕ) (interval : Option ℕ) (t : ScheduledTask) (s : Scheduler)
      → t.task_id ≢ tid
      → IsOff s
      → IsOff (reschedule_by now interval t s)
  reschedule_by-IsOff now none t s apart off = set_schedule-AllOff (disable t) s.tasks apart off
  reschedule_by-IsOff now (some n) t s apart off = elim (Bool-cases (n == 0)) [
    | inl zero_interval ↦ rw zero_interval (set_schedule-AllOff (disable t) s.tasks apart off)
    | inr again ↦
        let next : ScheduledTask = record t { run_at = now + n } in
        rw again (set_schedule-AllOff next s.tasks apart off)
  ]

  abbrev pub Quiet {ℓ} : {A : Type ℓ} → Scheduler → A × Scheduler → Type 0
  Quiet s (result, after) = (occurrences tid after.calls ≡ occurrences tid s.calls) × IsOff after

  pub one_more-Quiet :
      (s : Scheduler) (end : Result ℕ × Scheduler) → Quiet s end → Quiet s (one_more end)
  one_more-Quiet s (ok n, after) quiet = quiet
  one_more-Quiet s (err e, after) quiet = quiet

  pub tick_task-Quiet :
      (ends : ScheduledTask → CallbackEnd) (now : ℕ) (rest : Scheduler → Result ℕ × Scheduler)
      (found : Option ScheduledTask) (s : Scheduler)
      → ((t : ScheduledTask) → found ≡ some t → In t s.tasks)
      → ((s : Scheduler) → IsOff s → Quiet s (rest s))
      → IsOff s
      → Quiet s (tick_task ends now rest found s)
  tick_task-Quiet ends now rest none s there quiet off = quiet s off
  tick_task-Quiet ends now rest (some t) s there quiet off = by_due (is_due now t) refl
    where
      apart : is_due now t ≡ true → t.task_id ≢ tid
      apart due named =
          let closed : t.enabled ≡ false = off t (there t refl) named in
          let enabled : t.enabled ≡ true = (&&-true t.enabled (leb t.run_at now) due).0 in cc

      other : is_due now t ≡ true → occurrences tid (called t s).calls ≡ occurrences tid s.calls
      other due = let far = apart due in ground arith

      again :
          is_due now t ≡ true
          → occurrences tid (called t (called t s)).calls ≡ occurrences tid s.calls
      again due = let far = apart due in ground arith

      rescheduled :
          (before : Scheduler)
          → is_due now t ≡ true
          → before.tasks ≡ s.tasks
          → occurrences tid before.calls ≡ occurrences tid s.calls
          → Quiet s (one_more (rest (reschedule_by now t.interval_seconds t before)))
      rescheduled before due tasks calls =
          let next : Scheduler = reschedule_by now t.interval_seconds t before in
          let off' : IsOff before = subst (λ ts. AllOff ts) (sym tasks) off in
          let (same, after) =
            quiet next (reschedule_by-IsOff now t.interval_seconds t before (apart due) off') in
          one_more-Quiet s (rest next) (
            same
                ∙ ap (occurrences tid) (reschedule_by-calls now t.interval_seconds t before)
                ∙ calls,
            after,
          )

      after_callback-Quiet :
          (end : CallbackEnd)
          → is_due now t ≡ true
          → Quiet s (after_callback now rest end t (called t s))
      after_callback-Quiet returns due = rescheduled (called t s) due refl (other due)
      after_callback-Quiet (raises e) due = (other due, off)
      after_callback-Quiet (type_error_then none) due =
          rescheduled (called t (called t s)) due refl (again due)
      after_callback-Quiet (type_error_then (some e)) due = (again due, off)

      by_due :
          (b : Bool)
          → is_due now t ≡ b
          → Quiet s (if b then after_callback now rest (ends t) t (called t s) else rest s)
      by_due true due = after_callback-Quiet (ends t) due
      by_due false due = quiet s off

  pub tick_all-Quiet :
      (ends : ScheduledTask → CallbackEnd) (now : ℕ) (ids : List ℕ) (s : Scheduler)
      → IsOff s
      → Quiet s (tick_all ends now ids s)
  unfolding tick_all
  tick_all-Quiet ends now [] s off = (refl, off)
  tick_all-Quiet ends now (k ∷ ids) s off =
      tick_task-Quiet ends now (tick_all ends now ids) (fetchrow (by_schedule k) s.tasks) s
        (λ t found. fetchrow-In (by_schedule k) t s.tasks found) (tick_all-Quiet ends now ids) off

  pub restore_rows-Quiet :
      (ts : List ScheduledTask) (s : Scheduler) → Absent ts → IsOff s → Quiet s (restore_rows ts s)
  unfolding restore_rows
  restore_rows-Quiet [] s absent off = (refl, off)
  restore_rows-Quiet (t ∷ ts) s absent off =
      elim (Bool-cases (is_registered t.callback_key s.callbacks)) [
        | inl known ↦ rw known (
            restore_rows-Quiet ts (record s { tasks = put_schedule t s.tasks })
              (λ x there. absent x (inr there))
              (put_schedule-AllOff t s.tasks (absent t (inl refl)) off))
        | inr unknown ↦ rw unknown (restore_rows-Quiet ts s (λ x there. absent x (inr there)) off)
      ]

  pub restore_from-Quiet :
      (table : Option (List ScheduledTask)) (s : Scheduler)
      → Absent (rows table)
      → IsOff s
      → Quiet s (restore_from table s)
  unfolding load_schedules
  restore_from-Quiet none s absent off = (refl, off)
  restore_from-Quiet (some table) s absent off =
      restore_rows-Quiet (load_schedules table) s
        (λ x there.
          absent x
            (In-select (λ (t : ScheduledTask). t.enabled) x table
              (In-sort runs_before x (select (λ (t : ScheduledTask). t.enabled) table) there)).0)
        off
