-- ===== src/AgentOs/Scheduler/Cancelled.antt =====
-- What becomes of a task that Scheduler.cancel of services/hermes/agent_os30/autonomy.py cancels, and
-- of the row whose delete it leaves to a background task.
use agent_os.Prelude.{
  Bool, subst, occurrences, ℕ, String, ◌≡◌, ◌≢◌, ◌⊎◌, refl, sym, ap, ◌∙◌, inl, inr, true, false,
  not, Option, none, some, List, [], ◌∷◌, ==_iff, Bool-cases, Option-cases, In, str_eq,
}
use agent_os.Errors.{ok, err, key_error}
use agent_os.Sql.{fetchrow, update_where}
use agent_os.AgentOs.Scheduler.{
  ScheduledTask, Scheduler, Write, saves, deletes, fire, run_background, run_picked, take_write,
  put_schedule, CallbackEnd, by_schedule, is_registered, register_callback, is_positive, schedule,
  disable, cancel, restore_schedules, ids_of, tick,
}
use agent_os.AgentOs.Scheduler.Rounds.{
  Quiet, rows, In-update_where, AllOff, Absent, IsOff, put_schedule-AllOff, tick_all-Quiet,
  restore_from-Quiet,
}

-- What happens to a scheduler; a tick comes with how its callbacks end, and a background write with
-- whether it succeeds.
pub data Act : Type 0 where
  ticks : (ends : ScheduledTask → CallbackEnd) (now : ℕ) → Act
  restores : Act
  registers : (key : String) → Act
  schedules :
      (has_loop : Bool) (tid gid : ℕ) (callback_key : String) (run_at : ℕ)
      (interval_seconds : Option ℕ)
      → Act
  cancels : (has_loop : Bool) (tid : ℕ) → Act
  writes : (n : ℕ) (succeeds : Bool) → Act

abbrev pub act : Act → Scheduler → Scheduler
act (ticks ends now) s = (tick ends now s).1
act restores s = (restore_schedules s).1
act (registers key) s = (register_callback key s).1
act (schedules has_loop tid gid callback_key run_at interval_seconds) s =
    (schedule has_loop tid gid callback_key run_at interval_seconds s).1
act (cancels has_loop tid) s = (cancel has_loop tid s).1
act (writes n succeeds) s = run_background n succeeds s

abbrev pub act_all : List Act → Scheduler → Scheduler
act_all [] s = s
act_all (a ∷ acts) s = act_all acts (act a s)

-- A later uuid4 is another one, and a restore finds no row of the task in the table.
abbrev pub Avoids : (tid : ℕ) → Act → Scheduler → Type 0
Avoids tid (schedules has_loop other gid callback_key run_at interval_seconds) s = other ≢ tid
Avoids tid restores s = Absent tid (rows s.table)
Avoids tid _ s = Unit

abbrev pub AvoidsAll : (tid : ℕ) → List Act → Scheduler → Type 0
AvoidsAll tid [] s = Unit
AvoidsAll tid (a ∷ acts) s = Avoids tid a s × AvoidsAll tid acts (act a s)

module _ (tid : ℕ) where
  fire-tasks : (has_loop : Bool) (w : Write) (s : Scheduler) → (fire has_loop w s).tasks ≡ s.tasks
  fire-tasks true w s = refl
  fire-tasks false w s = refl

  fire-calls : (has_loop : Bool) (w : Write) (s : Scheduler) → (fire has_loop w s).calls ≡ s.calls
  fire-calls true w s = refl
  fire-calls false w s = refl

  schedule-Quiet :
      (has_loop : Bool) (k gid : ℕ) (key : String) (run_at : ℕ) (interval : Option ℕ)
      (s : Scheduler)
      → k ≢ tid
      → IsOff tid s
      → Quiet tid s (schedule has_loop k gid key run_at interval s)
  unfolding schedule
  schedule-Quiet has_loop k gid key run_at interval s apart off =
      elim (Bool-cases (is_positive interval)) [
        | inr zero_interval ↦ rw zero_interval (refl, off)
        | inl positive ↦ elim (Bool-cases (not (str_eq key ""))) [
          | inr no_key ↦ rw (positive, no_key) (refl, off)
          | inl named ↦ elim (Bool-cases (is_registered key s.callbacks)) [
            | inr unknown ↦ rw (positive, named, unknown) (refl, off)
            | inl known ↦
                let t : ScheduledTask = record {
                  task_id = k;
                  goal_id = gid;
                  run_at = run_at;
                  callback_key = key;
                  interval_seconds = interval;
                  enabled = true;
                } in
                let stored : Scheduler = record s { tasks = put_schedule t s.tasks } in
                rw (positive, named, known)
                  (
                    ap (occurrences tid) (fire-calls has_loop (saves t) stored),
                    subst (λ ts. AllOff tid ts) (sym (fire-tasks has_loop (saves t) stored))
                        (put_schedule-AllOff tid t s.tasks apart off),
                  )
          ]
        ]
      ]

  disabled-AllOff :
      (k : ℕ) (ts : List ScheduledTask)
      → ((t : ScheduledTask) → In t ts → t.task_id ≡ tid → (k ≡ tid) ⊎ (t.enabled ≡ false))
      → AllOff tid (update_where (by_schedule k) disable ts)
  disabled-AllOff k ts off x there named =
      elim (In-update_where (by_schedule k) disable x ts there) [
        | inl (before, miss) ↦ elim (off x before named) [
          | inl own ↦
              let hit : by_schedule k x ≡ true = (==_iff x.task_id k).1 (named ∙ sym own) in cc
          | inr closed ↦ closed
        ]
        | inr (y, before, hit, e) ↦ ap (λ t. t.enabled) (sym e)
      ]

  -- What cancel leaves of a task that is there: nothing enabled.
  abbrev cancelled : (k : ℕ) → Scheduler → Scheduler
  cancelled k s = record s { tasks = update_where (by_schedule k) disable s.tasks }

  cancel-found :
      (has_loop : Bool) (k : ℕ) (s : Scheduler) (t : ScheduledTask)
      → fetchrow (by_schedule k) s.tasks ≡ some t
      → cancel has_loop k s ≡ (ok tt, fire has_loop (deletes k) (cancelled k s))
  unfolding cancel
  cancel-found has_loop k s t found = rw found refl

  cancel-missing :
      (has_loop : Bool) (k : ℕ) (s : Scheduler)
      → fetchrow (by_schedule k) s.tasks ≡ none
      → (cancel has_loop k s).0 ≡ err key_error
  unfolding cancel
  cancel-missing has_loop k s missing = rw missing refl

  fired-Quiet :
      (has_loop : Bool) (k : ℕ) (s : Scheduler)
      → AllOff tid (cancelled k s).tasks
      → (occurrences tid (fire has_loop (deletes k) (cancelled k s)).calls
          ≡ occurrences tid s.calls)
        × IsOff tid (fire has_loop (deletes k) (cancelled k s))
  fired-Quiet has_loop k s off = (
    ap (occurrences tid) (fire-calls has_loop (deletes k) (cancelled k s)),
    subst (λ ts. AllOff tid ts) (sym (fire-tasks has_loop (deletes k) (cancelled k s))) off,
  )

  cancel-Quiet :
      (has_loop : Bool) (k : ℕ) (s : Scheduler) → IsOff tid s → Quiet tid s (cancel has_loop k s)
  unfolding cancel
  cancel-Quiet has_loop k s off = elim (Option-cases (fetchrow (by_schedule k) s.tasks)) [
    | inl missing ↦ rw missing (refl, off)
    | inr (t, found) ↦ rw (cancel-found has_loop k s t found) (
        fired-Quiet has_loop k s
          (disabled-AllOff k s.tasks (λ x there named. inr (off x there named))))
  ]

  register-Quiet :
      (key : String) (s : Scheduler) → IsOff tid s → Quiet tid s (register_callback key s)
  unfolding register_callback
  register-Quiet key s off = elim (Bool-cases (not (str_eq key ""))) [
    | inl named ↦ rw named (refl, off)
    | inr no_key ↦ rw no_key (refl, off)
  ]

  write-Quiet :
      (succeeds : Bool) (picked : Option (Write × List Write)) (s : Scheduler)
      → IsOff tid s
      → (occurrences tid (run_picked succeeds picked s).calls ≡ occurrences tid s.calls)
        × IsOff tid (run_picked succeeds picked s)
  write-Quiet succeeds none s off = (refl, off)
  write-Quiet false (some (w, ws)) s off = (refl, off)
  write-Quiet true (some (saves t, ws)) s off = (refl, off)
  write-Quiet true (some (deletes k, ws)) s off = (refl, off)

  act-Quiet :
      (a : Act) (s : Scheduler)
      → Avoids tid a s
      → IsOff tid s
      → (occurrences tid (act a s).calls ≡ occurrences tid s.calls) × IsOff tid (act a s)
  unfolding tick restore_schedules
  act-Quiet (ticks ends now) s apart off = tick_all-Quiet tid ends now (ids_of s.tasks) s off
  act-Quiet restores s apart off = restore_from-Quiet tid s.table s apart off
  act-Quiet (registers key) s apart off = register-Quiet key s off
  act-Quiet (schedules has_loop k gid key run_at interval) s apart off =
      schedule-Quiet has_loop k gid key run_at interval s apart off
  act-Quiet (cancels has_loop k) s apart off = cancel-Quiet has_loop k s off
  act-Quiet (writes n succeeds) s apart off = write-Quiet succeeds (take_write n s.background) s off

  act_all-Quiet :
      (acts : List Act) (s : Scheduler)
      → AvoidsAll tid acts s
      → IsOff tid s
      → occurrences tid (act_all acts s).calls ≡ occurrences tid s.calls
  act_all-Quiet [] s apart off = refl
  act_all-Quiet (a ∷ acts) s (first, later) off =
      let (same, after) = act-Quiet a s first off in act_all-Quiet acts (act a s) later after ∙ same

  -- After a call of cancel that returns, in a running loop or not, the callback of the task is not
  -- called again, whatever is ticked, registered, scheduled under other ids, cancelled or restored
  -- and whichever background writes succeed, as long as no restore finds a row of the task in the
  -- table: the delete that cancel leaves to a background task may be late or lost.
  pub cancelled_never_called :
      (has_loop : Bool) (acts : List Act) (s : Scheduler)
      → (cancel has_loop tid s).0 ≡ ok tt
      → AvoidsAll tid acts (cancel has_loop tid s).1
      → occurrences tid (act_all acts (cancel has_loop tid s).1).calls ≡ occurrences tid s.calls
  cancelled_never_called has_loop acts s returns apart =
      elim (Option-cases (fetchrow (by_schedule tid) s.tasks)) [
        | inl missing ↦ let raised = cancel-missing has_loop tid s missing in cc
        | inr (t, found) ↦
            let left = ap (λ end. end.1) (cancel-found has_loop tid s t found) in
            let (same, off) =
              fired-Quiet has_loop tid s
                (disabled-AllOff tid s.tasks (λ x there named. inl refl)) in
            let off' : IsOff tid (cancel has_loop tid s).1 =
              subst (λ z. IsOff tid z) (sym left) off in
            act_all-Quiet acts (cancel has_loop tid s).1 apart off'
            ∙ ap (λ z. occurrences tid z.calls) left
            ∙ same
      ]
