-- ===== src/AgentOs/Scheduler.antt =====
-- Scheduler of services/hermes/agent_os30/autonomy.py, with the table agent_schedules of
-- services/hermes/agent_os30/persistence.py. Times and intervals are in seconds.
pub mod Rounds
pub mod Cancelled
use agent_os.Prelude.{
  ℕ, zero, suc, String, Bool, true, false, not, Option, none, some, List, [], ◌∷◌, ◌++◌, leb, ◌==◌,
  str_eq, ◌&&◌, if◌then◌else◌, ◌+◌,
}
use agent_os.Prelude.Sorting.{sort}
use agent_os.Errors.{Error, Result, ok, err}
use agent_os.Exec.{Exec, pure, lift, gets, modify, require, ◌>>=◌, ◌>>◌}
use agent_os.Sql.{select, insert, fetchrow, update_where}
use agent_os.Sql.Keyed.{by_key}

-- A registered callback is known by its key.
pub record ScheduledTask : Type 0 where
  pub task_id : ℕ
  pub goal_id : ℕ
  pub run_at : ℕ
  pub callback_key : String
  pub interval_seconds : Option ℕ
  pub enabled : Bool

-- A write of a background task that has been created and has not run.
pub data Write : Type 0 where
  saves : ScheduledTask → Write
  deletes : (tid : ℕ) → Write

-- The dict of tasks in its order, the registered keys, the table if there is a store, the writes of
-- background tasks, and the tasks whose callbacks have been called, latest first.
pub record Scheduler : Type 0 where
  pub tasks : List ScheduledTask
  pub callbacks : List String
  pub table : Option (List ScheduledTask)
  pub background : List Write
  pub calls : List ℕ

abbrev pub by_schedule : ℕ → ScheduledTask → Bool
by_schedule = by_key (λ t. t.task_id)

abbrev pub or_insert :
    Option ScheduledTask → ScheduledTask → List ScheduledTask → List ScheduledTask
or_insert none t ts = insert t ts
or_insert (some old) t ts = update_where (by_schedule t.task_id) (λ s. t) ts

-- self.tasks[t.task_id] = t: a key that is there keeps its place
abbrev pub put_schedule : ScheduledTask → List ScheduledTask → List ScheduledTask
put_schedule t ts = or_insert (fetchrow (by_schedule t.task_id) ts) t ts

abbrev pub on_table :
    (List ScheduledTask → List ScheduledTask)
    → Option (List ScheduledTask)
    → Option (List ScheduledTask)
on_table change none = none
on_table change (some rows) = some (change rows)

-- INSERT INTO agent_schedules … ON CONFLICT DO UPDATE of run_at, interval_seconds and enabled; the
-- goal and the key of a task never change
abbrev pub save_schedule : ScheduledTask → Scheduler → Scheduler
save_schedule t s = record s { table = on_table (put_schedule t) s.table }

-- DELETE FROM agent_schedules WHERE schedule_id = …
abbrev pub delete_schedule : (tid : ℕ) → Scheduler → Scheduler
delete_schedule tid s = record s {
  table = on_table (select (λ t. not (by_schedule tid t))) s.table;
}

abbrev pub append_write : Option (List ScheduledTask) → Write → List Write → List Write
append_write none w ws = ws
append_write (some rows) w ws = ws ++ w ∷ []

-- _persist and _delete_persisted: with a store, and in a running loop, a background task is created
abbrev pub fire : (has_loop : Bool) → Write → Scheduler → Scheduler
fire false w s = s
fire true w s = record s { background = append_write s.table w s.background }

abbrev pub run_write : Write → Scheduler → Scheduler
run_write (saves t) s = save_schedule t s
run_write (deletes tid) s = delete_schedule tid s

-- the background task in place n, and the others
unfoldable pub take_write : ℕ → List Write → Option (Write × List Write)
take_write n [] = none
take_write zero (w ∷ ws) = some (w, ws)
take_write (suc n) (w ∷ ws) =
    let rest = take_write n ws in
    elim rest [ none ↦ none | some (found, others) ↦ some (found, w ∷ others) ]

-- A background task runs, any of them; its write succeeds, or is lost with its exception.
abbrev pub run_picked : (succeeds : Bool) → Option (Write × List Write) → Scheduler → Scheduler
run_picked succeeds none s = s
run_picked true (some (w, ws)) s = run_write w (record s { background = ws })
run_picked false (some (w, ws)) s = record s { background = ws }

abbrev pub run_background : (n : ℕ) (succeeds : Bool) → Scheduler → Scheduler
run_background n succeeds s = run_picked succeeds (take_write n s.background) s

abbrev pub is_registered : String → List String → Bool
is_registered key [] = false
is_registered key (k ∷ ks) = if str_eq k key then true else is_registered key ks

unfoldable pub register_callback : String → Exec Scheduler (Unit {0})
register_callback key = do
  require (not (str_eq key "")) Error.value_error
  modify (λ s. record s { callbacks = key ∷ s.callbacks })

abbrev pub is_positive : Option ℕ → Bool
is_positive none = true
is_positive (some n) = not (n == 0)

-- A task that is scheduled by the key of a registered callback. `tid` is the uuid4 that the call
-- draws.
unfoldable pub schedule :
    (has_loop : Bool) (tid gid : ℕ)
    → (callback_key : String) → (run_at : ℕ) → (interval_seconds : Option ℕ) → Exec Scheduler ℕ
schedule has_loop tid gid callback_key run_at interval_seconds = do
  require (is_positive interval_seconds) Error.value_error
  require (not (str_eq callback_key "")) Error.value_error
  known ← gets (λ s. is_registered callback_key s.callbacks)
  require known Error.value_error
  let t : ScheduledTask = record {
    task_id = tid;
    goal_id = gid;
    run_at = run_at;
    callback_key = callback_key;
    interval_seconds = interval_seconds;
    enabled = true;
  }
  modify (λ s. record s { tasks = put_schedule t s.tasks })
  modify (fire has_loop (saves t))
  pure tid

abbrev pub schedule_or_key_error : Option ScheduledTask → Result ScheduledTask
schedule_or_key_error none = err Error.key_error
schedule_or_key_error (some t) = ok t

abbrev pub disable : ScheduledTask → ScheduledTask
disable t = record t { enabled = false }

unfoldable pub cancel : (has_loop : Bool) (tid : ℕ) → Exec Scheduler (Unit {0})
cancel has_loop tid = do
  found ← gets (λ s. fetchrow (by_schedule tid) s.tasks)
  t ← lift (schedule_or_key_error found)
  modify (λ s. record s { tasks = update_where (by_schedule tid) disable s.tasks })
  modify (fire has_loop (deletes tid))

-- The rows of load_schedules whose key is registered, ORDER BY run_at.
abbrev pub runs_before : ScheduledTask → ScheduledTask → Bool
runs_before a b = leb a.run_at b.run_at

unfoldable pub load_schedules : List ScheduledTask → List ScheduledTask
load_schedules rows = sort runs_before (select (λ t. t.enabled) rows)

unfoldable pub restore_rows : List ScheduledTask → Scheduler → List ℕ × Scheduler
restore_rows [] s = ([], s)
restore_rows (t ∷ ts) s =
    if is_registered t.callback_key s.callbacks
    then (let (ids, after) = restore_rows ts (record s { tasks = put_schedule t s.tasks }) in
        (t.task_id ∷ ids, after))
    else restore_rows ts s

abbrev pub restore_from : Option (List ScheduledTask) → Scheduler → List ℕ × Scheduler
restore_from none s = ([], s)
restore_from (some rows) s = restore_rows (load_schedules rows) s

unfoldable pub restore_schedules : Scheduler → List ℕ × Scheduler
restore_schedules s = restore_from s.table s

abbrev pub is_due : (now : ℕ) → ScheduledTask → Bool
is_due now t = t.enabled && leb t.run_at now

abbrev pub set_schedule : ScheduledTask → Scheduler → Scheduler
set_schedule t s = record s { tasks = update_where (by_schedule t.task_id) (λ old. t) s.tasks }

-- After a call: an interval that is not zero sets the next run, anything else disables the task.
abbrev pub reschedule_by : (now : ℕ) → Option ℕ → ScheduledTask → Scheduler → Scheduler
reschedule_by now none t s = delete_schedule t.task_id (set_schedule (disable t) s)
reschedule_by now (some n) t s =
    if n == 0
    then delete_schedule t.task_id (set_schedule (disable t) s)
    else (let next = record t { run_at = now + n } in
        save_schedule (record next { enabled = true }) (set_schedule next s))

abbrev pub called : ScheduledTask → Scheduler → Scheduler
called t s = record s { calls = t.task_id ∷ s.calls }

abbrev pub one_more : Result ℕ × Scheduler → Result ℕ × Scheduler
one_more (ok n, s) = (ok (suc n), s)
one_more (err e, s) = (err e, s)

-- How the call of a callback ends. One that raises TypeError is called a second time, without the
-- goal.
pub data CallbackEnd : Type 0 where
  returns : CallbackEnd
  raises : Error → CallbackEnd
  type_error_then : Option Error → CallbackEnd

abbrev pub after_callback :
    (now : ℕ) (rest : Scheduler → Result ℕ × Scheduler)
    → CallbackEnd
    → ScheduledTask
    → Scheduler
    → Result ℕ × Scheduler
after_callback now rest returns t s = one_more (rest (reschedule_by now t.interval_seconds t s))
after_callback now rest (raises e) t s = (err e, s)
after_callback now rest (type_error_then none) t s =
    one_more (rest (reschedule_by now t.interval_seconds t (called t s)))
after_callback now rest (type_error_then (some e)) t s = (err e, called t s)

-- The round of `tick` for a task, of which the dict's object t is read when its turn comes; the
-- rounds that are left are `rest`. A callback that raises ends the tick. The writes of a tick are
-- awaited, and taken to succeed.
abbrev pub tick_task :
    (ends : ScheduledTask → CallbackEnd) (now : ℕ) (rest : Scheduler → Result ℕ × Scheduler)
    → Option ScheduledTask
    → Scheduler
    → Result ℕ × Scheduler
tick_task ends now rest none s = rest s
tick_task ends now rest (some t) s =
    if is_due now t then after_callback now rest (ends t) t (called t s) else rest s

unfoldable pub tick_all : (ends : ScheduledTask → CallbackEnd) (now : ℕ) → List ℕ → Exec Scheduler ℕ
tick_all ends now [] s = (ok 0, s)
tick_all ends now (tid ∷ tids) s =
    let rest = tick_all ends now tids in
    tick_task ends now rest (fetchrow (by_schedule tid) s.tasks) s

abbrev pub ids_of : List ScheduledTask → List ℕ
ids_of [] = []
ids_of (t ∷ ts) = t.task_id ∷ ids_of ts

unfoldable pub tick : (ends : ScheduledTask → CallbackEnd) → (now : ℕ) → Exec Scheduler ℕ
tick ends now s = tick_all ends now (ids_of s.tasks) s
