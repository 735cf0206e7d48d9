-- ===== src/Mission/TaskGraph/Interleaving.antt =====
-- Executors that share the `mission_tasks` table: update_status of
-- services/mission/task_graph.py is a check and, later, the compare-and-set; the other methods are
-- one statement.
use agent_os.Prelude.{
  ℕ, String, ◌≡◌, refl, sym, subst, inl, inr, Bool, true, false, some, arith, ◌==◌, if◌then◌else◌,
  Bool-cases, &&-true, all, contains, ◌&&◌,
}
use agent_os.Prelude.Chains.{Chain, done, link, Chain-trans, Chain-stuck}
use agent_os.Errors.{ok}
use agent_os.Sql.Keyed.{fetchrow-update, fetchrow-insert, IsFresh}
use agent_os.Mission.Tables.{MissionTask, Database}
use agent_os.Mission.Tables.Status.{
  TaskStatus, same_task, same_task_iff, pending, dispatched, passed, skipped,
}
use agent_os.Mission.TaskGraph.{
  TaskFields, NewTask, new_task, found_ids, may_update, set_task, by_task, compare_and_set,
  check_update, add_task, claim_for_dispatch, dispatch,
}
use agent_os.Mission.TaskGraph.Updates.{task_row, task_row-compare_and_set}

-- Where an executor stands: outside, or between the check of update_status and its UPDATE.
pub data Pc : Type 0 where
  idle : Pc
  checked : (task_id : ℕ) (current status : TaskStatus) → Pc

pub record System : Type 0 where
  pub db : Database
  pub pc : ℕ → Pc

abbrev pub update : (ℕ → Pc) → ℕ → Pc → ℕ → Pc
update f i p j = if i == j then p else f j

pub data Step (s : System) : System → Type 0 where
  check :
      (i task_id : ℕ) (current status : TaskStatus)
      → (check_update task_id status s.db).0 ≡ ok current
      → Step s (record s { pc = update s.pc i (checked task_id current status) })
  write :
      (i task_id : ℕ) (current status : TaskStatus) (fields : TaskFields)
      → s.pc i ≡ checked task_id current status
      → Step s (record {
        db = (compare_and_set task_id current status fields s.db).1;
        pc = update s.pc i idle;
      })
  claim :
      (task_id : ℕ) (executor_type : String) (hermes_task_id execution_id started_at : ℕ)
      → Step s (record s {
        db =
            (claim_for_dispatch task_id executor_type hermes_task_id execution_id started_at
              s.db).1;
      })
  add :
      (task_id mission_id : ℕ) (a : NewTask)
      → IsFresh (λ t. t.task_id) task_id s.db.tasks
      → Step s (record s { db = (add_task task_id mission_id a s.db).1 })

pub data Steps (s : System) : System → Type 0 where
  stay : Steps s s
  next : {t u : System} → Steps s t → Step t u → Steps s u

-- An executor goes to its UPDATE only with a transition that the table allows.
pub record IsSound (s : System) : Type 0 where
  pub at :
      (i task_id : ℕ) (current status : TaskStatus)
      → s.pc i ≡ checked task_id current status
      → may_update current status ≡ true

abbrev pub Updates : TaskStatus → TaskStatus → Type 0
Updates = Chain may_update

check_allows :
    (task_id : ℕ) (db : Database) (current status : TaskStatus)
    → (check_update task_id status db).0 ≡ ok current
    → may_update current status ≡ true
unfolding check_update
check_allows task_id db current status h = ground arith

Step-IsSound : {s t : System} → Step s t → IsSound s → IsSound t
Step-IsSound {s} (check i id current status h) v = record {
  at = λ j k c n e. ground (arith, check_allows id s.db current status h, v.at j k c n);
}
Step-IsSound (write i id current status fields h) v = record {
  at = λ j k c n e. ground (arith, v.at j k c n);
}
Step-IsSound (claim id e h x n) v = record { at = v.at }
Step-IsSound (add id m a h) v = record { at = v.at }

-- The task is still there, further along by allowed transitions.
abbrev pub Advanced : ℕ → MissionTask → Database → Type 0
Advanced j t db' = (t' : MissionTask) × (task_row j db' ≡ some t') × Updates t.status t'.status

link_if :
    (b : Bool) (t t' : MissionTask)
    → (b ≡ true → may_update t.status t'.status ≡ true)
    → Updates t.status (if b then t' else t).status
link_if true t t' h = link done (h refl)
link_if false t t' h = done

from_same :
    (a b c : TaskStatus) → same_task a b ≡ true → may_update b c ≡ true → may_update a c ≡ true
from_same a b c same h = subst (λ x. may_update x c ≡ true) (sym ((same_task_iff a b).0 same)) h

Advanced-compare_and_set :
    (id : ℕ) (current status : TaskStatus) (fields : TaskFields) (j : ℕ) (t : MissionTask)
    (db : Database)
    → may_update current status ≡ true
    → task_row j db ≡ some t
    → Advanced j t (compare_and_set id current status fields db).1
Advanced-compare_and_set id current status fields j t db allowed row = (
  _,
  task_row-compare_and_set id current status fields db j t row,
  link_if _ t (set_task status fields t) (λ h.
      from_same t.status current status (&&-true (by_task id t) (same_task t.status current) h).1
        allowed),
)

pending_dispatched : may_update pending dispatched ≡ true
unfolding may_update
pending_dispatched = refl

Advanced-claim :
    (id : ℕ) (executor_type : String) (h x n j : ℕ) (t : MissionTask) (db : Database)
    → task_row j db ≡ some t
    → Advanced j t (claim_for_dispatch id executor_type h x n db).1
unfolding claim_for_dispatch
Advanced-claim id executor_type h x n j t db row = (
  (if by_task id t && same_task t.status pending then dispatch executor_type h x n t else t),
  rw (
    fetchrow-update (λ t. t.task_id) _ (dispatch executor_type h x n) (λ r. refl) j db.tasks,
    row,
  ),
  link_if _ t (dispatch executor_type h x n t) (λ hit.
      from_same t.status pending dispatched
        (&&-true (by_task id t) (same_task t.status pending) hit).1 pending_dispatched),
)

task_row-add_task :
    (id mission_id : ℕ) (a : NewTask) (j : ℕ) (t : MissionTask) (db : Database)
    → task_row j db ≡ some t
    → task_row j (add_task id mission_id a db).1 ≡ some t
unfolding add_task
task_row-add_task id mission_id a j t db row =
    elim (Bool-cases
      (all (λ d. contains d (found_ids mission_id a.dependencies db.tasks)) a.dependencies)) [
        | inl there ↦
            rw there (rw (fetchrow-insert (by_task j) (new_task id mission_id a) db.tasks, row))
        | inr dangling ↦ rw dangling row
      ]

Step-Advanced :
    {s t : System} (j : ℕ) (task : MissionTask)
    → Step s t
    → IsSound s
    → task_row j s.db ≡ some task
    → Advanced j task t.db
Step-Advanced j task (check i id current status h) v row = (task, row, done)
Step-Advanced {s} j task (write i id current status fields h) v row =
    Advanced-compare_and_set id current status fields j task s.db (v.at i id current status h) row
Step-Advanced {s} j task (claim id e h x n) v row = Advanced-claim id e h x n j task s.db row
Step-Advanced {s} j task (add id m a h) v row =
    (task, task_row-add_task id m a j task s.db row, done)

Steps-IsSound : {s t : System} → IsSound s → Steps s t → IsSound t
Steps-IsSound v stay = v
Steps-IsSound v (next r st) = Step-IsSound st (Steps-IsSound v r)

-- However the statements of the executors interleave, a task stays in the table, and its status
-- moves only along transitions that TASK_ALLOWED_TRANSITIONS has.
pub task_advances :
    {s t : System} (j : ℕ) (task : MissionTask)
    → Steps s t
    → IsSound s
    → task_row j s.db ≡ some task
    → Advanced j task t.db
task_advances j task stay v row = (task, row, done)
task_advances j task (next r st) v row =
    let (t1, row1, chain1) = task_advances j task r v row in
    let (t2, row2, chain2) = Step-Advanced j t1 st (Steps-IsSound v r) row1 in
    (t2, row2, Chain-trans may_update chain1 chain2)

abbrev pub is_terminal : TaskStatus → Bool
is_terminal passed = true
is_terminal skipped = true
is_terminal _ = false

terminal_stays : (a b : TaskStatus) → is_terminal a ≡ true → may_update a b ≡ true → b ≡ a
unfolding may_update
terminal_stays a b h allowed = ground arith

-- A task that has passed or was skipped keeps that status, whatever any number of executors does
-- afterwards.
pub task_terminal_forever :
    {s t : System} (j : ℕ) (task : MissionTask)
    → Steps s t
    → IsSound s
    → task_row j s.db ≡ some task
    → is_terminal task.status ≡ true
    → (t' : MissionTask) × (task_row j t.db ≡ some t') × (t'.status ≡ task.status)
task_terminal_forever j task r v row h =
    let (t', row', chain) = task_advances j task r v row in
    (t', row', Chain-stuck may_update task.status (λ c. terminal_stays task.status c h) chain)
