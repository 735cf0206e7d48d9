-- ===== src/Mission/TaskGraph/Claims.antt =====
-- claim_for_dispatch of services/mission/task_graph.py under any number of claimants.
use agent_os.Prelude.{
  ℕ, String, ◌≡◌, refl, Bool, true, false, some, List, [], ◌∷◌, arith, ◌+◌, if◌then◌else◌,
}
use agent_os.Errors.{Result, ok, err}
use agent_os.Sql.Keyed.{fetchrow-and, fetchrow-update, fetchrow_key, IsKeyed-update}
use agent_os.Mission.Tables.{MissionTask, Database}
use agent_os.Mission.Tables.Status.{pending, dispatched, same_task, same_task_iff}
use agent_os.Mission.TaskGraph.{dispatch, claim_for_dispatch}
use agent_os.Mission.TaskGraph.Updates.{task_row, TaskKeys}

-- What one executor brings to a claim.
pub record Claim : Type 0 where
  pub executor_type : String
  pub hermes_task_id : ℕ
  pub execution_id : ℕ
  pub started_at : ℕ

abbrev pub claim : ℕ → Claim → Database → Result Bool × Database
claim task_id c =
    claim_for_dispatch task_id c.executor_type c.hermes_task_id c.execution_id c.started_at

abbrev pub dispatched_by : Claim → MissionTask → MissionTask
dispatched_by c = dispatch c.executor_type c.hermes_task_id c.execution_id c.started_at

abbrev pub won : Result Bool → ℕ
won (ok true) = 1
won (ok false) = 0
won (err e) = 0

-- The claims in the order in which the database runs them: how many win, and what they leave.
pub run_claims : ℕ → List Claim → Database → ℕ × Database
run_claims task_id [] db = (0, db)
run_claims task_id (c ∷ cs) db =
    let (r, db') = claim task_id c db in
    let (wins, last) = run_claims task_id cs db' in (won r + wins, last)

module _ (task_id : ℕ) (c : Claim) (db : Database) (t : MissionTask) (keys : TaskKeys db)
    (row : task_row task_id db ≡ some t) where
  pub claim_result : (claim task_id c db).0 ≡ ok (same_task t.status pending)
  unfolding claim_for_dispatch
  claim_result =
      rw
        (fetchrow-and (λ r. r.task_id) task_id (λ r. same_task r.status pending) db.tasks keys, row)
        (ground arith)

  pub task_row-claim :
      task_row task_id (claim task_id c db).1
      ≡ some (if same_task t.status pending then dispatched_by c t else t)
  unfolding claim_for_dispatch
  task_row-claim =
      rw (fetchrow-update (λ r. r.task_id) _ (dispatched_by c) (λ r. refl) task_id db.tasks, row)
        (ground (arith, fetchrow_key (λ r. r.task_id) task_id db.tasks t row))

  pub TaskKeys-claim : TaskKeys (claim task_id c db).1
  unfolding claim_for_dispatch
  TaskKeys-claim = IsKeyed-update (λ r. r.task_id) _ (dispatched_by c) (λ r. refl) db.tasks keys

not_pending : same_task dispatched pending ≡ false
unfolding same_task
not_pending = refl

-- No claim of a task that is not pending wins, and its row stays as it is.
claims_lost :
    (task_id : ℕ) (cs : List Claim) (db : Database) (t : MissionTask)
    → TaskKeys db
    → task_row task_id db ≡ some t
    → same_task t.status pending ≡ false
    → ((run_claims task_id cs db).0 ≡ 0) × (task_row task_id (run_claims task_id cs db).1 ≡ some t)
unfolding run_claims
claims_lost task_id [] db t keys row h = (refl, row)
claims_lost task_id (c ∷ cs) db t keys row h =
    let row' : task_row task_id (claim task_id c db).1 ≡ some t =
      ground (arith, task_row-claim task_id c db t keys row) in
    ground (
      arith,
      claim_result task_id c db t keys row,
      claims_lost task_id cs (claim task_id c db).1 t (TaskKeys-claim task_id c db t keys row) row'
          h,
    )

-- Of any claims of a pending task, in whatever order the database runs them, exactly the first
-- wins, and the row that they leave is dispatched for that claimant.
pub first_claim_wins :
    (task_id : ℕ) (c : Claim) (cs : List Claim) (db : Database) (t : MissionTask)
    → TaskKeys db
    → task_row task_id db ≡ some t
    → t.status ≡ pending
    → ((run_claims task_id (c ∷ cs) db).0 ≡ 1)
      × (task_row task_id (run_claims task_id (c ∷ cs) db).1 ≡ some (dispatched_by c t))
unfolding run_claims
first_claim_wins task_id c cs db t keys row h =
    let is_pending : same_task t.status pending ≡ true = (same_task_iff t.status pending).1 h in
    let row' : task_row task_id (claim task_id c db).1 ≡ some (dispatched_by c t) =
      ground (arith, task_row-claim task_id c db t keys row) in
    ground (
      arith,
      claim_result task_id c db t keys row,
      claims_lost task_id cs (claim task_id c db).1 (dispatched_by c t)
          (TaskKeys-claim task_id c db t keys row) row' not_pending,
    )
