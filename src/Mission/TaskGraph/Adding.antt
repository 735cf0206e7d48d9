-- ===== src/Mission/TaskGraph/Adding.antt =====
-- add_task of services/mission/task_graph.py: what it requires of a task, and that no method
-- breaks it afterwards.
pub mod Acyclic
use agent_os.Prelude.{
  ℕ, String, ◌≡◌, ◌≢◌, refl, sym, subst, ap, ◌⊎◌, inl, inr, Bool, true, false, ◌&&◌, Option, none,
  some, List, [], ◌∷◌, ◌++◌, map, arith, ◌==◌, ==_iff, if◌then◌else◌, all, All, In, contains,
  Bool-cases, &&-true,
}
use agent_os.Errors.{Result, ok, err, value_error}
use agent_os.Exec.{◌>>=◌}
use agent_os.Sql.{select, insert, update_where}
use agent_os.Sql.Select.{In-select}
use agent_os.Sql.Keyed.{IsFresh, IsKeyed, IsKeyed-insert}
use agent_os.Mission.Tables.{MissionTask, Database}
use agent_os.Mission.Tables.Status.{TaskStatus}
use agent_os.Mission.TaskGraph.{
  NewTask, new_task, found_ids, add_task, TaskFields, compare_and_set, set_task, claim_for_dispatch,
  dispatch,
}
use agent_os.Mission.TaskGraph.Updates.{TaskKeys}

-- Every dependency of a task is a task of the same mission that was added before it. `earlier`
-- holds the identifiers of the tasks seen so far, with their missions.
abbrev pub IsGrounded : List (ℕ × ℕ) → List MissionTask → Type 0
IsGrounded earlier [] = Unit
IsGrounded earlier (t ∷ ts) =
    ((d : ℕ) → In d t.dependencies → In (d, t.mission_id) earlier)
    × IsGrounded ((t.task_id, t.mission_id) ∷ earlier) ts

-- The task `d` of the mission `m` is among `ts`.
abbrev Names : ℕ → ℕ → List MissionTask → Type 0
Names d m ts = (u : MissionTask) × In u ts × (u.task_id ≡ d) × (u.mission_id ≡ m)

IsGrounded-insert :
    (earlier : List (ℕ × ℕ)) (new : MissionTask) (ts : List MissionTask)
    → IsGrounded earlier ts
    → ((d : ℕ) → In d new.dependencies → In (d, new.mission_id) earlier ⊎ Names d new.mission_id ts)
    → IsGrounded earlier (insert new ts)
IsGrounded-insert earlier new [] h deps = (λ d k. only (deps d k), tt)
  where
    only :
        {d : ℕ}
        → In (d, new.mission_id) earlier ⊎ Names d new.mission_id []
        → In (d, new.mission_id) earlier
    only (inl k) = k
    only (inr (u, k, _, _)) = elim k [ ]
IsGrounded-insert earlier new (t ∷ ts) h deps = (
  h.0,
  IsGrounded-insert ((t.task_id, t.mission_id) ∷ earlier) new ts h.1 (λ d k. later (deps d k)),
)
  where
    later :
        {d : ℕ}
        → In (d, new.mission_id) earlier ⊎ Names d new.mission_id (t ∷ ts)
        → In (d, new.mission_id) ((t.task_id, t.mission_id) ∷ earlier) ⊎ Names d new.mission_id ts
    later (inl k) = inl (inr k)
    later (inr (u, inl e, same_id, same_mission)) = inl (inl (grind arith))
    later (inr (u, inr k, same_id, same_mission)) = inr (u, k, same_id, same_mission)

-- An UPDATE that leaves the identifiers, the missions and the dependencies.
IsGrounded-update :
    (p : MissionTask → Bool) (f : MissionTask → MissionTask)
    (ids : (t : MissionTask) → (f t).task_id ≡ t.task_id)
    (missions : (t : MissionTask) → (f t).mission_id ≡ t.mission_id)
    (deps : (t : MissionTask) → (f t).dependencies ≡ t.dependencies) (earlier : List (ℕ × ℕ))
    (ts : List MissionTask)
    → IsGrounded earlier ts
    → IsGrounded earlier (update_where p f ts)
IsGrounded-update p f ids missions deps earlier [] h = tt
IsGrounded-update p f ids missions deps earlier (t ∷ ts) h = elim (Bool-cases (p t)) [
  | inl hit ↦
      rw (hit, ids t, missions t, deps t)
        (h.0, IsGrounded-update p f ids missions deps ((t.task_id, t.mission_id) ∷ earlier) ts h.1)
  | inr miss ↦
      rw miss
        (h.0, IsGrounded-update p f ids missions deps ((t.task_id, t.mission_id) ∷ earlier) ts h.1)
]

contains-In : (d : ℕ) (xs : List ℕ) → contains d xs ≡ true → In d xs
contains-In d [] h = cc
contains-In d (x ∷ xs) h = elim (Bool-cases (x == d)) [
  | inl e ↦ inl ((==_iff x d).0 e)
  | inr e ↦ inr (contains-In d xs (ground arith))
]

all-In : (p : ℕ → Bool) (ds : List ℕ) → all p ds ≡ true → (d : ℕ) → In d ds → p d ≡ true
all-In p [] h d k = elim k [ ]
all-In p (x ∷ xs) h d (inl e) = subst (λ y. p y ≡ true) e (&&-true (p x) (all p xs) h).0
all-In p (x ∷ xs) h d (inr k) = all-In p xs (&&-true (p x) (all p xs) h).1 d k

In-ids :
    (d : ℕ) (ts : List MissionTask)
    → In d (map (λ t. t.task_id) ts)
    → (u : MissionTask) × In u ts × (u.task_id ≡ d)
In-ids d [] h = elim h [ ]
In-ids d (t ∷ ts) (inl e) = (t, inl refl, e)
In-ids d (t ∷ ts) (inr k) = let (u, there, e) = In-ids d ts k in (u, inr there, e)

module _ (task_id mission_id : ℕ) (a : NewTask) (db : Database) where
  abbrev found : List ℕ
  found = found_ids mission_id a.dependencies db.tasks

  found-Names : (d : ℕ) → In d found → Names d mission_id db.tasks
  found-Names d h =
      let (u, there, e) = In-ids d (select _ db.tasks) h in
      let (stored, hit) = In-select _ u db.tasks there in
      (
        u,
        stored,
        e,
        (==_iff u.mission_id mission_id).0 (&&-true (u.mission_id == mission_id) _ hit).0,
      )

  pub add_task_cases :
      ((add_task task_id mission_id a db) ≡ (err value_error, db))
      ⊎ ((all (λ d. contains d found) a.dependencies ≡ true)
          × (add_task task_id mission_id a db ≡ (
            ok task_id,
            record db { tasks = insert (new_task task_id mission_id a) db.tasks },
          )))
  unfolding add_task
  add_task_cases = elim (Bool-cases (all (λ d. contains d found) a.dependencies)) [
    | inl there ↦ inr (there, rw there)
    | inr dangling ↦ inl (rw dangling)
  ]

  -- add_task, with a task_id that no task has, keeps every dependency a task of the same mission
  -- that was added before, and the keys unique, whether it returns or raises.
  pub add_task-IsGrounded :
      IsFresh (λ t. t.task_id) task_id db.tasks
      → TaskKeys db
      → IsGrounded [] db.tasks
      → IsGrounded [] (add_task task_id mission_id a db).1.tasks
        × TaskKeys (add_task task_id mission_id a db).1
  add_task-IsGrounded fresh keys h = elim add_task_cases [
    | inl refused ↦ rw refused (h, keys)
    | inr (there, added) ↦ rw added (
      IsGrounded-insert [] (new_task task_id mission_id a) db.tasks h (λ d k. inr (
          found-Names d
            (contains-In d found (all-In (λ x. contains x found) a.dependencies there d k)))),
      IsKeyed-insert (λ t. t.task_id) (new_task task_id mission_id a) db.tasks fresh keys,
    )
  ]

pub compare_and_set-IsGrounded :
    (task_id : ℕ) (expected status : TaskStatus) (fields : TaskFields) (db : Database)
    → IsGrounded [] db.tasks
    → IsGrounded [] (compare_and_set task_id expected status fields db).1.tasks
unfolding compare_and_set
compare_and_set-IsGrounded task_id expected status fields db h =
    IsGrounded-update _ (set_task status fields) (λ t. refl) (λ t. refl) (λ t. refl) [] db.tasks h

pub claim-IsGrounded :
    (task_id : ℕ) (executor_type : String) (hermes_task_id execution_id started_at : ℕ)
    (db : Database)
    → IsGrounded [] db.tasks
    → IsGrounded []
        (claim_for_dispatch task_id executor_type hermes_task_id execution_id started_at db).1.tasks
unfolding claim_for_dispatch
claim-IsGrounded task_id executor_type hermes_task_id execution_id started_at db h =
    IsGrounded-update _ (dispatch executor_type hermes_task_id execution_id started_at) (λ t. refl)
      (λ t. refl) (λ t. refl) [] db.tasks h
