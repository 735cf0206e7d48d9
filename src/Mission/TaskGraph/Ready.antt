-- ===== src/Mission/TaskGraph/Ready.antt =====
-- ready_tasks of services/mission/task_graph.py.
use agent_os.Prelude.{
  ℕ, ◌≡◌, refl, sym, ap, subst, ◌∙◌, inl, inr, Bool-cases, ◌↔◌, true, false, Option, none, some,
  List, [], ◌∷◌, arith, ◌==◌, ==_iff, all, All, In, &&-true,
}
use agent_os.Prelude.Sorting.{sort, IsSorted, IsSorted-sort, In-sort, sort-In}
use agent_os.Errors.{ok}
use agent_os.Sql.{select, fetchrow}
use agent_os.Sql.Select.{In-select, select-In}
use agent_os.Mission.Ids.{Driver, texts, uuid_objects, text_value, object_value, id_value-injective}
use agent_os.Mission.Tables.{MissionTask, Database}
use agent_os.Mission.Tables.Status.{TaskStatus, pending, passed, same_task, same_task_iff}
use agent_os.Mission.TaskGraph.{
  by_task, looked_up, of_mission, is_passed, is_ready, higher_priority, ready_tasks,
}

-- Among `tasks` the task `d` has passed.
abbrev pub HasPassed : List MissionTask → ℕ → Type 0
HasPassed tasks d = (u : MissionTask) × (fetchrow (by_task d) tasks ≡ some u) × (u.status ≡ passed)

-- What ready_tasks asks of the dependencies: of texts, that they have passed; of uuid.UUID objects,
-- that there are none.
abbrev pub Fulfilled : Driver → List MissionTask → List ℕ → Type 0
Fulfilled texts tasks dependencies = All (HasPassed tasks) dependencies
Fulfilled uuid_objects tasks dependencies = dependencies ≡ []

-- A task that is returned: still pending, of this mission, and with its dependencies fulfilled.
abbrev pub CanRun : Driver → (mission_id : ℕ) → Database → MissionTask → Type 0
CanRun driver mission_id db t =
    In t db.tasks
    × (t.mission_id ≡ mission_id)
    × (t.status ≡ pending)
    × Fulfilled driver (of_mission mission_id db.tasks) t.dependencies

looked_up-texts :
    (tasks : List MissionTask) (d : ℕ) → looked_up texts tasks d ≡ fetchrow (by_task d) tasks
looked_up-texts [] d = refl
looked_up-texts (t ∷ ts) d = elim (Bool-cases (t.task_id == d)) [
  | inl e ↦
      let same : (text_value t.task_id == text_value d) ≡ true =
        (==_iff (text_value t.task_id) (text_value d)).1
          (ap text_value ((==_iff t.task_id d).0 e)) in
      rw (e, same) refl
  | inr other ↦
      let apart : (text_value t.task_id == text_value d) ≡ false =
        ground (arith, ==_iff t.task_id d, id_value-injective texts t.task_id d) in
      rw (other, apart) (looked_up-texts ts d)
]

looked_up-objects : (tasks : List MissionTask) (d : ℕ) → looked_up uuid_objects tasks d ≡ none
looked_up-objects [] d = refl
looked_up-objects (t ∷ ts) d =
    let apart : (object_value t.task_id == text_value d) ≡ false =
      ground (arith, ==_iff (object_value t.task_id) (text_value d)) in
    rw apart (looked_up-objects ts d)

is_passed_iff :
    (o : Option MissionTask)
    → (is_passed o ≡ true) ↔ ((u : MissionTask) × (o ≡ some u) × (u.status ≡ passed))
is_passed_iff none = ((λ h. cc), λ (u, e, k). cc)
is_passed_iff (some t) = (
  λ h. (t, refl, (same_task_iff t.status passed).0 h),
  λ (u, e, k). (same_task_iff t.status passed).1 (ap (λ o. status_or o) e ∙ k),
)
  where
    status_or : Option MissionTask → TaskStatus
    status_or none = pending
    status_or (some v) = v.status

texts_sound :
    (tasks : List MissionTask) (ds : List ℕ)
    → all (λ d. is_passed (looked_up texts tasks d)) ds ≡ true
    → All (HasPassed tasks) ds
texts_sound tasks [] h = tt
texts_sound tasks (d ∷ ds) h =
    let (first, rest) = &&-true (is_passed (looked_up texts tasks d)) _ h in
    (
      (is_passed_iff (fetchrow (by_task d) tasks)).0
          (subst (λ o. is_passed o ≡ true) (looked_up-texts tasks d) first),
      texts_sound tasks ds rest,
    )

texts_complete :
    (tasks : List MissionTask) (ds : List ℕ)
    → All (HasPassed tasks) ds
    → all (λ d. is_passed (looked_up texts tasks d)) ds ≡ true
texts_complete tasks [] h = refl
texts_complete tasks (d ∷ ds) h =
    let first : is_passed (looked_up texts tasks d) ≡ true =
      subst (λ o. is_passed o ≡ true) (sym (looked_up-texts tasks d))
        ((is_passed_iff (fetchrow (by_task d) tasks)).1 h.0) in
    rw first (texts_complete tasks ds h.1)

all_sound :
    (driver : Driver) (tasks : List MissionTask) (ds : List ℕ)
    → all (λ d. is_passed (looked_up driver tasks d)) ds ≡ true
    → Fulfilled driver tasks ds
all_sound texts tasks ds h = texts_sound tasks ds h
all_sound uuid_objects tasks [] h = refl
all_sound uuid_objects tasks (d ∷ ds) h =
    let (first, rest) = &&-true (is_passed (looked_up uuid_objects tasks d)) _ h in
    let missing = looked_up-objects tasks d in
    absurd (nothing (subst (λ o. is_passed o ≡ true) missing first))
  where
    nothing : false ≡ true → ⊥
    nothing e = cc

all_complete :
    (driver : Driver) (tasks : List MissionTask) (ds : List ℕ)
    → Fulfilled driver tasks ds
    → all (λ d. is_passed (looked_up driver tasks d)) ds ≡ true
all_complete texts tasks ds h = texts_complete tasks ds h
all_complete uuid_objects tasks ds h = rw h refl

module _ (driver : Driver) (mission_id : ℕ) (db : Database) (t : MissionTask) where
  abbrev tasks : List MissionTask
  tasks = of_mission mission_id db.tasks

  abbrev result : List MissionTask
  result = sort higher_priority (select (is_ready driver tasks) tasks)

  result_sound : In t result → CanRun driver mission_id db t
  result_sound h =
      let (there, ready) =
        In-select (is_ready driver tasks) t tasks
          (In-sort higher_priority t (select (is_ready driver tasks) tasks) h) in
      let (stored, ours) = In-select (λ r. r.mission_id == mission_id) t db.tasks there in
      let (waiting, deps) = &&-true (same_task t.status pending) _ ready in
      (
        stored,
        (==_iff t.mission_id mission_id).0 ours,
        (same_task_iff t.status pending).0 waiting,
        all_sound driver tasks t.dependencies deps,
      )

  result_complete : CanRun driver mission_id db t → In t result
  result_complete (stored, ours, waiting, deps) =
      let there : In t tasks =
        select-In (λ r. r.mission_id == mission_id) t db.tasks stored
          ((==_iff t.mission_id mission_id).1 ours) in
      let ready : is_ready driver tasks t ≡ true =
        rw ((same_task_iff t.status pending).1 waiting)
          (all_complete driver tasks t.dependencies deps) in
      sort-In higher_priority t (select (is_ready driver tasks) tasks)
        (select-In (is_ready driver tasks) t tasks there ready)

total : (a b : MissionTask) → higher_priority a b ≡ false → higher_priority b a ≡ true
unfolding higher_priority
total a b h = ground arith

trans :
    (a b c : MissionTask)
    → higher_priority a b ≡ true
    → higher_priority b c ≡ true
    → higher_priority a c ≡ true
unfolding higher_priority
trans a b c h k = ground arith

-- ready_tasks changes nothing and returns, those of higher priority first, exactly the tasks of the
-- mission that are pending and, where the driver returns the ids as texts, whose dependencies have
-- all passed; where the driver returns uuid.UUID objects, exactly the pending tasks without
-- dependencies.
pub ready_tasks_exact :
    (driver : Driver) (mission_id : ℕ) (db : Database)
    → (ready : List MissionTask) × (ready_tasks driver mission_id db ≡ (ok ready, db))
      × ((t : MissionTask) → In t ready ↔ CanRun driver mission_id db t)
      × IsSorted higher_priority ready
unfolding ready_tasks
ready_tasks_exact driver mission_id db = (
  sort higher_priority
      (select (is_ready driver (of_mission mission_id db.tasks)) (of_mission mission_id db.tasks)),
  refl,
  λ t. (result_sound driver mission_id db t, result_complete driver mission_id db t),
  IsSorted-sort higher_priority total trans
      (select (is_ready driver (of_mission mission_id db.tasks)) (of_mission mission_id db.tasks)),
)
