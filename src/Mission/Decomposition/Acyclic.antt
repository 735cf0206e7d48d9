-- ===== src/Mission/Decomposition/Acyclic.antt =====
-- services/mission/decomposition.py never makes a cycle.
use agent_os.Prelude.{
  ℕ, suc, ◌≡◌, ◌≢◌, refl, inl, inr, Bool, true, false, get_elem?, Option, none, some, List, [], ◌∷◌,
  ◌++◌, length, length-append, Bool-cases, str_eq, ◌≤◌, ◌<◌, arith,
}
use agent_os.Errors.{Error, Result, ok, err, cyclic_dependency}
use agent_os.Exec.{Exec, lift, continue, pure, ◌>>=◌, ◌>>◌}
use agent_os.Json.{
  Json, null, bool, num, str, arr, obj, Items, nil, cons, Fields, field, end, lookup, to_number,
}
use agent_os.Mission.Ids.{Driver}
use agent_os.Mission.Tables.{Database}
use agent_os.Sql.Keyed.{IsFresh, IsFresh-insert}
use agent_os.Mission.TaskGraph.{NewTask, add_task, new_task}
use agent_os.Mission.TaskGraph.Cycles.{validate_acyclic}
use agent_os.Mission.TaskGraph.Updates.{TaskKeys}
use agent_os.Mission.TaskGraph.Adding.{IsGrounded, add_task-IsGrounded, add_task_cases}
use agent_os.Mission.TaskGraph.Adding.Acyclic.{validate_acyclic_returns}
use agent_os.Mission.Replies.{unfence}
use agent_os.Mission.Decomposition.{
  fields_of, resolve_deps, dep_indices, with_dependencies, create_task, create_tasks, decompose,
  parse_response, id_of_index, or_not_created, then_cons, dep_ids, check_descriptions, described,
  has_description, and_then, or_checked, task_list,
}

-- The uuid4s from the index n on are not in the table.
abbrev pub Unused : (ids : ℕ → ℕ) (n : ℕ) → Database → Type 0
Unused ids n db = (i : ℕ) → n ≤ i → IsFresh (λ t. t.task_id) (ids i) db.tasks

-- Keys are unique, and every dependency was added before.
abbrev pub IsSound : Database → Type 0
IsSound db = TaskKeys db × IsGrounded [] db.tasks

abbrev pub is_cycle : Error → Bool
is_cycle (cyclic_dependency cycle) = true
is_cycle _ = false

abbrev pub is_cyclic : {A : Type 0} → Result A → Bool
is_cyclic (ok a) = false
is_cyclic (err e) = is_cycle e

id_of_index_raises : (created : List ℕ) (d : Json) → is_cyclic (id_of_index created d) ≡ false
id_of_index_raises created (num n) = by_found (get_elem? created n)
  where
    by_found : (o : Option ℕ) → is_cyclic (or_not_created o) ≡ false
    by_found none = refl
    by_found (some id) = refl
id_of_index_raises created (bool b) = by_found (get_elem? created (to_number b))
  where
    by_found : (o : Option ℕ) → is_cyclic (or_not_created o) ≡ false
    by_found none = refl
    by_found (some id) = refl
id_of_index_raises created null = refl
id_of_index_raises created (str s) = refl
id_of_index_raises created (arr xs) = refl
id_of_index_raises created (obj fields) = refl

then_cons_raises :
    (r : Result ℕ) (rest : Result (List ℕ))
    → is_cyclic r ≡ false
    → is_cyclic rest ≡ false
    → is_cyclic (then_cons r rest) ≡ false
then_cons_raises (err e) rest h k = h
then_cons_raises (ok id) (err e) h k = k
then_cons_raises (ok id) (ok ids) h k = refl

dep_ids_raises : (created : List ℕ) (ds : Items) → is_cyclic (dep_ids created ds) ≡ false
unfolding dep_ids
dep_ids_raises created nil = refl
dep_ids_raises created (cons d ds) =
    then_cons_raises (id_of_index created d) (dep_ids created ds) (id_of_index_raises created d)
      (dep_ids_raises created ds)

described_raises : (r : Result Bool) → is_cyclic r ≡ false → is_cyclic (described r) ≡ false
described_raises (ok true) h = refl
described_raises (ok false) h = refl
described_raises (err e) h = h

has_description_raises : (t : Json) → is_cyclic (has_description t) ≡ false
unfolding has_description
has_description_raises (obj fields) = refl
has_description_raises (str s) = refl
has_description_raises (arr xs) = refl
has_description_raises null = refl
has_description_raises (bool b) = refl
has_description_raises (num n) = refl

and_then_raises :
    (r next : Result (Unit {0}))
    → is_cyclic r ≡ false
    → is_cyclic next ≡ false
    → is_cyclic (and_then r next) ≡ false
and_then_raises (ok done) next h k = k
and_then_raises (err e) next h k = h

check_raises : (ts : Items) → is_cyclic (check_descriptions ts) ≡ false
unfolding check_descriptions
check_raises nil = refl
check_raises (cons t ts) =
    and_then_raises (described (has_description t)) (check_descriptions ts)
      (described_raises (has_description t) (has_description_raises t)) (check_raises ts)

task_list_raises : (o : Option Json) → is_cyclic (task_list o) ≡ false
task_list_raises (some (arr (cons t ts))) =
    or_checked_raises (check_descriptions (cons t ts)) (check_raises (cons t ts))
  where
    or_checked_raises :
        (r : Result (Unit {0})) → is_cyclic r ≡ false → is_cyclic (or_checked (cons t ts) r) ≡ false
    or_checked_raises (ok done) h = refl
    or_checked_raises (err e) h = h
task_list_raises (some (arr nil)) = refl
task_list_raises none = refl
task_list_raises (some null) = refl
task_list_raises (some (bool b)) = refl
task_list_raises (some (num n)) = refl
task_list_raises (some (str s)) = refl
task_list_raises (some (obj fields)) = refl

resolve_deps_raises :
    (created : List ℕ) (v : Option Json) → is_cyclic (resolve_deps created (dep_indices v)) ≡ false
unfolding dep_ids
resolve_deps_raises created none = refl
resolve_deps_raises created (some (arr ds)) = dep_ids_raises created ds
resolve_deps_raises created (some (obj end)) = refl
resolve_deps_raises created (some (obj (field k v fields))) = refl
resolve_deps_raises created (some (str s)) = elim (Bool-cases (str_eq s "")) [
  | inl blank ↦ rw blank refl
  | inr text ↦ rw text refl
]
resolve_deps_raises created (some null) = refl
resolve_deps_raises created (some (bool b)) = refl
resolve_deps_raises created (some (num n)) = refl

-- What a method leaves that may have added the task `ids n`.
abbrev Post : {A : Type 0} → (ids : ℕ → ℕ) (n : ℕ) → Result A × Database → Type 0
Post ids n (result, after) = (is_cyclic result ≡ false) × IsSound after × Unused ids n after

module _ (ids : ℕ → ℕ) (distinct : (i j : ℕ) → i < j → ids i ≢ ids j)
    (columns : Fields → Result NewTask)
    (plain : (fields : Fields) → is_cyclic (columns fields) ≡ false) (mission_id : ℕ) where
  lift-Post :
      {A B : Type 0} (n : ℕ) (r : Result A) (f : A → Exec Database B) (db : Database)
      → is_cyclic r ≡ false
      → IsSound db
      → Unused ids n db
      → ((a : A) → Post ids n (f a db))
      → Post ids n ((lift r >>= f) db)
  lift-Post n (ok a) f db fine sound unused next = next a
  lift-Post n (err e) f db fine sound unused next = (fine, sound, unused)

  add_task-Post :
      (n : ℕ) (a : NewTask) (db : Database)
      → IsSound db
      → Unused ids n db
      → Post ids (suc n) (add_task (ids n) mission_id a db)
  add_task-Post n a db (keys, grounded) unused =
      let (still, unique) =
        add_task-IsGrounded (ids n) mission_id a db (unused n (omega arith)) keys grounded in
      elim (add_task_cases (ids n) mission_id a db) [
        | inl refused ↦ rw refused (refl, (keys, grounded), λ i h. unused i (omega arith))
        | inr (there, added) ↦ (
          rw added refl,
          (unique, still),
          λ i h. rw added (
              IsFresh-insert (λ t. t.task_id) (ids i) (new_task (ids n) mission_id a) db.tasks
                (distinct n i (omega arith)) (unused i (omega arith))),
        )
      ]

  create_task-Post :
      (n : ℕ) (created : List ℕ) (t : Json) (db : Database)
      → IsSound db
      → Unused ids n db
      → Post ids (suc n) (create_task columns mission_id (ids n) created t db)
  unfolding create_task
  create_task-Post n created t db sound unused =
      let later : Unused ids (suc n) db = λ i h. unused i (omega arith) in
      lift-Post (suc n) (fields_of t) _ db (fields_raises t) sound later (λ fields.
        lift-Post (suc n) (resolve_deps created (dep_indices (lookup "depends_on_indices" fields)))
          _ db (resolve_deps_raises created (lookup "depends_on_indices" fields)) sound later
          (λ deps.
            lift-Post (suc n) (columns fields) _ db (plain fields) sound later
              (λ a. add_task-Post n (with_dependencies a deps) db sound unused)))
    where
      fields_raises : (t : Json) → is_cyclic (fields_of t) ≡ false
      fields_raises (obj fields) = refl
      fields_raises null = refl
      fields_raises (bool b) = refl
      fields_raises (num n) = refl
      fields_raises (str s) = refl
      fields_raises (arr xs) = refl

  abbrev Fine : {A : Type 0} → Result A × Database → Type 0
  Fine (result, after) = (is_cyclic result ≡ false) × IsSound after

  create_tasks-Fine :
      (created : List ℕ) (ts : Items) (db : Database)
      → IsSound db
      → Unused ids (length created) db
      → Fine (create_tasks columns mission_id ids created ts db)
  unfolding create_tasks
  create_tasks-Fine created nil db sound unused = (refl, sound)
  create_tasks-Fine created (cons t ts) db sound unused =
      let (result, after) = create_task columns mission_id (ids (length created)) created t db in
      go_on result after (create_task-Post (length created) created t db sound unused)
        (λ id after. create_tasks-Fine (created ++ id ∷ []) ts after)
    where
      go_on :
          (result : Result ℕ) (after : Database)
          → Post ids (suc (length created)) (result, after)
          → ((id : ℕ) (after : Database)
              → IsSound after
              → Unused ids (length (created ++ id ∷ [])) after
              → Fine (create_tasks columns mission_id ids (created ++ id ∷ []) ts after))
          → Fine (
              continue result
                (λ id. create_tasks columns mission_id ids (created ++ id ∷ []) ts)
                after)
      go_on (err e) after (fine, sound, unused) rest = (fine, sound)
      go_on (ok id) after (fine, sound, unused) rest =
          rest id after sound (λ i h. unused i (omega (arith, length-append created (id ∷ []))))

  -- Whatever the model replies, decompose does not raise CyclicDependencyError, and, whether it
  -- returns or raises, the keys of the tasks are unique and every dependency of a task is a task of
  -- the same mission that was added before it, if that held before, if the uuid4s are new and
  -- distinct, and if the other columns raise no CyclicDependencyError.
  pub decompose_never_cyclic :
      (driver : Driver) (loads : List ℕ → Option Json) (text : List ℕ) (db : Database)
      → IsSound db
      → Unused ids 0 db
      → (let (result, after) = decompose driver loads columns mission_id ids text db in
          (is_cyclic result ≡ false) × IsSound after)
  unfolding decompose parse_response
  decompose_never_cyclic driver loads text db sound unused =
      from_list (task_list (loads (unfence text))) (task_list_raises (loads (unfence text)))
    where
      checked :
          (result : Result (List ℕ)) (after : Database)
          → Fine (result, after)
          → Fine (
              continue result (λ created. validate_acyclic driver mission_id >> pure created) after)
      checked (err e) after fine = fine
      checked (ok created) after (fine, sound) =
          rw (validate_acyclic_returns driver mission_id after sound.0 sound.1) (refl, sound)

      from_list :
          (r : Result Items)
          → is_cyclic r ≡ false
          → Fine (
              (lift r >>= λ tasks. create_tasks columns mission_id ids [] tasks >>= λ created.
              validate_acyclic driver mission_id >> pure created)
                db)
      from_list (err e) fine = (fine, sound)
      from_list (ok tasks) fine =
          let (result, after) = create_tasks columns mission_id ids [] tasks db in
          checked result after (create_tasks-Fine [] tasks db sound unused)
