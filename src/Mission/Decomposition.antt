-- ===== src/Mission/Decomposition.antt =====
-- services/mission/decomposition.py: a goal becomes the tasks of its mission.
pub mod Acyclic
pub mod Samples
use agent_os.Prelude.{
  ℕ, suc, String, Bool, true, false, Option, none, some, List, [], ◌∷◌, ◌++◌, length, get_elem?,
  if◌then◌else◌, ◌==◌, ◌||◌, str_eq,
}
use agent_os.Errors.{Error, Result, ok, err}
use agent_os.Exec.{Exec, pure, lift, ◌>>=◌, ◌>>◌}
use agent_os.Text.{chars, in_text}
use agent_os.Json.{
  Json, null, bool, num, str, arr, obj, Items, nil, cons, Fields, end, field, lookup, to_number,
  json_eq,
}
use agent_os.Mission.Ids.{Driver}
use agent_os.Mission.Tables.{Database}
use agent_os.Mission.Replies.{unfence}
use agent_os.Mission.TaskGraph.{NewTask, add_task}
use agent_os.Mission.TaskGraph.Cycles.{validate_acyclic}

abbrev pub is_there : Option Json → Bool
is_there none = false
is_there (some v) = true

-- v in xs
abbrev pub in_items : Json → Items → Bool
in_items v nil = false
in_items v (cons x xs) = json_eq v x || in_items v xs

-- "description" in t
unfoldable pub has_description : Json → Result Bool
has_description (obj fields) = ok (is_there (lookup "description" fields))
has_description (str s) = ok (in_text (chars "description") (chars s))
has_description (arr xs) = ok (in_items (str "description") xs)
has_description _ = err Error.type_error

abbrev pub described : Result Bool → Result (Unit {0})
described (ok true) = ok tt
described (ok false) = err Error.decomposition_error
described (err e) = err e

abbrev pub and_then : Result (Unit {0}) → Result (Unit {0}) → Result (Unit {0})
and_then (ok done) next = next
and_then (err e) next = err e

unfoldable pub check_descriptions : Items → Result (Unit {0})
check_descriptions nil = ok tt
check_descriptions (cons t ts) =
    let rest = check_descriptions ts in and_then (described (has_description t)) rest

abbrev pub or_checked : Items → Result (Unit {0}) → Result Items
or_checked ts (ok done) = ok ts
or_checked ts (err e) = err e

-- a non-empty JSON array
abbrev pub task_list : Option Json → Result Items
task_list (some (arr (cons t ts))) = or_checked (cons t ts) (check_descriptions (cons t ts))
task_list _ = err Error.decomposition_error

-- _parse_response; `loads` is json.loads, or none where it raises JSONDecodeError
unfoldable pub parse_response : (loads : List ℕ → Option Json) → (text : List ℕ) → Result Items
parse_response loads text = task_list (loads (unfence text))

-- the fields of a task object, of which `.get` is called first
abbrev pub fields_of : Json → Result Fields
fields_of (obj fields) = ok fields
fields_of _ = err Error.attribute_error

-- What `for d in dep_indices` goes through. The keys of a dict and the characters of a text are
-- texts, and never an index.
abbrev pub dep_indices : Option Json → Result Items
dep_indices none = ok nil
dep_indices (some (arr ds)) = ok ds
dep_indices (some (obj end)) = ok nil
dep_indices (some (obj (field k v fields))) = ok (cons (str k) nil)
dep_indices (some (str s)) = if str_eq s "" then ok nil else ok (cons (str s) nil)
dep_indices (some _) = err Error.type_error

abbrev pub or_not_created : Option ℕ → Result ℕ
or_not_created none = err Error.decomposition_error
or_not_created (some id) = ok id

-- index_to_id[d], where index_to_id has the identifiers created so far; True is the index 1, and a
-- list or a dict cannot be looked up
abbrev pub id_of_index : (created : List ℕ) → Json → Result ℕ
id_of_index created (num n) = or_not_created (get_elem? created n)
id_of_index created (bool b) = or_not_created (get_elem? created (to_number b))
id_of_index created (arr xs) = err Error.type_error
id_of_index created (obj fields) = err Error.type_error
id_of_index created _ = err Error.decomposition_error

abbrev pub then_cons : Result ℕ → Result (List ℕ) → Result (List ℕ)
then_cons (err e) rest = err e
then_cons (ok id) (err e) = err e
then_cons (ok id) (ok ids) = ok (id ∷ ids)

unfoldable pub dep_ids : (created : List ℕ) → Items → Result (List ℕ)
dep_ids created nil = ok []
dep_ids created (cons d ds) =
    let rest = dep_ids created ds in then_cons (id_of_index created d) rest

abbrev pub resolve_deps : (created : List ℕ) → Result Items → Result (List ℕ)
resolve_deps created (err e) = err e
resolve_deps created (ok ds) = dep_ids created ds

abbrev pub with_dependencies : NewTask → List ℕ → NewTask
with_dependencies a deps = record a { dependencies = deps }

-- What the loop does for one task object. `columns` makes the other columns of the fields, with the
-- defaults of the code, or raises where the driver refuses one; `task_id` is the uuid4 drawn.
unfoldable pub create_task :
    (columns : Fields → Result NewTask) (mission_id task_id : ℕ) (created : List ℕ)
    → Json
    → Exec Database ℕ
create_task columns mission_id task_id created t = do
  fields ← lift (fields_of t)
  deps ← lift (resolve_deps created (dep_indices (lookup "depends_on_indices" fields)))
  a ← lift (columns fields)
  add_task task_id mission_id (with_dependencies a deps)

-- `ids` are the uuid4s, by the index of the task.
unfoldable pub create_tasks :
    (columns : Fields → Result NewTask) (mission_id : ℕ) (ids : ℕ → ℕ) (created : List ℕ)
    → Items
    → Exec Database (List ℕ)
create_tasks columns mission_id ids created nil = pure created
create_tasks columns mission_id ids created (cons t ts) =
    create_task columns mission_id (ids (length created)) created t >>= λ id.
    create_tasks columns mission_id ids (created ++ id ∷ []) ts

-- `text` is what the model replied to the prompt.
unfoldable pub decompose :
    (driver : Driver) (loads : List ℕ → Option Json) (columns : Fields → Result NewTask)
    (mission_id : ℕ) (ids : ℕ → ℕ) (text : List ℕ)
    → Exec Database (List ℕ)
decompose driver loads columns mission_id ids text = do
  tasks ← lift (parse_response loads text)
  created ← create_tasks columns mission_id ids [] tasks
  validate_acyclic driver mission_id
  pure created
