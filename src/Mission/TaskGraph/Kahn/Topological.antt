-- ===== src/Mission/TaskGraph/Kahn/Topological.antt =====
-- topological_order of services/mission/task_graph.py on tasks that add_task added.
use agent_os.Prelude.{
  if◌then◌else◌, ◌∙◌, false, Bool, ◌+◌, map, ℕ, suc, ◌≡◌, refl, sym, ap, subst, ◌⊎◌, inl, inr, true,
  List, [], ◌∷◌, ◌≤◌, ◌==◌, ==_iff, arith, Bool-cases, In, length, occurrences,
}
use agent_os.Errors.{ok}
use agent_os.Prelude.Counting.{occurrences-In}
use agent_os.Sql.{select}
use agent_os.Sql.Keyed.{IsFresh, IsKeyed}
use agent_os.Sql.Select.{In-select, select-In}
use agent_os.Mission.TaskGraph.Adding.Acyclic.{
  grounded_order, validate_acyclic_returns, IsKeyed-select,
}
use agent_os.Mission.Ids.{Driver, texts, uuid_objects, text_value, id_value, id_value-injective}
use agent_os.Mission.TaskGraph.Cycles.Values.{
  In-map, keys-graph_of, deps_of-graph_of, dependency-key,
}
use agent_os.Mission.Tables.{MissionTask, Database}
use agent_os.Mission.TaskGraph.{of_mission, all_tasks}
use agent_os.Mission.TaskGraph.Updates.{TaskKeys}
use agent_os.Mission.TaskGraph.Adding.{IsGrounded}
use agent_os.Mission.TaskGraph.Cycles.{Graph, deps_of, keys, graph_of}
use agent_os.Mission.TaskGraph.Kahn.{
  first_ready, in_degree, order_of, pulled_first, topological_order,
}
use agent_os.Mission.TaskGraph.Kahn.Degrees.{deps_of-absent, is_zero, missing}
use agent_os.Mission.TaskGraph.Kahn.Order.{Going, Follows, start, pull_all-Ends, all_placed_once}

abbrev id : MissionTask → ℕ
id t = t.task_id

module _ (driver : Driver) where
  abbrev value : MissionTask → ℕ
  value t = id_value driver t.task_id

  IsFresh-occurrences :
      (k : ℕ) (ts : List MissionTask)
      → IsFresh id k ts
      → occurrences (id_value driver k) (keys (graph_of driver ts)) ≡ 0
  IsFresh-occurrences k [] h = refl
  IsFresh-occurrences k (t ∷ ts) h =
      let rest = IsFresh-occurrences k ts h.1 in
      let apart = h.0 in
      let other : (value t == id_value driver k) ≡ false =
        ground
          (arith, ==_iff (value t) (id_value driver k), id_value-injective driver t.task_id k) in
      rw other (omega (arith, rest))

  unique_keys :
      (ts : List MissionTask)
      → IsKeyed id ts
      → (k : ℕ) → occurrences k (keys (graph_of driver ts)) ≤ 1
  unique_keys [] h k = omega arith
  unique_keys (t ∷ ts) h k = elim (Bool-cases (value t == k)) [
    | inl e ↦
        let fresh = IsFresh-occurrences t.task_id ts h.0 in
        let same : value t ≡ k = (==_iff (value t) k).0 e in
        rw e (omega (arith, subst (λ x. occurrences x (keys (graph_of driver ts)) ≡ 0) same fresh))
    | inr other ↦ rw other (omega (arith, unique_keys ts h.1 k))
  ]

  length-keys : (ts : List MissionTask) → length (keys (graph_of driver ts)) ≡ length ts
  length-keys [] = refl
  length-keys (t ∷ ts) = ap suc (length-keys ts)

  In-keys :
      (ts : List MissionTask) (t : MissionTask) → In t ts → In (value t) (keys (graph_of driver ts))
  In-keys [] t there = elim there [ ]
  In-keys (u ∷ ts) t (inl e) = inl (ap (λ r. value r) e)
  In-keys (u ∷ ts) t (inr there) = inr (In-keys ts t there)

-- Where a dependency of a task comes from.
grounded_dependency :
    (earlier : List (ℕ × ℕ)) (ts : List MissionTask)
    → IsGrounded earlier ts
    → (t : MissionTask) → In t ts
    → (d : ℕ) → In d t.dependencies
    → In (d, t.mission_id) earlier
      ⊎ ((u : MissionTask) × In u ts × (u.task_id ≡ d) × (u.mission_id ≡ t.mission_id))
grounded_dependency earlier [] h t there d k = elim there [ ]
grounded_dependency earlier (x ∷ xs) h t (inl e) d k = inl (
    subst (λ (y : MissionTask). In (d, y.mission_id) earlier) e
      (h.0 d (subst (λ (y : MissionTask). In d y.dependencies) (sym e) k)))
grounded_dependency earlier (x ∷ xs) h t (inr there) d k =
    elim (grounded_dependency ((x.task_id, x.mission_id) ∷ earlier) xs h.1 t there d k) [
      | inl (inl e) ↦ inr (x, inl refl, ap (λ (p : ℕ × ℕ). p.0) e, ap (λ (p : ℕ × ℕ). p.1) e)
      | inl (inr before) ↦ inl before
      | inr (u, inside, named, ours) ↦ inr (u, inr inside, named, ours)
    ]

abbrev pub has_none : List ℕ → Bool
has_none [] = true
has_none (d ∷ ds) = false

-- The tasks of the order: of texts, all; of uuid.UUID objects, those without dependencies.
abbrev pub ordered_tasks : Driver → List MissionTask → List MissionTask
ordered_tasks texts tasks = tasks
ordered_tasks uuid_objects tasks = select (λ t. has_none t.dependencies) tasks

module _ (driver : Driver) (mission_id : ℕ) (db : Database) where
  abbrev pub tasks : List MissionTask
  tasks = of_mission mission_id db.tasks

  -- Each of these tasks once and nothing else, after its dependencies.
  abbrev pub IsTopological : List ℕ → Type 0
  IsTopological order =
      ((n : ℕ)
        → occurrences n order ≡ occurrences n (keys (graph_of driver (ordered_tasks driver tasks))))
      × Follows (graph_of driver tasks) [] order

  loop_ends :
      TaskKeys db
      → (order : List ℕ) × (degree : ℕ → ℕ) × (order_of driver tasks ≡ ok order)
        × Going (graph_of driver tasks) order [] degree
  loop_ends unique =
      let once = unique_keys driver tasks (IsKeyed-select _ db.tasks unique) in
      let (order, degree, ends, going) =
        pull_all-Ends (graph_of driver tasks) once (length tasks) (pulled_first driver tasks)
          (first_ready (graph_of driver tasks)) (in_degree (graph_of driver tasks)) []
          (omega (arith, length-keys driver tasks)) (start (graph_of driver tasks) once) in
      (order, degree, rw ends refl, going)

module _ (mission_id : ℕ) (db : Database) where
  abbrev mission_graph : Graph
  mission_graph = graph_of texts (of_mission mission_id db.tasks)

  closed :
      TaskKeys db
      → IsGrounded [] db.tasks
      → (n d : ℕ) → In d (deps_of mission_graph n)
      → In d (keys mission_graph)
  closed unique h n d k =
      let tasks = of_mission mission_id db.tasks in
      elim (Bool-cases (occurrences n (keys mission_graph) == 0)) [
        | inl none_there ↦
            let alone = deps_of-absent mission_graph n (ground (arith, none_there)) in
            elim (subst (λ ds. In d ds) alone k) [ ]
        | inr some_there ↦
            let (t, inside, named) =
              keys-graph_of texts tasks n (occurrences-In n (keys mission_graph) (ground arith)) in
            let its = deps_of-graph_of texts tasks t (IsKeyed-select _ db.tasks unique) inside in
            let (m, listed, e) = In-map text_value d t.dependencies (
              subst (λ ds. In d ds) its
                (subst (λ x. In d (deps_of mission_graph x)) (sym named) k)) in
            let (stored, ours) = In-select (λ u. u.mission_id == mission_id) t db.tasks inside in
            subst (λ x. In x (keys mission_graph)) e
              (in_mission t m ours (grounded_dependency [] db.tasks h t stored m listed))
      ]
    where
      in_mission :
          (t : MissionTask) (m : ℕ)
          → (t.mission_id == mission_id) ≡ true
          → In {A = ℕ × ℕ} (m, t.mission_id) []
            ⊎ ((u : MissionTask) × In u db.tasks × (u.task_id ≡ m) × (u.mission_id ≡ t.mission_id))
          → In (text_value m) (keys mission_graph)
      in_mission t m ours (inl bad) = elim bad [ ]
      in_mission t m ours (inr (u, inside, named, same)) =
          let mine : (u.mission_id == mission_id) ≡ true = rw same ours in
          subst (λ x. In (text_value x) (keys mission_graph)) named
            (In-keys texts (of_mission mission_id db.tasks) u
              (select-In (λ x. x.mission_id == mission_id) u db.tasks inside mine))

-- Of uuid.UUID objects: no dependency ever leaves the count.
missing_all :
    (order ds : List ℕ)
    → ((d : ℕ) → In d ds → occurrences d order ≡ 0)
    → missing order ds ≡ length ds
missing_all order [] h = refl
missing_all order (d ∷ ds) h =
    rw (h d (inl refl)) (omega (arith, missing_all order ds (λ x there. h x (inr there))))

is_zero-has_none :
    (ds : List ℕ) → is_zero (length (map text_value ds)) ≡ (if has_none ds then 1 else 0)
is_zero-has_none [] = refl
is_zero-has_none (d ∷ ds) = ground arith

is_zero-length : {n : ℕ} → n ≡ 0 → is_zero n ≡ 1
is_zero-length e = ap is_zero e

chosen :
    (ts : List MissionTask) (n : ℕ)
    → IsKeyed id ts
    → occurrences n (keys (graph_of uuid_objects (select (λ t. has_none t.dependencies) ts))) + 1
      ≡ is_zero (length (deps_of (graph_of uuid_objects ts) n))
        + occurrences n (keys (graph_of uuid_objects ts))
unfolding deps_of
chosen [] n h = refl
chosen (t ∷ ts) n h =
    let rest = chosen ts n h.1 in
    elim (Bool-cases (value uuid_objects t == n)) [
      | inr other ↦ elim (Bool-cases (has_none t.dependencies)) [
        | inl kept ↦ rw (kept, other) (omega (arith, rest))
        | inr dropped ↦ rw (dropped, other) (omega (arith, rest))
      ]
      | inl e ↦
          let once = unique_keys uuid_objects (t ∷ ts) h n in
          let gone : occurrences n (keys (graph_of uuid_objects ts)) ≡ 0 = ground (arith, e) in
          let alone : length (deps_of (graph_of uuid_objects ts) n) ≡ 0 =
            ap length (deps_of-absent (graph_of uuid_objects ts) n gone) in
          let free = is_zero-has_none t.dependencies in
          elim (Bool-cases (has_none t.dependencies)) [
            | inl kept ↦
                rw (kept, e)
                  (omega (
                    arith,
                    rest,
                    alone,
                    gone,
                    is_zero-length alone,
                    subst
                        (λ b.
                          is_zero (length (map text_value t.dependencies)) ≡ (if b then 1 else 0))
                        kept free,
                  ))
            | inr dropped ↦
                rw (dropped, e)
                  (omega (
                    arith,
                    rest,
                    alone,
                    gone,
                    is_zero-length alone,
                    subst
                        (λ b.
                          is_zero (length (map text_value t.dependencies)) ≡ (if b then 1 else 0))
                        dropped free,
                  ))
          ]
    ]

all_waiting :
    (tasks : List MissionTask) (order : List ℕ) (degree : ℕ → ℕ)
    → IsKeyed id tasks
    → Going (graph_of uuid_objects tasks) order [] degree
    → (n : ℕ)
    → occurrences n order
      ≡ occurrences n (keys (graph_of uuid_objects (ordered_tasks uuid_objects tasks)))
all_waiting tasks order degree unique going n =
    let g = graph_of uuid_objects tasks in
    let stays : missing order (deps_of g n) ≡ length (deps_of g n) =
      missing_all order (deps_of g n) (λ d there. no_place d (dependency-key tasks n d there)) in
    let p = going.placed n in
    let count : degree n ≡ length (deps_of g n) = going.degrees n ∙ stays in
    omega (arith, p, ap is_zero count, chosen tasks n unique)
  where
    no_place : (d : ℕ) → ¬ In d (keys (graph_of uuid_objects tasks)) → occurrences d order ≡ 0
    no_place d absent = elim (Bool-cases (occurrences d order == 0)) [
      | inl e ↦ ground (arith, e)
      | inr some_there ↦
          let p = going.placed d in
          let few : is_zero (degree d) ≤ 1 = ground arith in
          absurd (
            absent (occurrences-In d (keys (graph_of uuid_objects tasks)) (ground (arith, p, few))))
    ]

-- On a table whose tasks were added by add_task, topological_order returns, and the tables stay as
-- they are. Where the driver returns the ids as texts, every task of the mission stands in the order
-- exactly once, nothing else stands, and each task comes after all its dependencies. Where the
-- driver returns uuid.UUID objects, the tasks without dependencies stand exactly once, and nothing
-- else stands.
pub topological_order-IsTopological :
    (driver : Driver) (mission_id : ℕ) (db : Database)
    → TaskKeys db
    → IsGrounded [] db.tasks
    → (order : List ℕ) × (topological_order driver mission_id db ≡ (ok order, db))
      × IsTopological driver mission_id db order
unfolding topological_order all_tasks
topological_order-IsTopological driver mission_id db unique h =
    let (order, degree, ends, going) = loop_ends driver mission_id db unique in
    (
      order,
      rw (validate_acyclic_returns driver mission_id db unique h, ends) refl,
      (placed driver order degree going, going.follows),
    )
  where
    placed :
        (driver : Driver) (order : List ℕ) (degree : ℕ → ℕ)
        → Going (graph_of driver (tasks driver mission_id db)) order [] degree
        → (n : ℕ)
        → occurrences n order
          ≡ occurrences n
              (keys (graph_of driver (ordered_tasks driver (tasks driver mission_id db))))
    placed uuid_objects order degree going =
        all_waiting (of_mission mission_id db.tasks) order degree (IsKeyed-select _ db.tasks unique)
          going
    placed texts order degree going =
        let once =
          unique_keys texts (of_mission mission_id db.tasks) (IsKeyed-select _ db.tasks unique) in
        let (bottom, ordered, holds) = grounded_order mission_id db.tasks unique h in
        all_placed_once (mission_graph mission_id db) once order degree going
          (closed mission_id db unique h) bottom ordered holds
