-- ===== src/Mission/TaskGraph/Cycles/Values.antt =====
-- The dict of services/mission/task_graph.py from tasks to dependencies, by what the driver returns
-- for task_id.
use agent_os.Prelude.{
  ℕ, ◌≡◌, ◌≢◌, refl, sym, ap, ◌∙◌, inl, inr, true, List, [], ◌∷◌, map, ◌==◌, ==_iff, Bool-cases, In,
}
use agent_os.Mission.Ids.{
  Driver, uuid_objects, text_value, id_value, id_value-injective, text-object,
}
use agent_os.Mission.Tables.{MissionTask}
use agent_os.Sql.Keyed.{IsFresh, IsKeyed}
use agent_os.Mission.TaskGraph.Cycles.{deps_of, keys, graph_of}
use agent_os.Mission.TaskGraph.Cycles.Walks.{Reaches, one, more, Reaches-key}

pub In-map : (f : ℕ → ℕ) (x : ℕ) (xs : List ℕ) → In x (map f xs) → (y : ℕ) × In y xs × (f y ≡ x)
In-map f x [] there = elim there [ ]
In-map f x (y ∷ ys) (inl e) = (y, inl refl, e)
In-map f x (y ∷ ys) (inr there) = let (z, inside, e) = In-map f x ys there in (z, inr inside, e)

pub map-In : (f : ℕ → ℕ) (y : ℕ) (xs : List ℕ) → In y xs → In (f y) (map f xs)
map-In f y [] there = elim there [ ]
map-In f y (x ∷ xs) (inl e) = inl (ap f e)
map-In f y (x ∷ xs) (inr there) = inr (map-In f y xs there)

not-IsFresh :
    (k : ℕ) (ts : List MissionTask) (t : MissionTask)
    → IsFresh (λ r. r.task_id) k ts
    → In t ts
    → t.task_id ≢ k
not-IsFresh k [] t h there = elim there [ ]
not-IsFresh k (x ∷ xs) t h (inl e) = λ same. h.0 (ap (λ r. r.task_id) e ∙ same)
not-IsFresh k (x ∷ xs) t h (inr there) = not-IsFresh k xs t h.1 there

module _ (driver : Driver) where
  pub keys-graph_of :
      (ts : List MissionTask) (k : ℕ)
      → In k (keys (graph_of driver ts))
      → (t : MissionTask) × In t ts × (id_value driver t.task_id ≡ k)
  keys-graph_of [] k h = elim h [ ]
  keys-graph_of (x ∷ xs) k (inl e) = (x, inl refl, e)
  keys-graph_of (x ∷ xs) k (inr there) =
      let (t, inside, e) = keys-graph_of xs k there in (t, inr inside, e)

  pub deps_of-graph_of :
      (ts : List MissionTask) (t : MissionTask)
      → IsKeyed (λ r. r.task_id) ts
      → In t ts
      → deps_of (graph_of driver ts) (id_value driver t.task_id) ≡ map text_value t.dependencies
  unfolding deps_of
  deps_of-graph_of [] t h there = elim there [ ]
  deps_of-graph_of (x ∷ xs) t h (inl e) =
      let own : (id_value driver x.task_id == id_value driver t.task_id) ≡ true =
        (==_iff (id_value driver x.task_id) (id_value driver t.task_id)).1
          (ap (λ r. id_value driver r.task_id) e) in
      rw own (ap (λ r. map text_value r.dependencies) e)
  deps_of-graph_of (x ∷ xs) t h (inr there) =
      elim (Bool-cases (id_value driver x.task_id == id_value driver t.task_id)) [
        | inl e ↦ absurd (
            not-IsFresh x.task_id xs t h.0 there (
              sym (
                id_value-injective driver x.task_id t.task_id
                  ((==_iff (id_value driver x.task_id) (id_value driver t.task_id)).0 e))))
        | inr other ↦ rw other (deps_of-graph_of xs t h.1 there)
      ]

  -- Every dependency is a text.
  pub dependency_text :
      (ts : List MissionTask) (n d : ℕ)
      → In d (deps_of (graph_of driver ts) n)
      → (k : ℕ) × (d ≡ text_value k)
  unfolding deps_of
  dependency_text [] n d = λ there. elim there [ ]
  dependency_text (x ∷ xs) n d = elim (Bool-cases (id_value driver x.task_id == n)) [
    | inl e ↦
        rw e (λ there.
          let (k, inside, same) = In-map text_value d x.dependencies there in (k, sym same))
    | inr other ↦ rw other (dependency_text xs n d)
  ]

-- Where the driver returns uuid.UUID objects, no dependency is a key of the dict.
pub dependency-key :
    (ts : List MissionTask) (n d : ℕ)
    → In d (deps_of (graph_of uuid_objects ts) n)
    → ¬ In d (keys (graph_of uuid_objects ts))
dependency-key ts n d there key =
    let (k, e) = dependency_text uuid_objects ts n d there in
    let (t, inside, same) = keys-graph_of uuid_objects ts d key in
    text-object k t.task_id (sym e ∙ sym same)

-- So none leads back to where it starts.
pub not-Reaches_objects : (ts : List MissionTask) (a : ℕ) → ¬ Reaches (graph_of uuid_objects ts) a a
not-Reaches_objects ts a (one h) =
    dependency-key ts a a h (Reaches-key (graph_of uuid_objects ts) (one h))
not-Reaches_objects ts a (more {b} r h) =
    dependency-key ts b a h (Reaches-key (graph_of uuid_objects ts) (more r h))
