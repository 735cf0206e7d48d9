-- ===== src/Mission/TaskGraph/Adding/Acyclic.antt =====
-- Tasks that were added by add_task have no cycle: validate_acyclic returns.
use agent_os.Prelude.{
  map, ℕ, ◌≡◌, ◌∙◌, refl, subst, ap, inl, inr, Bool, List, [], ◌∷◌, arith, ◌==◌, ==_iff, In,
  Bool-cases,
}
use native.Mathlib.Decide.{ℕ_discrete}
use agent_os.Errors.{ok}
use agent_os.Sql.{select}
use agent_os.Sql.Select.{In-select, select-In}
use agent_os.Sql.Keyed.{IsFresh, IsKeyed}
use agent_os.Mission.Ids.{Driver, texts, uuid_objects, text_value}
use agent_os.Mission.TaskGraph.Cycles.Values.{In-map, keys-graph_of, deps_of-graph_of}
use agent_os.Mission.Tables.{MissionTask, Database}
use agent_os.Mission.TaskGraph.{of_mission}
use agent_os.Mission.TaskGraph.Updates.{TaskKeys}
use agent_os.Mission.TaskGraph.Adding.{IsGrounded}
use agent_os.Mission.TaskGraph.Cycles.{Graph, deps_of, keys, graph_of, validate_acyclic}
use agent_os.Mission.TaskGraph.Cycles.Walks.{
  IsOrdered, Reaches, not-Reaches_self, Reaches-key, IsCycle-Reaches,
}
use agent_os.Mission.TaskGraph.Cycles.Verdict.{validate_acyclic_decides}

abbrev id : MissionTask → ℕ
id t = t.task_id

IsFresh-select :
    (k : ℕ) (p : MissionTask → Bool) (ts : List MissionTask)
    → IsFresh id k ts
    → IsFresh id k (select p ts)
IsFresh-select k p [] h = tt
IsFresh-select k p (t ∷ ts) h = elim (Bool-cases (p t)) [
  | inl e ↦ rw e (h.0, IsFresh-select k p ts h.1)
  | inr e ↦ rw e (IsFresh-select k p ts h.1)
]

pub IsKeyed-select :
    (p : MissionTask → Bool) (ts : List MissionTask) → IsKeyed id ts → IsKeyed id (select p ts)
IsKeyed-select p [] h = tt
IsKeyed-select p (t ∷ ts) h = elim (Bool-cases (p t)) [
  | inl e ↦ rw e (IsFresh-select t.task_id p ts h.0, IsKeyed-select p ts h.1)
  | inr e ↦ rw e (IsKeyed-select p ts h.1)
]

module _ (mission_id : ℕ) (g : Graph) where
  -- The tasks of the mission, the last one first, are an order of the graph.
  record Order (ts : List MissionTask) (order : List ℕ) : Type 0 where
    result : List ℕ
    ordered : IsOrdered g result
    kept : (k : ℕ) → In k order → In k result
    placed :
        (t : MissionTask) → In t ts → t.mission_id ≡ mission_id → In (text_value t.task_id) result

  ordering :
      (ts : List MissionTask) (earlier : List (ℕ × ℕ)) (order : List ℕ)
      → IsGrounded earlier ts
      → ((t : MissionTask)
          → In t ts
          → t.mission_id ≡ mission_id
          → deps_of g (text_value t.task_id) ≡ map text_value t.dependencies)
      → ((d : ℕ) → In (d, mission_id) earlier → In (text_value d) order)
      → IsOrdered g order
      → Order ts order
  ordering [] earlier order h same known ordered = record {
    result = order;
    ordered = ordered;
    kept = λ k there. there;
    placed = λ t there. elim there [ ];
  }
  ordering (t ∷ ts) earlier order h same known ordered =
      go
        (λ order1.
          ordering ts ((t.task_id, t.mission_id) ∷ earlier) order1 h.1 (λ u k. same u (inr k)))
        (ℕ_discrete t.mission_id mission_id)
    where
      go :
          ((order1 : List ℕ)
            → ((d : ℕ)
                → In (d, mission_id) ((t.task_id, t.mission_id) ∷ earlier)
                → In (text_value d) order1)
            → IsOrdered g order1
            → Order ts order1)
          → Dec (t.mission_id ≡ mission_id)
          → Order (t ∷ ts) order
      go rest (yes ours) = record {
        result = deeper.result;
        ordered = deeper.ordered;
        kept = λ k there. deeper.kept k (inr there);
        placed = placed;
      }
        where
          below : (d : ℕ) → In d (deps_of g (text_value t.task_id)) → In d order
          below d k =
              let (m, inside, e) =
                In-map text_value d t.dependencies
                  (subst (λ ds. In d ds) (same t (inl refl) ours) k) in
              subst (λ x. In x order) e
                (known m (subst (λ i. In (m, i) earlier) ours (h.0 m inside)))

          known' :
              (d : ℕ)
              → In (d, mission_id) ((t.task_id, t.mission_id) ∷ earlier)
              → In (text_value d) (text_value t.task_id ∷ order)
          known' d (inl e) = inl (ap (λ (p : ℕ × ℕ). text_value p.0) e)
          known' d (inr there) = inr (known d there)

          deeper : Order ts (text_value t.task_id ∷ order)
          deeper = rest (text_value t.task_id ∷ order) known' ((λ d k _. below d k), ordered)

          placed :
              (u : MissionTask)
              → In u (t ∷ ts)
              → u.mission_id ≡ mission_id
              → In (text_value u.task_id) deeper.result
          placed u (inl e) m =
              subst (λ k. In k deeper.result) (ap (λ r. text_value r.task_id) e)
                (deeper.kept (text_value t.task_id) (inl refl))
          placed u (inr there) m = deeper.placed u there m
      go rest (no other) = record {
        result = deeper.result;
        ordered = deeper.ordered;
        kept = deeper.kept;
        placed = placed;
      }
        where
          known' :
              (d : ℕ)
              → In (d, mission_id) ((t.task_id, t.mission_id) ∷ earlier)
              → In (text_value d) order
          known' d (inl e) = absurd (other (ap (λ (p : ℕ × ℕ). p.1) e))
          known' d (inr there) = known d there

          deeper : Order ts order
          deeper = rest order known' ordered

          placed :
              (u : MissionTask)
              → In u (t ∷ ts)
              → u.mission_id ≡ mission_id
              → In (text_value u.task_id) deeper.result
          placed u (inl e) m = absurd (other (ap (λ r. r.mission_id) e ∙ m))
          placed u (inr there) m = deeper.placed u there m

-- The tasks of a mission that were added by add_task, in an order of the graph.
pub grounded_order :
    (mission_id : ℕ) (ts : List MissionTask)
    → IsKeyed id ts
    → IsGrounded [] ts
    → (order : List ℕ) × IsOrdered (graph_of texts (of_mission mission_id ts)) order
      × ((k : ℕ) → In k (keys (graph_of texts (of_mission mission_id ts))) → In k order)
grounded_order mission_id ts unique h =
    (order.result, order.ordered, λ k there. placed k (keys-graph_of texts sel k there))
  where
    sel : List MissionTask
    sel = of_mission mission_id ts

    g : Graph
    g = graph_of texts sel

    order : Order mission_id g ts []
    order =
        ordering mission_id g ts [] [] h
          (λ t there ours. deps_of-graph_of texts sel t (IsKeyed-select _ ts unique) (
            select-In (λ u. u.mission_id == mission_id) t ts there
              ((==_iff t.mission_id mission_id).1 ours)))
          (λ d there. elim there [ ]) tt

    placed : (k : ℕ) → (t : MissionTask) × In t sel × (text_value t.task_id ≡ k) → In k order.result
    placed k (t, there, e) =
        let (stored, ours) = In-select (λ u. u.mission_id == mission_id) t ts there in
        subst (λ x. In x order.result) e
          (order.placed t stored ((==_iff t.mission_id mission_id).0 ours))

grounded_acyclic :
    (mission_id : ℕ) (ts : List MissionTask)
    → IsKeyed id ts
    → IsGrounded [] ts
    → (a : ℕ) → ¬ Reaches (graph_of texts (of_mission mission_id ts)) a a
grounded_acyclic mission_id ts unique h a r =
    let g = graph_of texts (of_mission mission_id ts) in
    let (order, ordered, holds) = grounded_order mission_id ts unique h in
    not-Reaches_self g order ordered a (holds a (Reaches-key g r)) r

-- On a table whose tasks were added by add_task, validate_acyclic returns for every mission: the
-- guard of add_task already excludes cycles.
pub validate_acyclic_returns :
    (driver : Driver) (mission_id : ℕ) (db : Database)
    → TaskKeys db
    → IsGrounded [] db.tasks
    → validate_acyclic driver mission_id db ≡ (ok tt, db)
validate_acyclic_returns uuid_objects mission_id db unique h =
    let (fine, same) = validate_acyclic_decides uuid_objects mission_id db in
    ground (arith, fine, same)
validate_acyclic_returns texts mission_id db unique h =
    let (decided, same) = validate_acyclic_decides texts mission_id db in
    elim decided [
      | inl fine ↦ ground (arith, fine.0, same)
      | inr found ↦
          let (a, r) = IsCycle-Reaches (graph_of texts (of_mission mission_id db.tasks)) found.2 in
          absurd (grounded_acyclic mission_id db.tasks unique h a r)
    ]
