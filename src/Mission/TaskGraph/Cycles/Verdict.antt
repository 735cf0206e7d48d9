-- ===== src/Mission/TaskGraph/Cycles/Verdict.antt =====
-- What validate_acyclic of services/mission/task_graph.py decides.
use agent_os.Prelude.{
  ℕ, ◌≡◌, ◌≢◌, refl, sym, subst, ◌↔◌, ◌⊎◌, inl, inr, Option, none, some, List, [], ◌∷◌, arith, ◌==◌,
  ==_iff, ◌≤◌, length, In, Bool-cases,
}
use native.Mathlib.Nat.{le_trans}
use agent_os.Errors.{Result, ok, err, cyclic_dependency}
use agent_os.Mission.Ids.{Driver, texts, uuid_objects}
use agent_os.Mission.TaskGraph.Cycles.Values.{not-Reaches_objects}
use agent_os.Mission.Tables.{Database}
use agent_os.Mission.TaskGraph.{of_mission, all_tasks}
use agent_os.Mission.TaskGraph.Cycles.{
  Graph, keys, Color, white, gray, black, Colors, all_white, Search, finished, cyclic, exhausted,
  then_search, dfs, dfs_all, search_cycle, graph_of, validate_acyclic, verdict,
}
use agent_os.Mission.TaskGraph.Cycles.Walks.{
  IsCycle, IsOrdered, Reaches, not-Reaches_self, IsCycle-Reaches, Reaches-key,
}
use agent_os.Mission.TaskGraph.Cycles.Descent.{
  Inv, Post, Post-then, Post-after, whites, whites-le, dfs-Post,
}

module _ (f : ℕ) (g : Graph) (k : ℕ) (ks : List ℕ) (c : Colors) where
  dfs_all_white :
      c k ≡ some white → dfs_all f g (k ∷ ks) c ≡ then_search (dfs f g [] k c) (dfs_all f g ks)
  unfolding dfs_all
  dfs_all_white e = rw (e, dfs_all)

  dfs_all_black : c k ≡ some black → dfs_all f g (k ∷ ks) c ≡ dfs_all f g ks c
  unfolding dfs_all
  dfs_all_black e = rw (e, dfs_all)

module _ (f : ℕ) (g : Graph) where
  abbrev Placed : List ℕ → List ℕ → Type 0
  Placed ks o = (k : ℕ) → In k ks → In k o

  Placed-cons : (k : ℕ) (ks o : List ℕ) → In k o → Placed ks o → Placed (k ∷ ks) o
  Placed-cons k ks o first rest m (inl e) = subst (λ x. In x o) e first
  Placed-cons k ks o first rest m (inr there) = rest m there

  dfs_all-Post :
      (ks : List ℕ) (c : Colors) (order : List ℕ)
      → Inv g [] c order
      → whites (keys g) c ≤ f
      → ((k : ℕ) → In k ks → In k (keys g))
      → Post g [] c order (Placed ks) (dfs_all f g ks c)
  unfolding dfs_all
  dfs_all-Post [] c order inv few all_keys =
      (order, inv, record { kept = λ m h. h; faded = λ m h. h }, λ k h. elim h [ ])
  dfs_all-Post (k ∷ ks) c order inv few all_keys =
      go (λ c1 order1 inv1 few1. dfs_all-Post ks c1 order1 inv1 few1 (λ m h. all_keys m (inr h)))
        (c k) refl
    where
      P : Search → Type 0
      P = Post g [] c order (Placed (k ∷ ks))

      go :
          ((c1 : Colors) (order1 : List ℕ)
            → Inv g [] c1 order1
            → whites (keys g) c1 ≤ f
            → Post g [] c1 order1 (Placed ks) (dfs_all f g ks c1))
          → (o : Option Color) → c k ≡ o
          → P (dfs_all f g (k ∷ ks) c)
      go rest none e = absurd (inv.known k e (all_keys k (inl refl)))
      go rest (some gray) e = absurd (inv.grays k e)
      go rest (some black) e = subst P (sym (dfs_all_black f g k ks c e)) (
          Post-after g [] c c order order (Placed ks) (Placed (k ∷ ks)) (dfs_all f g ks c)
            (record { kept = λ m h. h; faded = λ m h. h })
            (λ o kept placed. Placed-cons k ks o (kept k (inv.blacks k e)) placed)
            (rest c order inv few))
      go rest (some white) e = subst P (sym (dfs_all_white f g k ks c e)) (
          Post-then g [] c order (λ o. In k o) (Placed (k ∷ ks)) (dfs f g [] k c) (dfs_all f g ks)
            (dfs-Post g f [] k c order e inv few tt)
            λ c1 order1 inv1 grown placed.
              Post-after g [] c c1 order order1 (Placed ks) (Placed (k ∷ ks)) (dfs_all f g ks c1)
                grown (λ o kept all_placed. Placed-cons k ks o (kept k placed) all_placed)
                (rest c1 order1 inv1 (le_trans (whites-le (keys g) c c1 grown.faded) few)))

all_white_cases : (ks : List ℕ) (m : ℕ) → (all_white ks m ≡ none) ⊎ (all_white ks m ≡ some white)
all_white_cases [] m = inl refl
all_white_cases (k ∷ ks) m = ground (arith, all_white_cases ks m)

all_white_known : (ks : List ℕ) (m : ℕ) → all_white ks m ≡ none → ¬ In m ks
all_white_known [] m e h = h
all_white_known (k ∷ ks) m e (inl here) = ground arith
all_white_known (k ∷ ks) m e (inr there) = all_white_known ks m (ground arith) there

all_white_colored : (ks : List ℕ) (m : ℕ) → all_white ks m ≢ none → In m ks
all_white_colored [] m h = absurd (h refl)
all_white_colored (k ∷ ks) m h = elim (Bool-cases (k == m)) [
  | inl e ↦ inl ((==_iff k m).0 e)
  | inr e ↦ inr (all_white_colored ks m (λ x. h (ground arith)))
]

whites-le_length : (g : Graph) (c : Colors) → whites (keys g) c ≤ length g
whites-le_length [] c = omega arith
whites-le_length ((k, ds) ∷ g) c = ground (arith, whites-le_length g c)

module _ (g : Graph) where
  Inv-start : Inv g [] (all_white (keys g)) []
  Inv-start = record {
    grays = λ m h. ground (arith, all_white_cases (keys g) m);
    blacks = λ m h. ground (arith, all_white_cases (keys g) m);
    ordered = tt;
    known = all_white_known (keys g);
    colored = all_white_colored (keys g);
  }

  search_cycle-Post :
      Post g [] (all_white (keys g)) [] (Placed (length g) g (keys g)) (search_cycle g)
  unfolding search_cycle
  search_cycle-Post =
      dfs_all-Post (length g) g (keys g) (all_white (keys g)) [] Inv-start
        (whites-le_length g (all_white (keys g))) (λ k h. h)

  leads_nowhere :
      (order : List ℕ)
      → IsOrdered g order
      → ((k : ℕ) → In k (keys g) → In k order)
      → (a : ℕ) → ¬ Reaches g a a
  leads_nowhere order ordered placed a r =
      not-Reaches_self g order ordered a (placed a (Reaches-key g r)) r

  -- Either the search finds no cycle and no task depends on itself, or it reports a real cycle.
  abbrev pub Decided : Result (Unit {0}) → Type 0
  Decided r =
      ((r ≡ ok tt) × ((a : ℕ) → ¬ Reaches g a a))
      ⊎ ((p : List ℕ) × (r ≡ err (cyclic_dependency p)) × IsCycle g p)

  search_cycle_decides : Decided (verdict (search_cycle g))
  search_cycle_decides = go (search_cycle g) search_cycle-Post
    where
      go :
          (r : Search)
          → Post g [] (all_white (keys g)) [] (Placed (length g) g (keys g)) r
          → Decided (verdict r)
      go (finished c) (order, inv, grown, placed) =
          inl (refl, leads_nowhere order inv.ordered placed)
      go (cyclic p) h = inr (p, refl, h)
      go exhausted h = elim h [ ]

module _ (driver : Driver) (mission_id : ℕ) (db : Database) where
  abbrev pub mission_graph : Graph
  mission_graph = graph_of driver (of_mission mission_id db.tasks)

  validate_acyclic-Decided :
      Decided mission_graph (validate_acyclic driver mission_id db).0
      × ((validate_acyclic driver mission_id db).1 ≡ db)
  unfolding validate_acyclic all_tasks
  validate_acyclic-Decided = (search_cycle_decides mission_graph, refl)

-- What a verdict says: of texts, that no task depends on itself, or a cycle. Of uuid.UUID objects,
-- nothing: there is none but that all is well.
abbrev pub Concludes : Driver → Graph → Result (Unit {0}) → Type 0
Concludes texts g r = Decided g r
Concludes uuid_objects g r = r ≡ ok tt

-- validate_acyclic always comes to a verdict within its recursion bound, the number of tasks, and
-- changes nothing. Where the driver returns the ids as texts, it returns only if no task of the
-- mission depends on itself, directly or through others, and raises CyclicDependencyError only with
-- a walk along dependencies that ends where it starts. Where the driver returns uuid.UUID objects,
-- it returns whatever the dependencies are.
pub validate_acyclic_decides :
    (driver : Driver) (mission_id : ℕ) (db : Database)
    → Concludes driver
        (mission_graph driver mission_id db)
        (validate_acyclic driver mission_id db).0
      × ((validate_acyclic driver mission_id db).1 ≡ db)
validate_acyclic_decides texts mission_id db = validate_acyclic-Decided texts mission_id db
validate_acyclic_decides uuid_objects mission_id db =
    let (decided, same) = validate_acyclic-Decided uuid_objects mission_id db in
    (
      elim decided [
        | inl fine ↦ fine.0
        | inr found ↦
            let (a, r) = IsCycle-Reaches (mission_graph uuid_objects mission_id db) found.2 in
            absurd (not-Reaches_objects (of_mission mission_id db.tasks) a r)
      ],
      same,
    )

-- It raises CyclicDependencyError exactly when the driver returns the ids as texts and some task
-- depends on itself, directly or through others.
pub validate_acyclic_raises_iff :
    (driver : Driver) (mission_id : ℕ) (db : Database)
    → ((p : List ℕ) × ((validate_acyclic driver mission_id db).0 ≡ err (cyclic_dependency p)))
      ↔ ((driver ≡ texts) × ((a : ℕ) × Reaches (mission_graph texts mission_id db) a a))
validate_acyclic_raises_iff uuid_objects mission_id db =
    let fine = (validate_acyclic_decides uuid_objects mission_id db).0 in
    (λ (p, e). cc (fine, e), λ (other, found). cc)
validate_acyclic_raises_iff texts mission_id db =
    let g : Graph = mission_graph texts mission_id db in
    let decided = (validate_acyclic_decides texts mission_id db).0 in
    (
      λ (p, e). elim decided [
        | inl fine ↦ cc (fine.0, e)
        | inr found ↦ (refl, IsCycle-Reaches g found.2)
      ],
      λ (same, (a, r)). elim decided [
        | inl fine ↦ absurd (fine.1 a r)
        | inr found ↦ (found.0, found.1)
      ],
    )
