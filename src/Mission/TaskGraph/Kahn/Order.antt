-- ===== src/Mission/TaskGraph/Kahn/Order.antt =====
-- The order that topological_order of services/mission/task_graph.py returns.
use agent_os.Prelude.{
  ℕ, zero, suc, ◌≡◌, refl, sym, ap, ◌∙◌, subst, ◌⊎◌, inl, inr, Bool, true, false, Option, some,
  List, [], ◌∷◌, ◌++◌, ◌+◌, ◌≤◌, ◌==◌, ==_iff, arith, Bool-cases, In, length, length-append,
  occurrences,
}
use agent_os.Prelude.Counting.{
  occurrences-append, occurrences-sort, In-occurrences, occurrences-In, length-occurrences,
}
use agent_os.Prelude.Sorting.{sort}
use agent_os.Mission.TaskGraph.Cycles.{Graph, deps_of, keys}
use agent_os.Mission.TaskGraph.Cycles.Walks.{IsOrdered}
use agent_os.Mission.TaskGraph.Kahn.{
  in_degree, dependents, lower_all, pull_node, pull_all, first_ready,
}
use agent_os.Mission.TaskGraph.Kahn.Degrees.{
  is_zero, is_zero-positive, lower_all_lem, in_degree-length, dependents_lem, deps_of-absent,
  missing, missing-none, missing-append, missing-zero, occurrences-select,
}

module _ (g : Graph) where
  -- Every task comes after its dependencies; `earlier` is what stands before.
  abbrev pub Follows : (earlier : List ℕ) → List ℕ → Type 0
  Follows earlier [] = Unit
  Follows earlier (n ∷ ns) =
      ((d : ℕ) → In d (deps_of g n) → In d earlier) × Follows (n ∷ earlier) ns

  Follows-snoc :
      (earlier order : List ℕ) (n : ℕ)
      → Follows earlier order
      → ((d : ℕ) → In d (deps_of g n) → In d earlier ⊎ In d order)
      → Follows earlier (order ++ n ∷ [])
  Follows-snoc earlier [] n h deps =
      (λ d there. elim (deps d there) [ inl before ↦ before | inr bad ↦ elim bad [ ] ], tt)
  Follows-snoc earlier (x ∷ xs) n h deps = (
    h.0,
    Follows-snoc (x ∷ earlier) xs n h.1 (λ d there. elim (deps d there) [
      | inl before ↦ inl (inr before)
      | inr (inl e) ↦ inl (inl e)
      | inr (inr later) ↦ inr later
    ]),
  )

  -- What holds before each round: a task that waits for nothing is ready, or has its place.
  pub record Going (order ready : List ℕ) (degree : ℕ → ℕ) : Type 0 where
    pub degrees : (n : ℕ) → degree n ≡ missing order (deps_of g n)
    pub placed :
        (n : ℕ)
        → occurrences n order + occurrences n ready + 1
          ≡ is_zero (degree n) + occurrences n (keys g)
    pub follows : Follows [] order

  module _ (unique : (k : ℕ) → occurrences k (keys g) ≤ 1) where
    is_key : (n : ℕ) → (in_degree g n == 0) ≡ false → 1 ≤ occurrences n (keys g)
    is_key n waits = elim (Bool-cases (occurrences n (keys g) == 0)) [
      | inr there ↦ ground arith
      | inl none_there ↦
          let alone = deps_of-absent g n (ground (arith, none_there)) in
          let free : in_degree g n ≡ 0 = in_degree-length g n ∙ ap length alone in
          absurd (ground (arith, free, waits))
    ]

    pub start : Going [] (first_ready g) (in_degree g)
    start = record {
      degrees = λ n. in_degree-length g n ∙ sym (missing-none (deps_of g n));
      placed = λ n.
          let chosen = occurrences-select (λ k. in_degree g k == 0) n (keys g) in
          elim (Bool-cases (in_degree g n == 0)) [
            | inl free ↦ rw (chosen, free) (omega arith)
            | inr waits ↦ rw (chosen, waits) (omega (arith, is_key n waits, unique n))
          ];
      follows = tt;
    }

    -- A round for the node that is pulled.
    round :
        (order ready : List ℕ) (degree : ℕ → ℕ) (node : ℕ)
        → Going order (node ∷ ready) degree
        → (let (after, next) = lower_all (dependents g node) degree ready in
            Going (order ++ node ∷ []) next after)
    round order ready degree node going = record {
      degrees = λ n. omega (arith, (lowers n).0, going.degrees n, left n, listed n);
      placed =
          λ n. omega (arith, (lowers n).1, going.placed n, occurrences-append n order (node ∷ []));
      follows = Follows-snoc [] order node going.follows (λ d there.
          inr (occurrences-In d order (missing-zero order (deps_of g node) none_missing d there)));
    }
      where
        own : (node == node) ≡ true
        own = (==_iff node node).1 refl

        new : occurrences node order ≡ 0
        new = (let p = going.placed node in let u = unique node in ground (arith, own))

        free : degree node ≡ 0
        free = (let p = going.placed node in let u = unique node in ground (arith, own))

        none_missing : missing order (deps_of g node) ≡ 0
        none_missing = sym (going.degrees node) ∙ free

        listed : (n : ℕ) → occurrences n (dependents g node) ≡ occurrences node (deps_of g n)
        listed n = dependents_lem g node n unique

        left :
            (n : ℕ)
            → missing (order ++ node ∷ []) (deps_of g n) + occurrences node (deps_of g n)
              ≡ missing order (deps_of g n)
        left n = missing-append order node (deps_of g n) new

        enough : (n : ℕ) → occurrences n (dependents g node) ≤ degree n
        enough n = omega (arith, listed n, left n, going.degrees n)

        lowers :
            (n : ℕ)
            → ((lower_all (dependents g node) degree ready).0 n + occurrences n (dependents g node)
                ≡ degree n)
              × (occurrences n (lower_all (dependents g node) degree ready).1 + is_zero (degree n)
                  ≡ occurrences n ready
                    + is_zero ((lower_all (dependents g node) degree ready).0 n))
        lowers n = lower_all_lem (dependents g node) degree ready enough n

    -- The sorted list is as good as the list.
    sorted :
        (le : ℕ → ℕ → Bool) (order ready : List ℕ) (degree : ℕ → ℕ)
        → Going order ready degree
        → Going order (sort le ready) degree
    sorted le order ready degree going = record {
      degrees = going.degrees;
      placed = λ n. omega (arith, occurrences-sort le n ready, going.placed n);
      follows = going.follows;
    }

    room :
        (order ready : List ℕ) (degree : ℕ → ℕ)
        → Going order ready degree
        → length order + length ready ≤ length (keys g)
    room order ready degree going = omega (
      arith,
      length-append order ready,
      length-occurrences (order ++ ready) (keys g)
          (λ n. let p = going.placed n in let s = occurrences-append n order ready in ground arith),
    )

    -- How the loop ends.
    abbrev pub Ends : Option (List ℕ) → Type 0
    Ends end = (order : List ℕ) × (degree : ℕ → ℕ) × (end ≡ some order) × Going order [] degree

    after_sort :
        (rest : (ready : List ℕ) (degree : ℕ → ℕ) (order : List ℕ) → Option (List ℕ)) (fuel : ℕ)
        → ((ready : List ℕ) (degree : ℕ → ℕ) (order : List ℕ)
            → length (keys g) ≤ fuel + length order
            → Going order ready degree
            → Ends (rest ready degree order))
        → (ready : List ℕ) (degree : ℕ → ℕ) (order : List ℕ)
        → length (keys g) ≤ suc fuel + length order
        → Going order ready degree
        → Ends (pull_node g rest ready degree order)
    after_sort rest fuel ends [] degree order enough going = (order, degree, refl, going)
    after_sort rest fuel ends (node ∷ ready) degree order enough going =
        let (after, next) = lower_all (dependents g node) degree ready in
        ends next after (order ++ node ∷ [])
          (omega (arith, enough, length-append order (node ∷ [])))
          (round order ready degree node going)

    pub pull_all-Ends :
        (fuel : ℕ) (first : ℕ → ℕ → Bool) (ready : List ℕ) (degree : ℕ → ℕ) (order : List ℕ)
        → length (keys g) ≤ fuel + length order
        → Going order ready degree
        → Ends (pull_all fuel g first ready degree order)
    unfolding pull_all
    pull_all-Ends fuel first [] degree order enough going = (order, degree, refl, going)
    pull_all-Ends zero first (n ∷ ns) degree order enough going =
        absurd (omega (arith, enough, room order (n ∷ ns) degree going))
    pull_all-Ends (suc fuel) first (n ∷ ns) degree order enough going =
        after_sort (pull_all fuel g first) fuel (pull_all-Ends fuel first) (sort (first) (n ∷ ns))
          degree order enough (sorted first order (n ∷ ns) degree going)

    none_missing_in :
        (order ds : List ℕ) → ((d : ℕ) → In d ds → 1 ≤ occurrences d order) → missing order ds ≡ 0
    none_missing_in order [] h = refl
    none_missing_in order (d ∷ ds) h =
        let here = h d (inl refl) in
        omega (
          arith,
          is_zero-positive (occurrences d order) here,
          none_missing_in order ds (λ x there. h x (inr there)),
        )

    -- When nothing is ready any more, what an order of the graph holds has its place.
    all_placed :
        (order : List ℕ) (degree : ℕ → ℕ)
        → Going order [] degree
        → ((n d : ℕ) → In d (deps_of g n) → In d (keys g))
        → (bottom : List ℕ) → IsOrdered g bottom
        → (n : ℕ) → In n bottom
        → In n (keys g)
        → 1 ≤ occurrences n order
    all_placed order degree going closed [] h n there key = elim there [ ]
    all_placed order degree going closed (x ∷ xs) h n (inr there) key =
        all_placed order degree going closed xs h.1 n there key
    all_placed order degree going closed (x ∷ xs) h n (inl e) key =
        let h' = subst (λ y. (d : ℕ) → In d (deps_of g y) → In d (keys g) → In d xs) e h.0 in
        let below : (d : ℕ) → In d (deps_of g n) → 1 ≤ occurrences d order = λ d k.
          all_placed order degree going closed xs h.1 d (h' d k (closed n d k)) (closed n d k) in
        let done : missing order (deps_of g n) ≡ 0 = none_missing_in order (deps_of g n) below in
        let free : degree n ≡ 0 = going.degrees n ∙ done in
        let p = going.placed n in let q = In-occurrences n (keys g) key in ground (arith, free)

    pub all_placed_once :
        (order : List ℕ) (degree : ℕ → ℕ)
        → Going order [] degree
        → ((n d : ℕ) → In d (deps_of g n) → In d (keys g))
        → (bottom : List ℕ) → IsOrdered g bottom
        → ((k : ℕ) → In k (keys g) → In k bottom)
        → (n : ℕ) → occurrences n order ≡ occurrences n (keys g)
    all_placed_once order degree going closed bottom h holds n =
        let p = going.placed n in
        let u = unique n in
        elim (Bool-cases (occurrences n (keys g) == 0)) [
          | inl none_there ↦ ground arith
          | inr some_there ↦
              let key : In n (keys g) = occurrences-In n (keys g) (ground arith) in
              let q = all_placed order degree going closed bottom h n (holds n key) key in
              ground arith
        ]
