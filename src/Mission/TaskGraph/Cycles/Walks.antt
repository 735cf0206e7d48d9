-- ===== src/Mission/TaskGraph/Cycles/Walks.antt =====
-- Walks along dependencies, and the cycles that an ordering of the tasks excludes.
use agent_os.Prelude.{
  ℕ, ◌≡◌, refl, sym, subst, ap, ◌⊎◌, inl, inr, false, List, [], ◌∷◌, ◌++◌, arith, ◌==◌, ==_iff,
  if◌then◌else◌, In, Bool-cases,
}
use agent_os.Mission.TaskGraph.Cycles.{Graph, deps_of, slice_from, keys}

module _ (g : Graph) where
  -- Each member of the list is a dependency of the one before it.
  abbrev pub IsWalk : List ℕ → Type 0
  IsWalk [] = Unit
  IsWalk (x ∷ []) = Unit
  IsWalk (x ∷ y ∷ r) = In y (deps_of g x) × IsWalk (y ∷ r)

  -- A walk of one step or more that ends where it starts.
  pub record IsCycle (p : List ℕ) : Type 0 where
    pub start : ℕ
    pub inner : List ℕ
    pub shape : p ≡ start ∷ inner ++ start ∷ []
    pub walk : IsWalk p

  pub IsWalk-snoc :
      (path : List ℕ) (n d : ℕ)
      → IsWalk (path ++ n ∷ [])
      → In d (deps_of g n)
      → IsWalk ((path ++ n ∷ []) ++ d ∷ [])
  IsWalk-snoc [] n d h e = (e, tt)
  IsWalk-snoc (x ∷ []) n d h e = (h.0, (e, tt))
  IsWalk-snoc (x ∷ y ∷ r) n d h e = (h.0, IsWalk-snoc (y ∷ r) n d h.1 e)

  IsWalk-tail : (x : ℕ) (r : List ℕ) → IsWalk (x ∷ r) → IsWalk r
  IsWalk-tail x [] h = tt
  IsWalk-tail x (y ∷ r) h = h.1

  pub slice-IsCycle :
      (d : ℕ) (path : List ℕ)
      → In d path
      → IsWalk (path ++ d ∷ [])
      → IsCycle (slice_from d path ++ d ∷ [])
  unfolding slice_from
  slice-IsCycle d [] h w = elim h [ ]
  slice-IsCycle d (x ∷ xs) h w = elim (Bool-cases (x == d)) [
    | inl e ↦ rw e (record {
      start = d;
      inner = xs;
      shape = ap (λ y. y ∷ xs ++ d ∷ []) ((==_iff x d).0 e);
      walk = w;
    })
    | inr e ↦ rw e (later h e (λ k. slice-IsCycle d xs k (IsWalk-tail x (xs ++ d ∷ []) w)))
  ]
    where
      later :
          In d (x ∷ xs)
          → (x == d) ≡ false
          → (In d xs → IsCycle (slice_from d xs ++ d ∷ []))
          → IsCycle (slice_from d xs ++ d ∷ [])
      later (inl here) e rest = absurd (ground arith)
      later (inr there) e rest = rest there

  -- One or more steps from a task to one of its dependencies.
  pub data Reaches (a : ℕ) : ℕ → Type 0 where
    one : {b : ℕ} → In b (deps_of g a) → Reaches a b
    more : {b c : ℕ} → Reaches a b → In c (deps_of g b) → Reaches a c

  pub Reaches-cons : {a b c : ℕ} → In b (deps_of g a) → Reaches b c → Reaches a c
  Reaches-cons h (one k) = more (one h) k
  Reaches-cons h (more r k) = more (Reaches-cons h r) k

  first_step : {a c : ℕ} → Reaches a c → (b : ℕ) × In b (deps_of g a) × ((b ≡ c) ⊎ Reaches b c)
  first_step (one {b} h) = (b, h, inl refl)
  first_step (more {b} {c} r k) =
      let (x, h, rest) = first_step r in
      (
        x,
        h,
        elim rest [
          | inl e ↦ inr (one (subst (λ y. In c (deps_of g y)) (sym e) k))
          | inr longer ↦ inr (more longer k)
        ],
      )

  -- Every task comes before its dependencies, as far as those are keys of the graph.
  abbrev pub IsOrdered : List ℕ → Type 0
  IsOrdered [] = Unit
  IsOrdered (n ∷ rest) = ((d : ℕ) → In d (deps_of g n) → In d (keys g) → In d rest) × IsOrdered rest

  leaves_key : (g' : Graph) (n d : ℕ) → In d (deps_of g' n) → In n (keys g')
  unfolding deps_of
  leaves_key [] n d h = elim h [ ]
  leaves_key ((k, ds) ∷ g') n d h = elim (Bool-cases (k == n)) [
    | inl e ↦ inl ((==_iff k n).0 e)
    | inr e ↦ inr (leaves_key g' n d (subst (λ b. In d (if b then ds else deps_of g' n)) e h))
  ]

  pub Reaches-key : {a b : ℕ} → Reaches a b → In a (keys g)
  Reaches-key {a} (one {b} h) = leaves_key g a b h
  Reaches-key (more r k) = Reaches-key r

  pub not-Reaches_self : (order : List ℕ) → IsOrdered order → (a : ℕ) → In a order → ¬ Reaches a a
  not-Reaches_self [] h a there r = elim there [ ]
  not-Reaches_self (n ∷ rest) h a (inr there) r = not-Reaches_self rest h.1 a there r
  not-Reaches_self (n ∷ rest) h a (inl here) r =
      let (b, step, back) = first_step r in
      let below : In b (keys g) → In b rest =
        h.0 b (subst (λ x. In b (deps_of g x)) (sym here) step) in
      elim back [
        | inl e ↦
            not-Reaches_self rest h.1 a
              (subst (λ x. In x rest) e
                (below (subst (λ x. In x (keys g)) (sym e) (Reaches-key r))))
              r
        | inr longer ↦ not-Reaches_self rest h.1 b (below (Reaches-key longer)) (more longer step)
      ]

  walk-Reaches : (x : ℕ) (inner : List ℕ) (d : ℕ) → IsWalk (x ∷ inner ++ d ∷ []) → Reaches x d
  walk-Reaches x [] d h = one h.0
  walk-Reaches x (y ∷ r) d h = Reaches-cons h.0 (walk-Reaches y r d h.1)

  pub IsCycle-Reaches : {p : List ℕ} → IsCycle p → (a : ℕ) × Reaches a a
  IsCycle-Reaches {p} c =
      (c.start, walk-Reaches c.start c.inner c.start (subst IsWalk c.shape c.walk))
