-- ===== src/Mission/TaskGraph/Kahn/Degrees.antt =====
-- What topological_order of services/mission/task_graph.py counts: the dependencies of a task that
-- have no place in the order yet.
use agent_os.Prelude.{
  ℕ, ◌≡◌, refl, sym, ap, ◌∙◌, subst, inl, inr, Bool, true, false, List, [], ◌∷◌, ◌++◌, ◌+◌, ◌-◌,
  ◌≤◌, ◌==◌, ==_iff, arith, if◌then◌else◌, Bool-cases, In, length, occurrences,
}
use agent_os.Prelude.Counting.{occurrences-append}
use agent_os.Sql.{select}
use agent_os.Mission.TaskGraph.Cycles.{Graph, deps_of, keys}
use agent_os.Mission.TaskGraph.Kahn.{in_degree, repeated, dependents, lowered, lower_all}

abbrev pub is_zero : ℕ → ℕ
is_zero n = if n == 0 then 1 else 0

lowered_at :
    (n m : ℕ) (ns : List ℕ) (degree : ℕ → ℕ)
    → ((k : ℕ) → occurrences k (n ∷ ns) ≤ degree k)
    → (lowered n degree m + (if n == m then 1 else 0) ≡ degree m)
      × (occurrences m ns ≤ lowered n degree m)
lowered_at n m ns degree h = elim (Bool-cases (n == m)) [
  | inl e ↦
      let same : n ≡ m = (==_iff n m).0 e in
      let enough : occurrences m (n ∷ ns) ≤ degree m = h m in
      let more : occurrences m (n ∷ ns) ≡ 1 + occurrences m ns = rw e refl in
      let at : degree n ≡ degree m = ap degree same in rw e (omega arith, omega arith)
  | inr other ↦ rw other (omega arith, (let h' = h m in ground arith))
]

is_zero-zero : (n : ℕ) → (n == 0) ≡ true → is_zero n ≡ 1
is_zero-zero n e = rw e refl

is_zero-other : (n : ℕ) → (n == 0) ≡ false → is_zero n ≡ 0
is_zero-other n e = rw e refl

pub is_zero-positive : (n : ℕ) → 1 ≤ n → is_zero n ≡ 0
is_zero-positive n h = ground arith

-- A task that reaches 0 joins the ready ones.
joins :
    (n m : ℕ) (degree : ℕ → ℕ) (ready : List ℕ)
    → 1 ≤ degree n
    → occurrences m (if lowered n degree n == 0 then ready ++ n ∷ [] else ready)
        + is_zero (degree m)
      ≡ occurrences m ready + is_zero (lowered n degree m)
joins n m degree ready h =
    let own : lowered n degree n ≡ degree n - 1 = rw ((==_iff n n).1 refl) refl in
    let split = occurrences-append m ready (n ∷ []) in
    elim (Bool-cases (n == m)) [
      | inl e ↦
          let at : degree n ≡ degree m = ap degree ((==_iff n m).0 e) in
          let positive : is_zero (degree m) ≡ 0 = ground arith in
          elim (Bool-cases (degree n - 1 == 0)) [
            | inl last ↦
                rw (own, last, split, e, positive, is_zero-zero (degree n - 1) last) (omega arith)
            | inr left ↦
                rw (own, left, e, positive, is_zero-other (degree n - 1) left) (omega arith)
          ]
      | inr other ↦ elim (Bool-cases (degree n - 1 == 0)) [
        | inl last ↦ rw (own, last, split, other) (omega arith)
        | inr left ↦ rw (own, left, other) refl
      ]
    ]

-- Where no count is lowered below 0, each is lowered by what was listed, and what reaches 0 joins
-- the ready tasks, once.
pub lower_all_lem :
    (ns : List ℕ) (degree : ℕ → ℕ) (ready : List ℕ)
    → ((m : ℕ) → occurrences m ns ≤ degree m)
    → (m : ℕ)
    → ((lower_all ns degree ready).0 m + occurrences m ns ≡ degree m)
      × (occurrences m (lower_all ns degree ready).1 + is_zero (degree m)
          ≡ occurrences m ready + is_zero ((lower_all ns degree ready).0 m))
unfolding lower_all
lower_all_lem [] degree ready h m = (omega arith, refl)
lower_all_lem (n ∷ ns) degree ready h m =
    let next = if lowered n degree n == 0 then ready ++ n ∷ [] else ready in
    let rest = lower_all_lem ns (lowered n degree) next (λ k. (lowered_at n k ns degree h).1) m in
    let step = lowered_at n m ns degree h in
    let here : (n == n) ≡ true = (==_iff n n).1 refl in
    let enough : 1 ≤ degree n = (let h' = h n in ground (arith, here)) in
    (omega (arith, rest.0, step.0), omega (arith, rest.1, joins n m degree ready enough))

pub in_degree-length : (g : Graph) (n : ℕ) → in_degree g n ≡ length (deps_of g n)
unfolding deps_of
in_degree-length [] n = refl
in_degree-length ((k, ds) ∷ g) n = elim (Bool-cases (k == n)) [
  | inl e ↦ rw e refl
  | inr other ↦ rw other (in_degree-length g n)
]

pub deps_of-absent : (g : Graph) (n : ℕ) → occurrences n (keys g) ≡ 0 → deps_of g n ≡ []
unfolding deps_of
deps_of-absent [] n h = refl
deps_of-absent ((k, ds) ∷ g) n h = elim (Bool-cases (k == n)) [
  | inl e ↦ absurd (ground arith)
  | inr other ↦ rw other (deps_of-absent g n (ground arith))
]

repeated_lem :
    (n k m : ℕ) (ds : List ℕ)
    → occurrences m (repeated n k ds) ≡ (if k == m then occurrences n ds else 0)
repeated_lem n k m [] = ground arith
repeated_lem n k m (d ∷ ds) = elim (Bool-cases (d == n)) [
  | inl e ↦ rw e (ground (arith, repeated_lem n k m ds))
  | inr other ↦ rw other (ground (arith, repeated_lem n k m ds))
]

-- A task is listed under n as often as n is among its dependencies.
pub dependents_lem :
    (g : Graph) (n m : ℕ)
    → ((k : ℕ) → occurrences k (keys g) ≤ 1)
    → occurrences m (dependents g n) ≡ occurrences n (deps_of g m)
unfolding deps_of
dependents_lem [] n m unique = refl
dependents_lem ((k, ds) ∷ g) n m unique =
    let rest = dependents_lem g n m (λ j. omega (arith, unique j)) in
    let split = occurrences-append m (repeated n k ds) (dependents g n) in
    let here = repeated_lem n k m ds in
    elim (Bool-cases (k == m)) [
      | inl e ↦
          let gone : occurrences m (keys g) ≡ 0 = (let once = unique m in ground arith) in
          let nothing : occurrences n (deps_of g m) ≡ 0 =
            ap (occurrences n) (deps_of-absent g m gone) in
          rw (split, here, e, rest, nothing) (omega arith)
      | inr other ↦ rw (split, here, other) (omega (arith, rest))
    ]

-- How many of the dependencies have no place in the order.
abbrev pub missing : (order : List ℕ) → List ℕ → ℕ
missing order [] = 0
missing order (d ∷ ds) = is_zero (occurrences d order) + missing order ds

pub missing-none : (ds : List ℕ) → missing [] ds ≡ length ds
missing-none [] = refl
missing-none (d ∷ ds) = omega (arith, missing-none ds)

pub missing-append :
    (order : List ℕ) (n : ℕ) (ds : List ℕ)
    → occurrences n order ≡ 0
    → missing (order ++ n ∷ []) ds + occurrences n ds ≡ missing order ds
missing-append order n [] new = refl
missing-append order n (d ∷ ds) new =
    let rest = missing-append order n ds new in
    let split = occurrences-append d order (n ∷ []) in
    elim (Bool-cases (d == n)) [
      | inl e ↦
          let same : d ≡ n = (==_iff d n).0 e in
          let back : (n == d) ≡ true = (==_iff n d).1 (sym same) in
          let new' : occurrences d order ≡ 0 = ap (λ x. occurrences x order) same ∙ new in
          rw (split, e, back, new') (omega (arith, rest))
      | inr other ↦
          let apart : (n == d) ≡ false = ground (arith, ==_iff n d, ==_iff d n) in
          let none_here : occurrences d (n ∷ []) ≡ 0 = rw apart refl in
          let same : occurrences d (order ++ n ∷ []) ≡ occurrences d order =
            omega (arith, split, none_here) in
          rw (same, other) (omega (arith, rest))
    ]

pub missing-zero :
    (order ds : List ℕ) → missing order ds ≡ 0 → (d : ℕ) → In d ds → 1 ≤ occurrences d order
missing-zero order [] h d there = elim there [ ]
missing-zero order (x ∷ ds) h d (inl e) = subst (λ y. 1 ≤ occurrences y order) e (ground arith)
missing-zero order (x ∷ ds) h d (inr there) = missing-zero order ds (ground arith) d there

pub occurrences-select :
    (p : ℕ → Bool) (n : ℕ) (ks : List ℕ)
    → occurrences n (select p ks) ≡ (if p n then occurrences n ks else 0)
occurrences-select p n [] = ground arith
occurrences-select p n (k ∷ ks) = elim (Bool-cases (k == n)) [
  | inl e ↦
      let same : p k ≡ p n = ap p ((==_iff k n).0 e) in
      let rest = occurrences-select p n ks in
      elim (Bool-cases (p n)) [
        | inl kept ↦ rw (same, kept, e) (ground (arith, rest, kept))
        | inr dropped ↦ rw (same, dropped) (ground (arith, rest, dropped))
      ]
  | inr other ↦
      let rest = occurrences-select p n ks in
      elim (Bool-cases (p k)) [
        | inl kept ↦ rw (kept, other) (ground (arith, rest))
        | inr dropped ↦ rw (dropped, other) (ground (arith, rest))
      ]
]
