-- ===== src/Mission/TaskGraph/Cycles/Descent.antt =====
-- What the search of validate_acyclic keeps: the gray tasks are on the path, the black ones stand
-- in an order in which their dependencies follow them, and the white ones get fewer.
use agent_os.Prelude.{
  ℕ, zero, suc, ◌≡◌, ◌≢◌, refl, sym, subst, ap, inl, inr, Option, none, some, List, [], ◌∷◌, ◌++◌,
  arith, ◌==◌, ==_iff, ◌+◌, ◌≤◌, ◌<◌, In, Bool-cases,
}
use native.Mathlib.Nat.{le_trans}
use agent_os.Mission.TaskGraph.Cycles.{
  Graph, deps_of, slice_from, keys, Color, white, gray, black, Colors, paint, Search, finished,
  cyclic, exhausted, then_search, visit, dfs,
}
use agent_os.Mission.TaskGraph.Cycles.Walks.{IsWalk, IsCycle, IsOrdered, IsWalk-snoc, slice-IsCycle}

abbrev is_white : Option Color → ℕ
is_white (some white) = 1
is_white _ = 0

abbrev pub whites : List ℕ → Colors → ℕ
whites [] c = 0
whites (k ∷ ks) c = is_white (c k) + whites ks c

-- No task turns white.
abbrev pub Faded : Colors → Colors → Type 0
Faded c c' = (m : ℕ) → c' m ≡ some white → c m ≡ some white

is_white-le : (o o' : Option Color) → (o' ≡ some white → o ≡ some white) → is_white o' ≤ is_white o
is_white-le o (some white) h = rw (h refl) (omega arith)
is_white-le o (some gray) h = omega arith
is_white-le o (some black) h = omega arith
is_white-le o none h = omega arith

pub whites-le : (ks : List ℕ) (c c' : Colors) → Faded c c' → whites ks c' ≤ whites ks c
whites-le [] c c' h = omega arith
whites-le (k ∷ ks) c c' h = omega (arith, is_white-le (c k) (c' k) (h k), whites-le ks c c' h)

Faded-gray : (c : Colors) (n : ℕ) → Faded c (paint c n gray)
Faded-gray c n m h = ground arith

whites_fall :
    (ks : List ℕ) (c : Colors) (n : ℕ)
    → In n ks
    → c n ≡ some white
    → whites ks (paint c n gray) < whites ks c
whites_fall [] c n h e = elim h [ ]
whites_fall (k ∷ ks) c n (inl here) e =
    let less : whites ks (paint c n gray) ≤ whites ks c =
      whites-le ks c (paint c n gray) (Faded-gray c n) in
    let e' : c k ≡ some white = subst (λ x. c x ≡ some white) (sym here) e in
    let now : paint c n gray k ≡ some gray = ground arith in
    let one : is_white (c k) ≡ 1 = ap is_white e' in
    let zeroed : is_white (paint c n gray k) ≡ 0 = ap is_white now in omega arith
whites_fall (k ∷ ks) c n (inr there) e =
    omega
      (arith, whites_fall ks c n there e, is_white-le (c k) (paint c n gray k) (Faded-gray c n k))

module _ (call : ℕ → Colors → Search) (path : List ℕ) (d : ℕ) (ds : List ℕ) (c : Colors) where
  visit_unknown : c d ≡ none → visit call path (d ∷ ds) c ≡ visit call path ds c
  unfolding visit
  visit_unknown e = rw (e, visit)

  visit_black : c d ≡ some black → visit call path (d ∷ ds) c ≡ visit call path ds c
  unfolding visit
  visit_black e = rw (e, visit)

  visit_gray : c d ≡ some gray → visit call path (d ∷ ds) c ≡ cyclic (slice_from d path ++ d ∷ [])
  unfolding visit
  visit_gray e = rw (e, visit)

  visit_white :
      c d ≡ some white → visit call path (d ∷ ds) c ≡ then_search (call d c) (visit call path ds)
  unfolding visit
  visit_white e = rw (e, visit)

In-snoc : (xs : List ℕ) (n m : ℕ) → In m xs → In m (xs ++ n ∷ [])
In-snoc [] n m h = elim h [ ]
In-snoc (x ∷ xs) n m (inl e) = inl e
In-snoc (x ∷ xs) n m (inr h) = inr (In-snoc xs n m h)

In-snoc_last : (xs : List ℕ) (n m : ℕ) → n ≡ m → In m (xs ++ n ∷ [])
In-snoc_last [] n m e = inl e
In-snoc_last (x ∷ xs) n m e = inr (In-snoc_last xs n m e)

In-snoc_ne : (xs : List ℕ) (n m : ℕ) → n ≢ m → In m (xs ++ n ∷ []) → In m xs
In-snoc_ne [] n m h (inl e) = absurd (h e)
In-snoc_ne [] n m h (inr k) = elim k [ ]
In-snoc_ne (x ∷ xs) n m h (inl e) = inl e
In-snoc_ne (x ∷ xs) n m h (inr k) = inr (In-snoc_ne xs n m h k)

module _ (g : Graph) where
  pub record Inv (path : List ℕ) (c : Colors) (order : List ℕ) : Type 0 where
    pub grays : (m : ℕ) → c m ≡ some gray → In m path
    pub blacks : (m : ℕ) → c m ≡ some black → In m order
    pub ordered : IsOrdered g order
    pub known : (m : ℕ) → c m ≡ none → ¬ In m (keys g)
    pub colored : (m : ℕ) → c m ≢ none → In m (keys g)

  pub record Grown (order order' : List ℕ) (c c' : Colors) : Type 0 where
    pub kept : (m : ℕ) → In m order → In m order'
    pub faded : Faded c c'

  -- The search ends with the invariant and `Q`, or with a cycle; it never runs out of fuel.
  abbrev pub Post : List ℕ → Colors → List ℕ → (List ℕ → Type 0) → Search → Type 0
  Post path c order Q (finished c') =
      (order' : List ℕ) × Inv path c' order' × Grown order order' c c' × Q order'
  Post path c order Q (cyclic p) = IsCycle g p
  Post path c order Q exhausted = ⊥

  pub Post-then :
      (path : List ℕ) (c : Colors) (order : List ℕ) (Q R : List ℕ → Type 0) (r : Search)
      (k : Colors → Search)
      → Post path c order Q r
      → ((c' : Colors) (order' : List ℕ)
          → Inv path c' order'
          → Grown order order' c c'
          → Q order'
          → Post path c order R (k c'))
      → Post path c order R (then_search r k)
  Post-then path c order Q R (finished c') k h next = next c' h.0 h.1 h.2 h.3
  Post-then path c order Q R (cyclic p) k h next = h
  Post-then path c order Q R exhausted k h next = h

  pub Post-after :
      (path : List ℕ) (c c1 : Colors) (order order1 : List ℕ) (Q R : List ℕ → Type 0) (r : Search)
      → Grown order order1 c c1
      → ((o : List ℕ) → ((m : ℕ) → In m order1 → In m o) → Q o → R o)
      → Post path c1 order1 Q r
      → Post path c order R r
  Post-after path c c1 order order1 Q R (finished c') grown weaken h = (
    h.0,
    h.1,
    record {
      kept = λ m k. h.2.kept m (grown.kept m k);
      faded = λ m k. grown.faded m (h.2.faded m k);
    },
    weaken h.0 h.2.kept h.3,
  )
  Post-after path c c1 order order1 Q R (cyclic p) grown weaken h = h
  Post-after path c c1 order order1 Q R exhausted grown weaken h = h

  Grown-refl : (order : List ℕ) (c : Colors) → Grown order order c c
  Grown-refl order c = record { kept = λ m k. k; faded = λ m k. k }

  -- All of `ds` that are tasks of the graph stand in the order.
  abbrev Placed : List ℕ → List ℕ → Type 0
  Placed ds o = (d : ℕ) → In d ds → In d (keys g) → In d o

  Placed-cons : (d : ℕ) (ds o : List ℕ) → (In d (keys g) → In d o) → Placed ds o → Placed (d ∷ ds) o
  Placed-cons d ds o first rest m (inl e) k =
      subst (λ x. In x o) e (first (subst (λ x. In x (keys g)) (sym e) k))
  Placed-cons d ds o first rest m (inr there) k = rest m there k

  module _ (f : ℕ) (path : List ℕ) (call : ℕ → Colors → Search)
      (calls : (d : ℕ) (c : Colors) (order : List ℕ)
        → c d ≡ some white
        → Inv path c order
        → whites (keys g) c ≤ f
        → IsWalk g (path ++ d ∷ [])
        → Post path c order (λ o. In d o) (call d c)) where
    visit-Post :
        (ds : List ℕ) (c : Colors) (order : List ℕ)
        → Inv path c order
        → whites (keys g) c ≤ f
        → ((d : ℕ) → In d ds → IsWalk g (path ++ d ∷ []))
        → Post path c order (Placed ds) (visit call path ds c)
    unfolding visit
    visit-Post [] c order inv few steps = (order, inv, Grown-refl order c, λ d h k. elim h [ ])
    visit-Post (d ∷ ds) c order inv few steps =
        go (λ c1 order1 inv1 few1. visit-Post ds c1 order1 inv1 few1 (λ m h. steps m (inr h))) (c d)
          refl
      where
        P : Search → Type 0
        P = Post path c order (Placed (d ∷ ds))

        skip :
            ((c1 : Colors) (order1 : List ℕ)
              → Inv path c1 order1
              → whites (keys g) c1 ≤ f
              → Post path c1 order1 (Placed ds) (visit call path ds c1))
            → (In d (keys g) → In d order)
            → Post path c order (Placed (d ∷ ds)) (visit call path ds c)
        skip rest first =
            Post-after path c c order order (Placed ds) (Placed (d ∷ ds)) (visit call path ds c)
              (Grown-refl order c)
              (λ o kept placed. Placed-cons d ds o (λ k. kept d (first k)) placed)
              (rest c order inv few)

        go :
            ((c1 : Colors) (order1 : List ℕ)
              → Inv path c1 order1
              → whites (keys g) c1 ≤ f
              → Post path c1 order1 (Placed ds) (visit call path ds c1))
            → (o : Option Color) → c d ≡ o
            → Post path c order (Placed (d ∷ ds)) (visit call path (d ∷ ds) c)
        go rest none e =
            subst P (sym (visit_unknown call path d ds c e))
              (skip rest (λ k. absurd (inv.known d e k)))
        go rest (some gray) e =
            subst P (sym (visit_gray call path d ds c e))
              (slice-IsCycle g d path (inv.grays d e) (steps d (inl refl)))
        go rest (some black) e =
            subst P (sym (visit_black call path d ds c e)) (skip rest (λ k. inv.blacks d e))
        go rest (some white) e = subst P (sym (visit_white call path d ds c e)) (
            Post-then path c order (λ o. In d o) (Placed (d ∷ ds)) (call d c) (visit call path ds)
              (calls d c order e inv few (steps d (inl refl)))
              λ c1 order1 inv1 grown placed.
                Post-after path c c1 order order1 (Placed ds) (Placed (d ∷ ds))
                  (visit call path ds c1) grown
                  (λ o kept all_placed. Placed-cons d ds o (λ k. kept d placed) all_placed)
                  (rest c1 order1 inv1 (le_trans (whites-le (keys g) c c1 grown.faded) few)))

  -- The start of a call: its node turns gray.
  Inv-enter :
      (path : List ℕ) (n : ℕ) (c : Colors) (order : List ℕ)
      → c n ≡ some white
      → Inv path c order
      → Inv (path ++ n ∷ []) (paint c n gray) order
  Inv-enter path n c order e inv = record {
    grays = λ m h. elim (Bool-cases (n == m)) [
      | inl here ↦ In-snoc_last path n m ((==_iff n m).0 here)
      | inr there ↦ In-snoc path n m (inv.grays m (ground arith))
    ];
    blacks = λ m h. inv.blacks m (ground arith);
    ordered = inv.ordered;
    known = λ m h. inv.known m (ground arith);
    colored = λ m h. elim (Bool-cases (n == m)) [
      | inl here ↦ subst (λ x. In x (keys g)) ((==_iff n m).0 here) (inv.colored n (λ k. cc))
      | inr there ↦ inv.colored m (λ k. h (ground arith))
    ];
  }

  -- Its end: the node turns black, and takes the first place in the order.
  Inv-leave :
      (path : List ℕ) (n : ℕ) (c : Colors) (order : List ℕ)
      → In n (keys g)
      → Inv (path ++ n ∷ []) c order
      → Placed (deps_of g n) order
      → Inv path (paint c n black) (n ∷ order)
  Inv-leave path n c order is_key inv placed = record {
    grays = λ m h. In-snoc_ne path n m (λ e. grind arith) (inv.grays m (ground arith));
    blacks = λ m h. elim (Bool-cases (n == m)) [
      | inl here ↦ inl ((==_iff n m).0 here)
      | inr there ↦ inr (inv.blacks m (ground arith))
    ];
    ordered = (placed, inv.ordered);
    known = λ m h. inv.known m (ground arith);
    colored = λ m h. elim (Bool-cases (n == m)) [
      | inl here ↦ subst (λ x. In x (keys g)) ((==_iff n m).0 here) is_key
      | inr there ↦ inv.colored m (λ k. h (ground arith))
    ];
  }

  pub dfs-Post :
      (f : ℕ) (path : List ℕ) (n : ℕ) (c : Colors) (order : List ℕ)
      → c n ≡ some white
      → Inv path c order
      → whites (keys g) c ≤ f
      → IsWalk g (path ++ n ∷ [])
      → Post path c order (λ o. In n o) (dfs f g path n c)
  unfolding dfs
  dfs-Post zero path n c order e inv few walk =
      absurd (omega (arith, whites_fall (keys g) c n (inv.colored n (λ k. cc)) e))
  dfs-Post (suc f) path n c order e inv few walk =
      let is_key : In n (keys g) = inv.colored n (λ k. cc) in
      let found =
        visit-Post f (path ++ n ∷ []) (dfs f g (path ++ n ∷ [])) (dfs-Post f (path ++ n ∷ []))
          (deps_of g n) (paint c n gray) order (Inv-enter path n c order e inv)
          (omega (arith, whites_fall (keys g) c n is_key e))
          (λ d h. IsWalk-snoc g path n d walk h) in
      close is_key
        (visit (dfs f g (path ++ n ∷ [])) (path ++ n ∷ []) (deps_of g n) (paint c n gray)) found
    where
      close :
          In n (keys g)
          → (r : Search) → Post (path ++ n ∷ []) (paint c n gray) order (Placed (deps_of g n)) r
          → Post path c order (λ o. In n o) (then_search r (λ c'. finished (paint c' n black)))
      close is_key (finished c') (order', inv', grown, placed) = (
        n ∷ order',
        Inv-leave path n c' order' is_key inv' placed,
        record {
          kept = λ m h. inr (grown.kept m h);
          faded = λ m h. Faded-gray c n m (grown.faded m (ground arith));
        },
        inl refl,
      )
      close is_key (cyclic p) h = h
      close is_key exhausted h = h
