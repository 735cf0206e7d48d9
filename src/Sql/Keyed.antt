-- ===== src/Sql/Keyed.antt =====
-- Laws of the statements that name one row by its primary key.
use agent_os.Prelude.{
  ℕ, ◌≡◌, ◌≢◌, refl, sym, subst, Bool, true, ◌&&◌, Option, none, some, List, [], ◌∷◌, arith, ◌==◌,
  if◌then◌else◌, ==_iff, Bool-cases, inl, inr, All,
}
use agent_os.Sql.{fetchrow, update_where, insert}

module _ {Row : Type 0} where
  abbrev pub map_row : (Row → Row) → Option Row → Option Row
  map_row f none = none
  map_row f (some r) = some (f r)

  abbrev pub filter_row : (Row → Bool) → Option Row → Option Row
  filter_row q none = none
  filter_row q (some r) = if q r then some r else none

  abbrev pub or_row : Option Row → Option Row → Option Row
  or_row none s = s
  or_row (some r) s = some r

  pub fetchrow-insert :
      (p : Row → Bool) (new : Row) (rs : List Row)
      → fetchrow p (insert new rs) ≡ or_row (fetchrow p rs) (if p new then some new else none)
  fetchrow-insert p new [] = refl
  fetchrow-insert p new (r ∷ rs) = ground (arith, fetchrow-insert p new rs)

  pub fetchrow_holds :
      (p : Row → Bool) (rs : List Row) (r : Row) → fetchrow p rs ≡ some r → p r ≡ true
  fetchrow_holds p [] r h = cc
  fetchrow_holds p (x ∷ rs) r h = ground (arith, fetchrow_holds p rs r)

module _ {Row : Type 0} where
  -- An UPDATE that finds no row changes nothing.
  pub update_where_miss :
      (p : Row → Bool) (f : Row → Row) (rs : List Row)
      → fetchrow p rs ≡ none
      → update_where p f rs ≡ rs
  update_where_miss p f [] h = refl
  update_where_miss p f (r ∷ rs) h = ground (arith, update_where_miss p f rs)

module _ {Row : Type 0} (key : Row → ℕ) where
  abbrev pub by_key : ℕ → Row → Bool
  by_key k r = key r == k

  -- An UPDATE that keeps the keys acts on the row of each key.
  pub fetchrow-update :
      (p : Row → Bool) (f : Row → Row) (keeps : (r : Row) → key (f r) ≡ key r) (j : ℕ)
      (rs : List Row)
      → fetchrow (by_key j) (update_where p f rs)
        ≡ map_row (λ r. if p r then f r else r) (fetchrow (by_key j) rs)
  fetchrow-update p f keeps j [] = refl
  fetchrow-update p f keeps j (r ∷ rs) = ground (arith, keeps r, fetchrow-update p f keeps j rs)

  -- An UPDATE of the row `k` leaves the other rows.
  pub fetchrow-update_ne :
      (p : Row → Bool) (f : Row → Row) (keeps : (r : Row) → key (f r) ≡ key r) (k j : ℕ)
      (only : (r : Row) → p r ≡ true → key r ≡ k) (rs : List Row)
      → j ≢ k
      → fetchrow (by_key j) (update_where p f rs) ≡ fetchrow (by_key j) rs
  fetchrow-update_ne p f keeps k j only [] h = refl
  fetchrow-update_ne p f keeps k j only (r ∷ rs) h =
      ground (arith, keeps r, only r, fetchrow-update_ne p f keeps k j only rs h)

  pub fetchrow_key : (k : ℕ) (rs : List Row) (r : Row) → fetchrow (by_key k) rs ≡ some r → key r ≡ k
  fetchrow_key k rs r h = (==_iff (key r) k).0 (fetchrow_holds (by_key k) rs r h)

  -- No row of the table has the key `k`.
  abbrev pub IsFresh : ℕ → List Row → Type 0
  IsFresh k rs = All (λ r. key r ≢ k) rs

  -- PRIMARY KEY: no two rows have one key.
  abbrev pub IsKeyed : List Row → Type 0
  IsKeyed [] = Unit
  IsKeyed (r ∷ rs) = IsFresh (key r) rs × IsKeyed rs

  fetchrow-fresh :
      (k : ℕ) (q : Row → Bool) (rs : List Row)
      → IsFresh k rs
      → fetchrow (λ r. by_key k r && q r) rs ≡ none
  fetchrow-fresh k q [] h = refl
  fetchrow-fresh k q (r ∷ rs) h = ground (arith, fetchrow-fresh k q rs h.1)

  -- With a primary key, a further condition tests the row of that key.
  pub fetchrow-and :
      (k : ℕ) (q : Row → Bool) (rs : List Row)
      → IsKeyed rs
      → fetchrow (λ r. by_key k r && q r) rs ≡ filter_row q (fetchrow (by_key k) rs)
  fetchrow-and k q [] h = refl
  fetchrow-and k q (r ∷ rs) h = elim (Bool-cases (key r == k)) [
    | inl here ↦
        let fresh : IsFresh k rs = subst (λ j. IsFresh j rs) ((==_iff (key r) k).0 here) h.0 in
        ground (arith, fetchrow-fresh k q rs fresh)
    | inr there ↦ ground (arith, fetchrow-and k q rs h.1)
  ]

  IsFresh-update :
      (k : ℕ) (p : Row → Bool) (f : Row → Row) (keeps : (r : Row) → key (f r) ≡ key r)
      (rs : List Row)
      → IsFresh k rs
      → IsFresh k (update_where p f rs)
  IsFresh-update k p f keeps [] h = tt
  IsFresh-update k p f keeps (r ∷ rs) h =
      (ground (arith, keeps r), IsFresh-update k p f keeps rs h.1)

  pub IsKeyed-update :
      (p : Row → Bool) (f : Row → Row) (keeps : (r : Row) → key (f r) ≡ key r) (rs : List Row)
      → IsKeyed rs
      → IsKeyed (update_where p f rs)
  IsKeyed-update p f keeps [] h = tt
  IsKeyed-update p f keeps (r ∷ rs) h =
      let e : key (if p r then f r else r) ≡ key r = ground (arith, keeps r) in
      (
        subst (λ j. IsFresh j (update_where p f rs)) (sym e)
            (IsFresh-update (key r) p f keeps rs h.0),
        IsKeyed-update p f keeps rs h.1,
      )

  pub IsFresh-insert :
      (k : ℕ) (new : Row) (rs : List Row) → key new ≢ k → IsFresh k rs → IsFresh k (insert new rs)
  IsFresh-insert k new [] h fresh = (h, tt)
  IsFresh-insert k new (r ∷ rs) h fresh = (fresh.0, IsFresh-insert k new rs h fresh.1)

  pub IsKeyed-insert :
      (new : Row) (rs : List Row) → IsFresh (key new) rs → IsKeyed rs → IsKeyed (insert new rs)
  IsKeyed-insert new [] fresh h = (tt, tt)
  IsKeyed-insert new (r ∷ rs) fresh h =
      (IsFresh-insert (key r) new rs (λ e. fresh.0 (sym e)) h.0, IsKeyed-insert new rs fresh.1 h.1)

  pub fetchrow-IsFresh : (k : ℕ) (rs : List Row) → IsFresh k rs → fetchrow (by_key k) rs ≡ none
  fetchrow-IsFresh k [] h = refl
  fetchrow-IsFresh k (r ∷ rs) h = ground (arith, fetchrow-IsFresh k rs h.1)
