-- ===== src/Prelude/Sorting.antt =====
-- A stable sort by a Boolean order: Python's list.sort, and ORDER BY.
use mathlib.Core.Path.{◌≡◌, refl, subst}
use mathlib.Core.Logic.{◌⊎◌, inl, inr}
use mathlib.Core.Bool.{Bool, true, false}
use mathlib.Core.List.{List, [], ◌∷◌, Perm}
use mathlib.Core.List.Perm
use agent_os.Prelude.Tests.{if◌then◌else◌, Bool-cases}
use agent_os.Prelude.Lists.{All, In}

module _ {A : Type 0} (le : A → A → Bool) where
  abbrev pub place : A → List A → List A
  place a [] = a ∷ []
  place a (x ∷ xs) = let rest = place a xs in if le a x then a ∷ x ∷ xs else x ∷ rest

  abbrev pub sort : List A → List A
  sort [] = []
  sort (x ∷ xs) = place x (sort xs)

  abbrev pub IsSorted : List A → Type 0
  IsSorted [] = Unit
  IsSorted (x ∷ xs) = All (λ y. le x y ≡ true) xs × IsSorted xs

  place-perm : (a : A) (xs : List A) → Perm (place a xs) (a ∷ xs)
  place-perm a [] = Perm.refl (a ∷ [])
  place-perm a (x ∷ xs) = elim (Bool-cases (le a x)) [
    | inl first ↦ rw first (Perm.refl (a ∷ x ∷ xs))
    | inr later ↦ rw later (Perm.trans (Perm.cons x (place-perm a xs)) (Perm.swap a x xs))
  ]

  pub sort-perm : (xs : List A) → Perm (sort xs) xs
  sort-perm [] = Perm.refl []
  sort-perm (x ∷ xs) = Perm.trans (place-perm x (sort xs)) (Perm.cons x (sort-perm xs))

  In-place : (r a : A) (xs : List A) → In r (place a xs) → (a ≡ r) ⊎ In r xs
  In-place r a [] h = h
  In-place r a (x ∷ xs) h = split (In-place r a xs) (le a x) refl
    where
      swap : (x ≡ r) ⊎ ((a ≡ r) ⊎ In r xs) → (a ≡ r) ⊎ ((x ≡ r) ⊎ In r xs)
      swap (inl e) = inr (inl e)
      swap (inr (inl e)) = inl e
      swap (inr (inr k)) = inr (inr k)

      under :
          (In r (place a xs) → (a ≡ r) ⊎ In r xs)
          → In r (x ∷ place a xs)
          → (x ≡ r) ⊎ ((a ≡ r) ⊎ In r xs)
      under rest (inl e) = inl e
      under rest (inr k) = inr (rest k)

      split :
          (In r (place a xs) → (a ≡ r) ⊎ In r xs)
          → (b : Bool) → le a x ≡ b
          → (a ≡ r) ⊎ In r (x ∷ xs)
      split rest true e = subst (λ c. In r (if c then a ∷ x ∷ xs else x ∷ place a xs)) e h
      split rest false e =
          swap (under rest (subst (λ c. In r (if c then a ∷ x ∷ xs else x ∷ place a xs)) e h))

  place-In : (r a : A) (xs : List A) → (a ≡ r) ⊎ In r xs → In r (place a xs)
  place-In r a [] h = h
  place-In r a (x ∷ xs) h = elim (Bool-cases (le a x)) [
    | inl first ↦ rw first h
    | inr later ↦ rw later (go (place-In r a xs) h)
  ]
    where
      go :
          ((a ≡ r) ⊎ In r xs → In r (place a xs))
          → (a ≡ r) ⊎ ((x ≡ r) ⊎ In r xs)
          → (x ≡ r) ⊎ In r (place a xs)
      go rest (inl e) = inr (rest (inl e))
      go rest (inr (inl e)) = inl e
      go rest (inr (inr k)) = inr (rest (inr k))

  pub In-sort : (r : A) (xs : List A) → In r (sort xs) → In r xs
  In-sort r [] h = h
  In-sort r (x ∷ xs) h = elim (In-place r x (sort xs) h) [
    | inl e ↦ inl e
    | inr k ↦ inr (In-sort r xs k)
  ]

  pub sort-In : (r : A) (xs : List A) → In r xs → In r (sort xs)
  sort-In r [] h = h
  sort-In r (x ∷ xs) (inl e) = place-In r x (sort xs) (inl e)
  sort-In r (x ∷ xs) (inr k) = place-In r x (sort xs) (inr (sort-In r xs k))

  module _ (total : (a b : A) → le a b ≡ false → le b a ≡ true)
      (trans : (a b c : A) → le a b ≡ true → le b c ≡ true → le a c ≡ true) where
    All-trans :
        (a x : A) (xs : List A)
        → le a x ≡ true
        → All (λ y. le x y ≡ true) xs
        → All (λ y. le a y ≡ true) xs
    All-trans a x [] h k = tt
    All-trans a x (y ∷ ys) h k = (trans a x y h k.0, All-trans a x ys h k.1)

    All-place : (P : A → Type 0) (a : A) (xs : List A) → P a → All P xs → All P (place a xs)
    All-place P a [] h k = (h, tt)
    All-place P a (x ∷ xs) h k = elim (Bool-cases (le a x)) [
      | inl first ↦ rw first (h, k)
      | inr later ↦ rw later (k.0, All-place P a xs h k.1)
    ]

    IsSorted-place : (a : A) (xs : List A) → IsSorted xs → IsSorted (place a xs)
    IsSorted-place a [] h = (tt, tt)
    IsSorted-place a (x ∷ xs) h = elim (Bool-cases (le a x)) [
      | inl first ↦ rw first ((first, All-trans a x xs first h.0), h)
      | inr later ↦
          rw later
            (All-place (λ y. le x y ≡ true) a xs (total a x later) h.0, IsSorted-place a xs h.1)
    ]

    pub IsSorted-sort : (xs : List A) → IsSorted (sort xs)
    IsSorted-sort [] = tt
    IsSorted-sort (x ∷ xs) = IsSorted-place x (sort xs) (IsSorted-sort xs)
