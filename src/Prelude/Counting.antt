-- ===== src/Prelude/Counting.antt =====
-- How often an identifier stands in a list.
use agent_os.Prelude.{
  ℕ, suc, ◌≡◌, refl, ap, inl, inr, Bool, true, List, [], ◌∷◌, ◌++◌, ◌+◌, ◌≤◌, ◌==◌, ==_iff, arith,
  if◌then◌else◌, Bool-cases, In, length, occurrences,
}
use agent_os.Prelude.Sorting.{place, sort}

pub occurrences-append :
    (n : ℕ) (xs ys : List ℕ) → occurrences n (xs ++ ys) ≡ occurrences n xs + occurrences n ys
occurrences-append n [] ys = omega arith
occurrences-append n (x ∷ xs) ys = omega (arith, occurrences-append n xs ys)

occurrences-place :
    (le : ℕ → ℕ → Bool) (n a : ℕ) (xs : List ℕ)
    → occurrences n (place le a xs) ≡ occurrences n (a ∷ xs)
occurrences-place le n a [] = refl
occurrences-place le n a (x ∷ xs) = elim (Bool-cases (le a x)) [
  | inl first ↦ rw first refl
  | inr later ↦ rw later (omega (arith, occurrences-place le n a xs))
]

pub occurrences-sort :
    (le : ℕ → ℕ → Bool) (n : ℕ) (xs : List ℕ) → occurrences n (sort le xs) ≡ occurrences n xs
occurrences-sort le n [] = refl
occurrences-sort le n (x ∷ xs) =
    omega (arith, occurrences-place le n x (sort le xs), occurrences-sort le n xs)

pub In-occurrences : (n : ℕ) (xs : List ℕ) → In n xs → 1 ≤ occurrences n xs
In-occurrences n [] h = elim h [ ]
In-occurrences n (x ∷ xs) (inl e) = rw ((==_iff x n).1 e) (omega arith)
In-occurrences n (x ∷ xs) (inr there) = omega (arith, In-occurrences n xs there)

pub occurrences-In : (n : ℕ) (xs : List ℕ) → 1 ≤ occurrences n xs → In n xs
occurrences-In n [] h = absurd (omega arith)
occurrences-In n (x ∷ xs) h = elim (Bool-cases (x == n)) [
  | inl e ↦ inl ((==_iff x n).0 e)
  | inr other ↦ inr (occurrences-In n xs (ground arith))
]

-- xs without its first n
abbrev without : ℕ → List ℕ → List ℕ
without n [] = []
without n (x ∷ xs) = let rest = without n xs in if x == n then xs else x ∷ rest

length-without :
    (n : ℕ) (xs : List ℕ) → 1 ≤ occurrences n xs → suc (length (without n xs)) ≡ length xs
length-without n [] h = absurd (omega arith)
length-without n (x ∷ xs) h = elim (Bool-cases (x == n)) [
  | inl e ↦ rw e refl
  | inr other ↦ rw other (ap suc (length-without n xs (ground arith)))
]

occurrences-without :
    (n m : ℕ) (xs : List ℕ)
    → occurrences m xs ≤ (if n == m then 1 else 0) + occurrences m (without n xs)
occurrences-without n m [] = omega arith
occurrences-without n m (x ∷ xs) = elim (Bool-cases (x == n)) [
  | inl e ↦ rw (e, (==_iff x n).0 e) (omega arith)
  | inr other ↦ rw other (omega (arith, occurrences-without n m xs))
]

-- A list in which nothing stands more often is no longer.
pub length-occurrences :
    (xs ys : List ℕ) → ((n : ℕ) → occurrences n xs ≤ occurrences n ys) → length xs ≤ length ys
length-occurrences [] ys h = omega arith
length-occurrences (x ∷ xs) ys h =
    let here : (x == x) ≡ true = (==_iff x x).1 refl in
    let there : 1 ≤ occurrences x ys = ground (arith, h x, here) in
    let shorter : (n : ℕ) → occurrences n xs ≤ occurrences n (without x ys) =
      λ n. omega (arith, h n, occurrences-without x n ys) in
    omega (arith, length-without x ys there, length-occurrences xs (without x ys) shorter)
