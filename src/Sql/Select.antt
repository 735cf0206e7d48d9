-- ===== src/Sql/Select.antt =====
-- Laws of SELECT … WHERE and of `fetchrow` by membership.
use agent_os.Prelude.{
  ◌≡◌, refl, inl, inr, Bool, true, false, some, List, [], ◌∷◌, arith, In, Bool-cases, if◌then◌else◌,
  subst, sym,
}
use agent_os.Sql.{select, fetchrow}

module _ {Row : Type 0} (p : Row → Bool) where
  pub In-select : (r : Row) (rs : List Row) → In r (select p rs) → In r rs × (p r ≡ true)
  In-select r [] h = elim h [ ]
  In-select r (x ∷ rs) h = split (In-select r rs) (p x) refl
    where
      later : In r rs × (p r ≡ true) → In r (x ∷ rs) × (p r ≡ true)
      later (there, holds) = (inr there, holds)

      split :
          (In r (select p rs) → In r rs × (p r ≡ true))
          → (b : Bool) → p x ≡ b
          → In r (x ∷ rs) × (p r ≡ true)
      split rest true e =
          elim (subst (λ c. In r (if c then x ∷ select p rs else select p rs)) e h) [
            | inl here ↦ (inl here, subst (λ y. p y ≡ true) here e)
            | inr there ↦ later (rest there)
          ]
      split rest false e =
          later (rest (subst (λ c. In r (if c then x ∷ select p rs else select p rs)) e h))

  pub select-In : (r : Row) (rs : List Row) → In r rs → p r ≡ true → In r (select p rs)
  select-In r [] h holds = elim h [ ]
  select-In r (x ∷ rs) (inl here) holds = rw (subst (λ y. p y ≡ true) (sym here) holds) (inl here)
  select-In r (x ∷ rs) (inr there) holds = elim (Bool-cases (p x)) [
    | inl e ↦ rw e (inr (select-In r rs there holds))
    | inr e ↦ rw e (select-In r rs there holds)
  ]

  pub fetchrow-In : (r : Row) (rs : List Row) → fetchrow p rs ≡ some r → In r rs
  fetchrow-In r [] h = cc
  fetchrow-In r (x ∷ rs) h = elim (Bool-cases (p x)) [
    | inl e ↦ inl (ground arith)
    | inr e ↦ inr (fetchrow-In r rs (ground arith))
  ]
