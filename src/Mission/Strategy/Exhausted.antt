-- ===== src/Mission/Strategy/Exhausted.antt =====
-- A required change of strategy in services/mission/strategy.py once the templates are used up.
use agent_os.Prelude.{
  ℕ, suc, zero, String, ◌≡◌, refl, sym, subst, inl, inr, true, List, [], ◌∷◌, str_eq, length, ◌≤◌,
  All, some, Bool-cases, arith,
}
use agent_os.Errors.{err, strategy_not_changed}
use agent_os.Sql.{select}
use agent_os.Json.{Json, json_eq, fields_in}
use agent_os.Mission.Tables.{Strategy, Database}
use agent_os.Mission.Strategy.{of_task, latest, get_current_strategy, is_unchanged, record_strategy}
use agent_os.Mission.Strategy.Templates.{
  templates, element, pick, next_template, next_template_repeats,
}

abbrev EqualsItself : Json → Type 0
EqualsItself j = json_eq j j ≡ true

each_EqualsItself : (category : String) → All EqualsItself (templates category)
unfolding templates json_eq fields_in
each_EqualsItself category = elim (Bool-cases (str_eq category "authentication_failure")) [
  | inl hit ↦ rw hit (refl, (refl, tt))
  | inr miss ↦ elim (Bool-cases (str_eq category "browser_failure")) [
    | inl hit ↦ rw (miss, hit) (refl, (refl, (refl, tt)))
    | inr miss2 ↦ elim (Bool-cases (str_eq category "missing_information")) [
      | inl hit ↦ rw (miss, miss2, hit) (refl, (refl, tt))
      | inr miss3 ↦ elim (Bool-cases (str_eq category "code_failure")) [
        | inl hit ↦ rw (miss, miss2, miss3, hit) (refl, (refl, tt))
        | inr miss4 ↦ rw (miss, miss2, miss3, miss4) tt
      ]
    ]
  ]
]

element_holds :
    (P : Json → Type 0) (ts : List Json) (last : Json) (n : ℕ)
    → All P ts
    → P last
    → P (element ts last n)
element_holds P [] last n h k = k
element_holds P (t ∷ ts) last zero h k = h.0
element_holds P (t ∷ ts) last (suc n) h k = element_holds P ts t n h.1 h.0

pick-EqualsItself :
    (ts : List Json) (n : ℕ) → All EqualsItself ts → 1 ≤ length ts → EqualsItself (pick ts n)
pick-EqualsItself [] n h one = absurd (omega (arith, one))
pick-EqualsItself (t ∷ ts) n h one = element_holds EqualsItself (t ∷ ts) t n h h.0

-- If the current strategy of a task is the template of its failure category for an attempt from
-- the last template on, recording the template for another such attempt as a required change
-- raises StrategyNotChangedError and writes nothing.
pub repeated_template_raises :
    (category : String) (m n id now task : ℕ) (reason : String) (db : Database)
    (previous : Strategy)
    → 1 ≤ length (templates category)
    → length (templates category) ≤ suc m
    → length (templates category) ≤ suc n
    → latest (select (of_task task) db.strategies) ≡ some previous
    → previous.parameters ≡ next_template category m
    → record_strategy id now task reason (next_template category n) true db
      ≡ (err strategy_not_changed, db)
unfolding record_strategy get_current_strategy is_unchanged next_template
repeated_template_raises category m n id now task reason db previous one h k found same =
    let repeated : json_eq previous.parameters (next_template category n) ≡ true =
      subst (λ p. json_eq p (next_template category n) ≡ true) (sym same)
        (subst (λ p. json_eq p (next_template category n) ≡ true)
          (next_template_repeats category n m one k h)
          (pick-EqualsItself (templates category) n (each_EqualsItself category) one)) in
    rw (found, repeated) refl
