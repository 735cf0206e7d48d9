-- ===== src/Mission/Costs/Totals.antt =====
-- Budgets in services/mission/cost_tracker.py.
use agent_os.Prelude.{
  ℕ, String, ◌≡◌, refl, sym, ap, ◌⊎◌, inl, inr, Bool, true, false, ◌||◌, Option, none, some, List,
  [], ◌∷◌, ◌==◌, ◌+◌, ◌≤◌, ◌∙◌, Bool-cases, arith, map,
}
use agent_os.Errors.{ok, err, budget_exceeded}
use agent_os.Sql.{select, insert}
use agent_os.Mission.Tables.{Budget, CostEvent, Database}
use agent_os.Mission.Costs.{
  sum, record_usage, totals, mission_totals, reached, is_unbounded, check_budget, new_event,
  UsageTotals,
}

-- The cost events of a mission, and what it has used.
abbrev pub used : ℕ → Database → UsageTotals
used mission_id db = totals (select (λ e. e.mission_id == mission_id) db.cost_events)

-- A limit that is set is reached.
abbrev pub IsSpent : ℕ → Budget → Database → Type 0
IsSpent mission_id budget db =
    (reached budget.max_cost (used mission_id db).estimated_cost
      || reached budget.max_tokens
          ((used mission_id db).prompt_tokens + (used mission_id db).completion_tokens))
    ≡ true

unbounded_is_unspent :
    (cost tokens : Option ℕ) (m n : ℕ)
    → is_unbounded (record { max_cost = cost; max_tokens = tokens }) ≡ true
    → (reached cost m || reached tokens n) ≡ false
unbounded_is_unspent none none m n h = refl
unbounded_is_unspent none (some t) m n h = cc
unbounded_is_unspent (some c) tokens m n h = cc

-- check_budget raises BudgetExceededError exactly if the sum of the mission's estimated costs has
-- reached max_cost or the sum of its tokens has reached max_tokens, where these are set; else it
-- returns; it never writes.
pub check_budget_lem :
    (mission_id : ℕ) (budget : Budget) (db : Database)
    → ((check_budget mission_id budget db ≡ (err budget_exceeded, db))
        × IsSpent mission_id budget db)
      ⊎ ((check_budget mission_id budget db ≡ (ok tt, db)) × ¬ IsSpent mission_id budget db)
unfolding check_budget mission_totals
check_budget_lem mission_id budget db = elim (Bool-cases (is_unbounded budget)) [
  | inl free ↦
      let calm =
        unbounded_is_unspent budget.max_cost budget.max_tokens (used mission_id db).estimated_cost
          ((used mission_id db).prompt_tokens + (used mission_id db).completion_tokens) free in
      inr (rw free refl, λ spent. cc)
  | inr bounded ↦ elim (Bool-cases (reached budget.max_cost (used mission_id db).estimated_cost)) [
    | inl cost ↦ inl (rw (bounded, cost) refl, rw cost refl)
    | inr cheap ↦
        elim (Bool-cases (
          reached budget.max_tokens
            ((used mission_id db).prompt_tokens + (used mission_id db).completion_tokens))) [
              | inl tokens ↦ inl (rw (bounded, cheap, tokens) refl, rw (cheap, tokens) refl)
              | inr few ↦ inr (
                rw (bounded, cheap, few) refl,
                λ spent.
                    let calm : (reached budget.max_cost (used mission_id db).estimated_cost
                          || reached budget.max_tokens (
                              (used mission_id db).prompt_tokens
                              + (used mission_id db).completion_tokens))
                        ≡ false =
                      rw (cheap, few) refl in
                    cc,
              )
            ]
  ]
]

sum_grows :
    (f : CostEvent → ℕ) (p : CostEvent → Bool) (es : List CostEvent) (new : CostEvent)
    → sum (map f (select p es)) ≤ sum (map f (select p (insert new es)))
sum_grows f p [] new = ground arith
sum_grows f p (e ∷ es) new = ground (arith, sum_grows f p es new)

reached_grows :
    (limit : Option ℕ) (m n : ℕ) → m ≤ n → reached limit m ≡ true → reached limit n ≡ true
reached_grows none m n h r = r
reached_grows (some limit) m n h r = ground (arith, h)

-- A call of record_usage.
pub record Usage : Type 0 where
  pub cost_event_id : ℕ
  pub now : ℕ
  pub mission_id : ℕ
  pub task_id : Option ℕ
  pub model : String
  pub prompt_tokens : ℕ
  pub completion_tokens : ℕ

abbrev pub after_usage : Usage → Database → Database
after_usage u db =
    (record_usage u.cost_event_id u.now u.mission_id u.task_id u.model u.prompt_tokens
      u.completion_tokens db).1

abbrev pub after_usages : List Usage → Database → Database
after_usages [] db = db
after_usages (u ∷ us) db = after_usages us (after_usage u db)

or_grows :
    (a b c d : Bool)
    → (a ≡ true → c ≡ true)
    → (b ≡ true → d ≡ true)
    → (a || b) ≡ true
    → (c || d) ≡ true
or_grows true b c d h k e = rw (h refl) refl
or_grows false true true d h k e = refl
or_grows false true false d h k e = k refl
or_grows false false c d h k e = cc

usage-IsSpent :
    (mission_id : ℕ) (budget : Budget) (u : Usage) (db : Database)
    → IsSpent mission_id budget db
    → IsSpent mission_id budget (after_usage u db)
unfolding record_usage
usage-IsSpent mission_id budget u db h =
    let new =
      new_event u.cost_event_id u.now u.mission_id u.task_id u.model u.prompt_tokens
        u.completion_tokens in
    let grows =
      λ (f : CostEvent → ℕ). sum_grows f (λ e. e.mission_id == mission_id) db.cost_events new in
    or_grows _ _ _ _ (reached_grows budget.max_cost _ _ (grows (λ e. e.estimated_cost)))
      (reached_grows budget.max_tokens _ _
        (omega (arith, grows (λ e. e.prompt_tokens), grows (λ e. e.completion_tokens))))
      h

usages-IsSpent :
    (mission_id : ℕ) (budget : Budget) (us : List Usage) (db : Database)
    → IsSpent mission_id budget db
    → IsSpent mission_id budget (after_usages us db)
usages-IsSpent mission_id budget [] db h = h
usages-IsSpent mission_id budget (u ∷ us) db h =
    usages-IsSpent mission_id budget us (after_usage u db) (usage-IsSpent mission_id budget u db h)

-- A budget that is spent stays spent: after any further usage of any missions, check_budget still
-- raises BudgetExceededError.
pub spent_stays :
    (mission_id : ℕ) (budget : Budget) (us : List Usage) (db : Database)
    → (check_budget mission_id budget db).0 ≡ err budget_exceeded
    → (check_budget mission_id budget (after_usages us db)).0 ≡ err budget_exceeded
spent_stays mission_id budget us db h = elim (check_budget_lem mission_id budget db) [
  | inl (e, spent) ↦ elim (check_budget_lem mission_id budget (after_usages us db)) [
    | inl (e2, spent2) ↦ ap (λ r. r.0) e2
    | inr (e2, left) ↦ absurd (left (usages-IsSpent mission_id budget us db spent))
  ]
  | inr (e, left) ↦ let clash : ok tt ≡ err budget_exceeded = sym (ap (λ r. r.0) e) ∙ h in cc
]
