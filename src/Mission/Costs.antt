-- ===== src/Mission/Costs.antt =====
-- services/mission/cost_tracker.py: what a mission has used, and its budget. Money is counted in
-- millionths of a dollar.
pub mod Totals
pub mod Samples
use agent_os.Prelude.{
  ℕ, suc, String, Bool, true, false, not, ◌&&◌, Option, none, some, List, [], ◌∷◌, leb, ◌==◌,
  if◌then◌else◌, ◌+◌, ◌*◌, ◌/◌, ◌%◌, map,
}
use agent_os.Errors.{Error, Result, ok, err}
use agent_os.Exec.{Exec, pure, gets, modify, require, ◌>>=◌, ◌>>◌}
use agent_os.Sql.{select, insert}
use agent_os.Mission.Tables.{Budget, CostEvent, Database}

-- SUM(…), 0 for no rows
abbrev pub sum : List ℕ → ℕ
sum [] = 0
sum (n ∷ ns) = n + sum ns

-- COUNT(*)
abbrev pub count : {A : Type 0} → List A → ℕ
count [] = 0
count (x ∷ xs) = suc (count xs)

-- round((total / 1000) * 0.003, 6): three millionths of a dollar for each token. The rate is the
-- `default` one for every model, the only one that _APPROX_COST_PER_1K_TOKENS has.
abbrev pub estimated : ℕ → ℕ
estimated total = total * 3

abbrev pub new_event :
    (cost_event_id now mission_id : ℕ)
    → Option ℕ
    → (model : String) → (prompt_tokens completion_tokens : ℕ) → CostEvent
new_event cost_event_id now mission_id task_id model prompt_tokens completion_tokens = record {
  cost_event_id = cost_event_id;
  mission_id = mission_id;
  task_id = task_id;
  model = model;
  prompt_tokens = prompt_tokens;
  completion_tokens = completion_tokens;
  estimated_cost = estimated (prompt_tokens + completion_tokens);
  created_at = now;
}

-- `cost_event_id` is the uuid4 that the call draws.
unfoldable pub record_usage :
    (cost_event_id now mission_id : ℕ)
    → Option ℕ
    → (model : String) → (prompt_tokens completion_tokens : ℕ) → Exec Database (ℕ × ℕ)
record_usage cost_event_id now mission_id task_id model prompt_tokens completion_tokens = do
  modify (λ db. record db {
    cost_events =
        insert
          (new_event cost_event_id now mission_id task_id model prompt_tokens completion_tokens)
          db.cost_events;
  })
  pure (cost_event_id, estimated (prompt_tokens + completion_tokens))

pub record UsageTotals : Type 0 where
  pub prompt_tokens : ℕ
  pub completion_tokens : ℕ
  pub estimated_cost : ℕ
  pub model_calls : ℕ

abbrev pub totals : List CostEvent → UsageTotals
totals events = record {
  prompt_tokens = sum (map (λ e. e.prompt_tokens) events);
  completion_tokens = sum (map (λ e. e.completion_tokens) events);
  estimated_cost = sum (map (λ e. e.estimated_cost) events);
  model_calls = count events;
}

unfoldable pub mission_totals : ℕ → Exec Database UsageTotals
mission_totals mission_id =
    gets (λ db. totals (select (λ e. e.mission_id == mission_id) db.cost_events))

-- a limit that is set and reached
abbrev pub reached : Option ℕ → ℕ → Bool
reached none used = false
reached (some limit) used = leb limit used

abbrev pub is_unbounded : Budget → Bool
is_unbounded budget = no_limit budget.max_cost && no_limit budget.max_tokens
  where
    no_limit : Option ℕ → Bool
    no_limit none = true
    no_limit (some limit) = false

unfoldable pub check_budget : ℕ → Budget → Exec Database (Unit {0})
check_budget mission_id budget = if is_unbounded budget then pure tt else (do
  used ← mission_totals mission_id
  require (not (reached budget.max_cost used.estimated_cost)) Error.budget_exceeded
  require (not (reached budget.max_tokens (used.prompt_tokens + used.completion_tokens)))
      Error.budget_exceeded)
