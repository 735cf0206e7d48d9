-- ===== src/Mission/Strategy.antt =====
-- services/mission/strategy.py: the versions of a task's strategy.
pub mod Templates
pub mod Versions
pub mod Exhausted
pub mod Samples
use agent_os.Prelude.{
  ℕ, suc, zero, String, Bool, true, false, not, ◌&&◌, Option, none, some, List, [], ◌∷◌, str_eq,
  ◌==◌, ltb, if◌then◌else◌, length, get_elem?, ◌+◌, ◌-◌,
}
use agent_os.Errors.{Error, Result, ok, err}
use agent_os.Exec.{Exec, pure, gets, modify, require, ◌>>=◌, ◌>>◌}
use agent_os.Sql.{select, insert}
use agent_os.Json.{Json, json_eq}
use agent_os.Mission.Tables.{Strategy, Database}

abbrev pub of_task : ℕ → Strategy → Bool
of_task task_id s = s.task_id == task_id

abbrev newer : Strategy → Option Strategy → Strategy
newer s none = s
newer s (some best) = if ltb s.version best.version then best else s

-- ORDER BY version DESC LIMIT 1
unfoldable pub latest : List Strategy → Option Strategy
latest [] = none
latest (s ∷ rest) = some (newer s (latest rest))

unfoldable pub get_current_strategy : ℕ → Exec Database (Option Strategy)
get_current_strategy task_id = gets (λ db. latest (select (of_task task_id) db.strategies))

-- prev_params == parameters, for a previous strategy
unfoldable pub is_unchanged : Option Strategy → Json → Bool
is_unchanged none parameters = false
is_unchanged (some previous) parameters = json_eq previous.parameters parameters

abbrev pub next_version : Option Strategy → ℕ
next_version none = 1
next_version (some previous) = previous.version + 1

abbrev pub id_of : Option Strategy → Option ℕ
id_of none = none
id_of (some previous) = some previous.strategy_id

abbrev pub new_strategy :
    (strategy_id now task_id : ℕ) (reason : String) (parameters : Json) → Option Strategy → Strategy
new_strategy strategy_id now task_id reason parameters previous = record {
  strategy_id = strategy_id;
  task_id = task_id;
  version = next_version previous;
  reason = reason;
  parameters = parameters;
  previous_strategy_id = id_of previous;
  created_at = now;
}

-- `strategy_id` is the uuid4 that the call draws; the result is the version.
unfoldable pub record_strategy :
    (strategy_id now task_id : ℕ) (reason : String) (parameters : Json) (require_change : Bool)
    → Exec Database (ℕ × ℕ)
record_strategy strategy_id now task_id reason parameters require_change = do
  previous ← get_current_strategy task_id
  require (not (require_change && is_unchanged previous parameters)) Error.strategy_not_changed
  modify (λ db. record db {
    strategies =
        insert (new_strategy strategy_id now task_id reason parameters previous) db.strategies;
  })
  pure (strategy_id, next_version previous)
