-- ===== src/Mission/Costs/Samples.antt =====
-- Runs of services/mission/cost_tracker.py, and its theorems at them.
use agent_os.Prelude.{◌≡◌, refl, none, some, List, [], ◌∷◌}
use agent_os.Errors.{ok, err, budget_exceeded}
use agent_os.Mission.Tables.{Budget, Database}
use agent_os.Mission.Costs.{record_usage, mission_totals, new_event, check_budget}
use agent_os.Mission.Costs.Totals.{Usage}

program : Unit {0}
unfolding record_usage mission_totals check_budget
program = tt

abbrev ledger : Database
ledger = record {
  missions = [];
  tasks = [];
  evidence = [];
  strategies = [];
  decisions = [];
  cost_events = new_event 1 5 2 none "small" 900 100 ∷ new_event 2 6 3 none "small" 5000 0 ∷ [];
}

-- At most $0.003, and no limit on tokens.
abbrev tight : Budget
tight = record { max_cost = some 3000; max_tokens = none }

abbrev wide : Budget
wide = record { max_cost = some 3001; max_tokens = some 1001 }

tight_raises : (check_budget 2 tight ledger).0 ≡ err budget_exceeded
unfolding program
tight_raises = refl

wide_returns : (check_budget 2 wide ledger).0 ≡ ok tt
unfolding program
wide_returns = refl

abbrev later : List Usage
later =
    record {
      cost_event_id = 3;
      now = 9;
      mission_id = 2;
      task_id = some 4;
      model = "large";
      prompt_tokens = 10;
      completion_tokens = 20;
    }
    ∷ []
