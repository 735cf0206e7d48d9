-- ===== src/Mission/Strategy/Samples.antt =====
-- Runs of services/mission/strategy.py, and its theorems at them.
use agent_os.Prelude.{◌≡◌, refl, inl, inr, true, false, none, some, [], ◌∷◌, ◌==◌, Bool-cases}
use agent_os.Errors.{ok}
use agent_os.Json.{json_eq, fields_in}
use agent_os.Mission.Tables.{Strategy, Database}
use agent_os.Mission.Strategy.{
  latest, get_current_strategy, is_unchanged, new_strategy, record_strategy,
}
use agent_os.Mission.Strategy.Templates.{templates, next_template}
use agent_os.Mission.Strategy.Versions.{IsNumbered, record_strategy-IsNumbered}

program : Unit {0}
unfolding json_eq fields_in latest get_current_strategy is_unchanged record_strategy templates
    next_template
program = tt

abbrev first : Strategy
first = new_strategy 1 5 7 "401" (next_template "browser_failure" 0) none

abbrev second : Strategy
second = new_strategy 2 6 7 "401" (next_template "browser_failure" 2) (some first)

abbrev tried : Database
tried = record {
  missions = [];
  tasks = [];
  evidence = [];
  strategies = first ∷ second ∷ [];
  decisions = [];
  cost_events = [];
}

other_template_is_recorded :
    (record_strategy 3 9 7 "crash" (next_template "browser_failure" 1) true tried).0 ≡ ok (3, 3)
unfolding program
other_template_is_recorded = refl

generic_templates_differ : json_eq (next_template "timeout" 1) (next_template "timeout" 2) ≡ false
unfolding program
generic_templates_differ = refl

tried-IsNumbered : IsNumbered tried
tried-IsNumbered task_id = elim (Bool-cases (7 == task_id)) [
  | inl same ↦ rw same (refl, refl, (refl, refl, tt))
  | inr other ↦ rw other tt
]

record_strategy-IsNumbered_example :
    IsNumbered (record_strategy 3 9 7 "crash" (next_template "browser_failure" 1) true tried).1
record_strategy-IsNumbered_example =
    record_strategy-IsNumbered 3 9 7 "crash" (next_template "browser_failure" 1) true tried
      tried-IsNumbered
