-- ===== src/Mission/Control/Samples.antt =====
-- Runs of services/mission/control.py on two missions, and its theorems at them.
use agent_os.Prelude.{ℕ, ◌≡◌, refl, none, some, List, [], ◌∷◌}
use agent_os.Json.{obj, end}
use agent_os.Mission.Tables.{Mission, Budget, Database}
use agent_os.Mission.Tables.Status.{
  MissionStatus, created, analyzing, planning, executing, verifying, blocked, completed,
  same_mission,
}
use agent_os.Mission.Control.{
  may_transition, parse_status, get_mission, check_transition, compare_and_set, transition,
  transition_if_current, is_active, comes_first, list_active,
}
use agent_os.Mission.Control.Transitions.{mission_row}
use agent_os.Mission.Control.Interleaving.{
  System, idle, Steps, stay, next, check, write, IsSound, Advanced, mission_advances,
  mission_terminal_forever, if_current,
}

abbrev pub unlimited : Budget
unlimited = record { max_cost = none; max_tokens = none }

abbrev pub mission : ℕ → ℕ → MissionStatus → Mission
mission mission_id priority status = record {
  mission_id = mission_id;
  user_goal = "launch the site";
  objective = none;
  constraints = obj end;
  success_criteria = "the site answers" ∷ [];
  budget = unlimited;
  deadline = none;
  priority = priority;
  current_phase = "";
  status = status;
  retry_count = 0;
  max_retries = 3;
  final_verification = none;
  created_at = 1;
  updated_at = 1;
}

abbrev pub database : List Mission → Database
database missions = record {
  missions = missions;
  tasks = [];
  evidence = [];
  strategies = [];
  decisions = [];
  cost_events = [];
}

abbrev two : Database
two = database (mission 1 5 executing ∷ mission 2 7 completed ∷ [])

program : Unit {0}
unfolding transition transition_if_current check_transition get_mission compare_and_set parse_status
    may_transition same_mission is_active comes_first list_active
program = tt

abbrev quiet : Database → System
quiet db = record { db = db; pc = λ _. idle }

quiet-IsSound : (db : Database) → IsSound (quiet db)
quiet-IsSound db = record { at = λ i m c n e. cc }

-- Two orchestrators check transitions of one mission, and both go on to write.
race :
    (t : System) × Steps (quiet two) t
    × (mission_row 1 t.db
        ≡ some (record (mission 1 5 executing) {
          status = verifying;
          current_phase = "VERIFYING";
          updated_at = 8;
        }))
unfolding program
race =
    let both : Steps (quiet two) _ =
      next (next stay (check 0 1 "VERIFYING" executing verifying refl))
        (check 1 1 "BLOCKED" executing blocked refl) in
    (
      _,
      next (next both (write 0 none 8 1 executing verifying refl))
          (write 1 none 9 1 executing blocked refl),
      refl,
    )

mission_advances_example : Advanced 1 (mission 1 5 executing) race.0.db
mission_advances_example =
    mission_advances 1 (mission 1 5 executing) race.1 (quiet-IsSound two) refl

mission_terminal_forever_example :
    (m' : Mission) × (mission_row 2 race.0.db ≡ some m') × (m'.status ≡ completed)
unfolding program
mission_terminal_forever_example =
    mission_terminal_forever 2 (mission 2 7 completed) race.1 (quiet-IsSound two) refl refl

abbrev fresh_mission : Database
fresh_mission = database (mission 1 5 created ∷ [])

-- One mission from CREATED to COMPLETED.
journey :
    (t : System) × Steps (quiet fresh_mission) t
    × ((m' : Mission) × (mission_row 1 t.db ≡ some m') × (m'.status ≡ completed))
unfolding program
journey = (
  _,
  next
      (next
        (next
          (next (next stay (if_current 1 created "ANALYZING" none 2))
            (if_current 1 analyzing "PLANNING" none 3))
          (if_current 1 planning "EXECUTING" none 4))
        (if_current 1 executing "VERIFYING" none 5))
      (if_current 1 verifying "COMPLETED" none 6),
  (_, refl, refl),
)
