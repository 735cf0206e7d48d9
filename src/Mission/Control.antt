-- ===== src/Mission/Control.antt =====
-- services/mission/control.py: the mission state machine over the `missions` table.
pub mod Transitions
pub mod Interleaving
pub mod Journey
pub mod Listing
mod Samples
use agent_os.Prelude.{
  ℕ, suc, String, Bool, true, false, not, ◌&&◌, ◌||◌, Option, none, some, List, [], ◌∷◌, str_eq,
  ◌==◌, ◌+◌, if◌then◌else◌, ltb, leb,
}
use agent_os.Prelude.Sorting.{sort}
use agent_os.Errors.{Error, Result, ok, err}
use agent_os.Exec.{Exec, pure, raise, lift, gets, modify, require, ◌>>=◌, ◌>>◌}
use agent_os.Sql.{select, fetchrow, update_where, insert}
use agent_os.Sql.Keyed.{by_key}
use agent_os.Json.{Json}
use agent_os.Mission.Tables.{Mission, Budget, Database}
use agent_os.Mission.Tables.Status.{
  MissionStatus, created, analyzing, planning, executing, verifying, blocked, retrying,
  waiting_approval, completed, failed, cancelled, same_mission, mission_in,
}

-- the text of a status, and VALID_STATUSES as the texts that name one
abbrev pub status_text : MissionStatus → String
status_text created = "CREATED"
status_text analyzing = "ANALYZING"
status_text planning = "PLANNING"
status_text executing = "EXECUTING"
status_text verifying = "VERIFYING"
status_text blocked = "BLOCKED"
status_text retrying = "RETRYING"
status_text waiting_approval = "WAITING_APPROVAL"
status_text completed = "COMPLETED"
status_text failed = "FAILED"
status_text cancelled = "CANCELLED"

abbrev pub valid_statuses : List MissionStatus
valid_statuses =
    created ∷ analyzing ∷ planning ∷ executing ∷ verifying ∷ blocked ∷ retrying ∷ waiting_approval
    ∷ completed ∷ failed ∷ cancelled ∷ []

find_status : String → List MissionStatus → Option MissionStatus
find_status text [] = none
find_status text (s ∷ ss) = if str_eq (status_text s) text then some s else find_status text ss

-- `new_status not in VALID_STATUSES` raises a ValueError
pub parse_status : String → Result MissionStatus
unfolding find_status
parse_status text = elim (find_status text valid_statuses) [
  | none ↦ err Error.value_error
  | some s ↦ ok s
]

unfoldable pub allowed_transitions : MissionStatus → List MissionStatus
allowed_transitions created = analyzing ∷ cancelled ∷ []
allowed_transitions analyzing = planning ∷ blocked ∷ failed ∷ cancelled ∷ []
allowed_transitions planning = executing ∷ blocked ∷ failed ∷ cancelled ∷ []
allowed_transitions executing =
    verifying ∷ blocked ∷ retrying ∷ waiting_approval ∷ failed ∷ cancelled ∷ []
allowed_transitions verifying = completed ∷ executing ∷ failed ∷ blocked ∷ []
allowed_transitions blocked = executing ∷ planning ∷ failed ∷ cancelled ∷ []
allowed_transitions retrying = executing ∷ failed ∷ blocked ∷ []
allowed_transitions waiting_approval = executing ∷ cancelled ∷ failed ∷ []
allowed_transitions completed = []
allowed_transitions failed = []
allowed_transitions cancelled = []

-- the guard of both transition methods
unfoldable pub may_transition : MissionStatus → MissionStatus → Bool
unfolding allowed_transitions same_mission
may_transition current new =
    mission_in new (allowed_transitions current) || same_mission new current

-- phase or new_status: None and "" are both false in Python
abbrev pub phase_or : Option String → MissionStatus → String
phase_or none new = status_text new
phase_or (some text) new = if str_eq text "" then status_text new else text

abbrev pub set_status : MissionStatus → Option String → ℕ → Mission → Mission
set_status new phase now m = record m {
  status = new;
  current_phase = phase_or phase new;
  updated_at = now;
}

abbrev pub by_mission : ℕ → Mission → Bool
by_mission = by_key (λ m. m.mission_id)

-- The arguments of create_mission. `mission_id` is the uuid4 that the call draws.
pub record NewMission : Type 0 where
  pub user_goal : String
  pub objective : Option String
  pub constraints : Json
  pub success_criteria : List String
  pub budget : Budget
  pub deadline : Option ℕ
  pub priority : ℕ
  pub max_retries : ℕ

abbrev is_empty : List String → Bool
is_empty [] = true
is_empty (c ∷ cs) = false

abbrev new_mission : ℕ → ℕ → NewMission → Mission
new_mission mission_id now a = record {
  mission_id = mission_id;
  user_goal = a.user_goal;
  objective = a.objective;
  constraints = a.constraints;
  success_criteria = a.success_criteria;
  budget = a.budget;
  deadline = a.deadline;
  priority = a.priority;
  current_phase = "CREATED";
  status = created;
  retry_count = 0;
  max_retries = a.max_retries;
  final_verification = none;
  created_at = now;
  updated_at = now;
}

pub create_mission : (mission_id now : ℕ) → NewMission → Exec Database ℕ
create_mission mission_id now a = do
  require (not (is_empty a.success_criteria)) Error.value_error
  modify (λ db. record db { missions = insert (new_mission mission_id now a) db.missions })
  pure mission_id

unfoldable pub get_mission : ℕ → Exec Database (Option Mission)
get_mission mission_id = gets (λ db. fetchrow (by_mission mission_id) db.missions)

-- UPDATE missions … WHERE mission_id = $4 AND status = $5 RETURNING mission_id
abbrev pub has_row : Option Mission → Bool
has_row none = false
has_row (some m) = true

unfoldable pub compare_and_set :
    (mission_id : ℕ) → MissionStatus → MissionStatus → Option String → ℕ → Exec Database Bool
compare_and_set mission_id expected new phase now db =
    let hit = λ (m : Mission). by_mission mission_id m && same_mission m.status expected in
    (
      ok (has_row (fetchrow hit db.missions)),
      record db { missions = update_where hit (set_status new phase now) db.missions },
    )

abbrev or_lookup_error : Option Mission → Result Mission
or_lookup_error none = err Error.lookup_error
or_lookup_error (some m) = ok m

-- What transition does before its UPDATE: the status it read, and the one to write.
unfoldable pub check_transition : ℕ → String → Exec Database (MissionStatus × MissionStatus)
check_transition mission_id new_status = do
  new ← lift (parse_status new_status)
  row ← get_mission mission_id
  mission ← lift (or_lookup_error row)
  require (may_transition mission.status new) Error.invalid_transition
  pure (mission.status, new)

unfoldable pub transition : ℕ → String → Option String → ℕ → Exec Database MissionStatus
transition mission_id new_status phase now = do
  (current, new) ← check_transition mission_id new_status
  done ← compare_and_set mission_id current new phase now
  require done Error.invalid_transition
  pure new

unfoldable pub transition_if_current :
    ℕ → MissionStatus → String → Option String → ℕ → Exec Database Bool
transition_if_current mission_id expected new_status phase now = do
  new ← lift (parse_status new_status)
  require (may_transition expected new) Error.invalid_transition
  compare_and_set mission_id expected new phase now

abbrev or_type_error : Option Mission → Result ℕ
or_type_error none = err Error.type_error
or_type_error (some m) = ok m.retry_count

-- With no such mission the subscript row["retry_count"] is a TypeError.
pub increment_retry : ℕ → ℕ → Exec Database ℕ
increment_retry mission_id now = do
  modify (λ db. record db {
    missions =
        update_where (by_mission mission_id)
          (λ m. record m { retry_count = m.retry_count + 1; updated_at = now }) db.missions;
  })
  row ← gets (λ db. fetchrow (by_mission mission_id) db.missions)
  lift (or_type_error row)

pub set_final_verification : ℕ → Json → ℕ → Exec Database (Unit {0})
set_final_verification mission_id verification now = modify (λ db. record db {
  missions =
      update_where (by_mission mission_id)
        (λ m. record m { final_verification = some verification; updated_at = now }) db.missions;
})

-- NOT IN ('COMPLETED', 'FAILED', 'CANCELLED')
unfoldable pub is_active : MissionStatus → Bool
unfolding same_mission
is_active status = not (mission_in status (completed ∷ failed ∷ cancelled ∷ []))

-- ORDER BY priority DESC, created_at ASC: does `a` stand before `b`?
unfoldable pub comes_first : Mission → Mission → Bool
comes_first a b =
    ltb b.priority a.priority || ((a.priority == b.priority) && leb a.created_at b.created_at)

unfoldable pub list_active : Exec Database (List Mission)
unfolding is_active
list_active = gets (λ db. sort comes_first (select (λ m. is_active m.status) db.missions))
